-- ===== src/Metainfo/Any.antt =====
-- metainfo.js, `fetchFromAny`: peers of one torrent, asked in turn or a few at a time.
--
-- What `fetchMetadata` gives for a peer is an argument, and so is the time at which it gives it.
pub mod InTurn
pub mod Schedule
pub mod Progress
mod Tests
use swarmproof.Base.{
  List, Option, [], drop, if◌then◌else◌, leb, length, min, none, some, suc, take, zero, ℕ, ◌+◌, ◌∷◌,
}
use swarmproof.Metainfo.Fetch.{Result}
use swarmproof.PeerTable.{Peer, PeerTable, failed, rank, succeeded}

-- What the table is told of one attempt.
unfoldable pub learn : ℕ → Option PeerTable → Peer → Result → Option PeerTable
learn now none p r = none
learn now (some t) p r =
    if r.ok then some (succeeded now t p r.connect_ms) else some (failed now t p r.connected)

-- `table ? table.rank(peers, maxPeers) : peers.slice(0, maxPeers)`
unfoldable pub choose : ℕ → Option PeerTable → List Peer → ℕ → Option PeerTable × List Peer
choose now none peers max_peers = (none, take max_peers peers)
choose now (some t) peers max_peers = let (t', ps) = rank now t peers max_peers in (some t', ps)

-- The loop for a concurrency of one: the answer, the table, and the connections made. The clock moves
-- on by what an attempt takes.
unfoldable pub in_turn :
    (Peer → Result) → ℕ → Option PeerTable → List Peer → Option Result × Option PeerTable × ℕ
unfolding learn
in_turn attempt now t [] = (none, t, 0)
in_turn attempt now t (p ∷ ps) =
    let r = attempt p in
    let after = now + r.total_ms in
    let (answer, t', n) = in_turn attempt after (learn after t p r) ps in
    if r.ok then (some r, learn after t p r, 1) else (answer, t', n + 1)

-- The pool: the peers not yet asked (`ordered` from `next` on), the attempts in the air (one for each
-- worker that has not returned), the winner and the table.
pub record Race : Type 0 where
  pub waiting : List Peer
  pub flying : List Peer
  pub winner : Option Result
  pub table : Option PeerTable

-- Each worker runs up to its first attempt.
unfoldable pub launch : Option PeerTable → List Peer → ℕ → Race
launch t ordered concurrency =
    let workers = min concurrency (length ordered) in
    record {
      waiting = drop workers ordered;
      flying = take workers ordered;
      winner = none;
      table = t;
    }

-- The attempt at a place leaves the air.
unfoldable pub put_back : Peer → Option (Peer × List Peer) → Option (Peer × List Peer)
put_back p none = none
put_back p (some (q, rest)) = some (q, p ∷ rest)

unfoldable pub pull : ℕ → List Peer → Option (Peer × List Peer)
unfolding put_back
pull i [] = none
pull zero (p ∷ ps) = some (p, ps)
pull (suc i) (p ∷ ps) = put_back p (pull i ps)

-- A worker goes round its loop: it takes the next of the waiting peers, or returns.
unfoldable pub go_on : Race → List Peer → Race
go_on s [] = s
go_on s (p ∷ ps) = record s { waiting = ps; flying = p ∷ s.flying }

-- The attempt on a peer ends, with the winner there is by then.
unfoldable pub landed : ℕ → Result → Peer → Race → Option Result → Race
unfolding learn go_on
landed now r p s (some w) = s
landed now r p s none =
    if r.ok
    then record s { winner = some r; table = learn now s.table p r }
    else go_on (record s { table = learn now s.table p r }) s.waiting

unfoldable pub land_pulled : (Peer → Result) → ℕ → Race → Option (Peer × List Peer) → Race
unfolding landed
land_pulled attempt now s none = s
land_pulled attempt now s (some (p, rest)) =
    landed now (attempt p) p (record s { flying = rest }) s.winner

-- One step: the attempt at place `i` of those in the air ends at a time.
unfoldable pub land : (Peer → Result) → Race → ℕ × ℕ → Race
unfolding pull land_pulled
land attempt s (now, i) = land_pulled attempt now s (pull i s.flying)

-- A schedule says which attempt ends next, and when.
unfoldable pub fly : (Peer → Result) → Race → List (ℕ × ℕ) → Race
unfolding land
fly attempt s [] = s
fly attempt s (e ∷ es) = fly attempt (land attempt s e) es

-- `await Promise.all(...)` returns when nothing is in the air.
unfoldable pub fetch_from_any :
    (Peer → Result)
    → ℕ
    → Option PeerTable
    → List Peer
    → ℕ
    → ℕ
    → List (ℕ × ℕ)
    → Option Result × Option PeerTable
unfolding choose in_turn fly launch
fetch_from_any attempt now table peers max_peers concurrency schedule =
    let (t, ordered) = choose now table peers max_peers in
    if leb concurrency 1
    then (let (answer, t', n) = in_turn attempt now t ordered in (answer, t'))
    else (let s = fly attempt (launch t ordered concurrency) schedule in (s.winner, s.table))
