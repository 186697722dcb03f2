-- ===== src/PeerCache.antt =====
-- peerCache.js: what earlier sessions learned, in a database of two tables.
--
-- A statement either works, or throws and leaves the tables as they are: which of the two is an
-- argument. The rows by `seen`, the newest first, are an argument too, since SQLite leaves the order
-- of ties open. Peers are stored as they are, not as their JSON.
pub mod Lifetime
mod Tests
use swarmproof.Base.{
  Bool, List, Option, [], any, false, filter, if◌then◌else◌, leb, length, ltb, map, none, not, some,
  take, true, ℕ, ◌&&◌, ◌+◌, ◌-◌, ◌==◌, ◌||◌, ◌∷◌,
}
use swarmproof.Base.Table.{lookup, set}
use swarmproof.Base.Text.{Text, same}
use swarmproof.PeerTable.{Peer, key}

abbrev pub default_ttl_ms : ℕ
default_ttl_ms = 600_000

-- A row of `swarms`, without its key.
pub record SwarmRow : Type 0 where
  pub peers : List Peer
  pub score : ℕ
  pub ts : ℕ

-- A row of `nodes`.
pub record NodeRow : Type 0 where
  pub node : Peer
  pub seen : ℕ

pub record PeerCache : Type 0 where
  pub ttl_ms : ℕ
  pub closed : Bool
  pub swarms : List (Text × SwarmRow)
  pub nodes : List NodeRow

-- DELETE FROM swarms WHERE info_hash = ?
pub delete_swarm : Text → List (Text × SwarmRow) → List (Text × SwarmRow)
delete_swarm k rows = filter (λ r. not (same r.0 k)) rows

pub hit : Bool → ℕ → Text → Option SwarmRow → PeerCache → Option SwarmRow × PeerCache
unfolding delete_swarm
hit deletes now k none c = (none, c)
hit deletes now k (some row) c =
    if ltb (row.ts + c.ttl_ms) now
    then (none, if deletes then record c { swarms = delete_swarm k c.swarms } else c)
    else (some row, c)

-- `get`, with whether the SELECT and the DELETE work.
pub get : Bool → Bool → ℕ → Text → PeerCache → Option SwarmRow × PeerCache
unfolding hit
get selects deletes now k c =
    if c.closed
    then (none, c)
    else (if selects then hit deletes now k (lookup k c.swarms) c else (none, c))

-- `set`, with whether the statement works.
pub put_swarm : Bool → ℕ → Text → List Peer → ℕ → PeerCache → PeerCache
put_swarm works now k peers score c =
    if c.closed || not works
    then c
    else record c { swarms = set k (record { peers = peers; score = score; ts = now }) c.swarms }

-- `isFresh`
pub is_fresh : Bool → Bool → ℕ → Text → PeerCache → Bool
unfolding get
is_fresh selects deletes now k c = elim (get selects deletes now k c).0 [
  | none ↦ false
  | some row ↦ true
]

pub node_of : NodeRow → Peer
node_of r = r.node

-- `getNodes`
pub cached_nodes : (List NodeRow → List NodeRow) → Bool → ℕ → PeerCache → List Peer
unfolding node_of
cached_nodes newest_first works max_nodes c =
    if c.closed || not works then [] else map node_of (take max_nodes (newest_first c.nodes))

pub same_node : Peer → Peer → Bool
same_node a b = same a.host b.host && (a.port == b.port)

-- INSERT ... ON CONFLICT(host, port) DO UPDATE SET seen
pub upsert_node : Peer → ℕ → List NodeRow → List NodeRow
unfolding same_node
upsert_node p now [] = record { node = p; seen = now } ∷ []
upsert_node p now (r ∷ rs) =
    if same_node r.node p then record { node = p; seen = now } ∷ rs else r ∷ upsert_node p now rs

unfoldable pub is_usable : Peer → Bool
is_usable p = not (length p.host == 0) && not (p.port == 0)

-- The loop of `setNodes`: the keys seen so far, and how many more it takes.
pub upsert_all : ℕ → ℕ → List Text → List Peer → List NodeRow → List NodeRow
unfolding upsert_node is_usable
upsert_all now left keys [] rows = rows
upsert_all now left keys (p ∷ ps) rows =
    let skip = upsert_all now left keys ps rows in
    let rest = upsert_all now (left - 1) (key p ∷ keys) ps (upsert_node p now rows) in
    if not (is_usable p) || any (λ k. same k (key p)) keys
    then skip
    else (if leb left 1 then upsert_node p now rows else rest)

-- `setNodes`, with whether the transaction works.
pub set_nodes : (List NodeRow → List NodeRow) → Bool → ℕ → ℕ → List Peer → PeerCache → PeerCache
unfolding upsert_all
set_nodes newest_first works now max_nodes peers c =
    if c.closed || (length peers == 0) || not works then c else record c {
      nodes = take max_nodes (newest_first (upsert_all now max_nodes [] peers c.nodes));
    }

-- `close`
pub close : PeerCache → PeerCache
close c = record c { closed = true }
