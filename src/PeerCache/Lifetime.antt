-- ===== src/PeerCache/Lifetime.antt =====
-- peerCache.js: how long an entry is given, and what a closed cache does.
use swarmproof.Base.{
  arith, Bool, List, false, if◌then◌else◌, ltb, none, refl, some, true, ℕ, ◌+◌, ◌∙◌, ◌≡◌,
}
use swarmproof.Base.Table.{set, lookup, lookup-set}
use swarmproof.Base.Text.{Text, same_refl}
use swarmproof.PeerCache.{PeerCache, SwarmRow, get, hit, put_swarm}
use swarmproof.PeerTable.{Peer}

abbrev row_at : List Peer → ℕ → ℕ → SwarmRow
row_at peers score ts = record { peers = peers; score = score; ts = ts }

put_swarm-open :
    (t : ℕ) (k : Text) (peers : List Peer) (score : ℕ) (c : PeerCache)
    → c.closed ≡ false
    → put_swarm true t k peers score c ≡ record c { swarms = set k (row_at peers score t) c.swarms }
unfolding put_swarm
put_swarm-open t k peers score c o = simp o refl

get-open :
    (now : ℕ) (k : Text) (deletes : Bool) (row : SwarmRow) (c : PeerCache)
    → c.closed ≡ false
    → lookup k c.swarms ≡ some row
    → (get true deletes now k c).0 ≡ (if ltb (row.ts + c.ttl_ms) now then none else some row)
unfolding get hit
get-open now k deletes row c o e = simp (o, e) (ground arith)

lookup-set_same :
    (k : Text) (row : SwarmRow) (m : List (Text × SwarmRow)) → lookup k (set k row m) ≡ some row
lookup-set_same k row m = lookup-set k k row m ∙ rw (same_refl k) refl

-- What is put into an open cache is given back until its lifetime has passed since then, and after
-- that no more.
pub get-put_swarm :
    (t now : ℕ) (k : Text) (peers : List Peer) (score : ℕ) (deletes : Bool) (c : PeerCache)
    → c.closed ≡ false
    → (get true deletes now k (put_swarm true t k peers score c)).0 ≡ (
        if ltb (t + c.ttl_ms) now
        then none
        else some (record { peers = peers; score = score; ts = t }))
get-put_swarm t now k peers score deletes c o = rw (put_swarm-open t k peers score c o) (
    get-open now k deletes (row_at peers score t)
      (record c { swarms = set k (row_at peers score t) c.swarms }) o
      (lookup-set_same k (row_at peers score t) c.swarms))
