-- ===== src/Worker/Pool/Safety.antt =====
-- worker/src/index.js: no node reaches the pool but a public address with a valid port.
use mathlib.Core.Path.{subst}
use swarmproof.Base.{
  All, All-take, Bool-cases, List, Option, [], ap, arith, inl, inr, length, length-map, length-take,
  ltb, map, none, refl, some, sym, take, ℕ, ◌++◌, ◌+◌, ◌∙◌, ◌∷◌, ◌≡◌, ◌≤◌,
}
use swarmproof.Base.Decimal.{number-decimal}
use swarmproof.Base.Sort.{All-sort}
use swarmproof.Base.Table.{lookup, set}
use swarmproof.Base.Text.{Text, same}
use swarmproof.PeerTable.{Peer, key}
use swarmproof.PeerTable.Bound.{split_last-key}
use swarmproof.Worker.Health.{or_else}
use swarmproof.Worker.Pool.{
  Contribution, Page, Pool, PoolNode, RawNode, Seen, add_batches, add_bodies, add_body, add_key,
  add_keys, add_node_key, aggregate_nodes, carry, carry_from, carry_one, contrib_ttl_ms, distinct,
  distinct_from, max_nodes_served, max_pool_nodes, new_node, node_key, peer_of_node, pool_key,
  pool_nodes, public_floor, ranks_before, raw, seen_again, served, sweep, values,
}
use swarmproof.Worker.Pool.Batches.{add_batches-add_bodies}
use swarmproof.Worker.Pool.Contributions.{IsSafeContribution, IsSafeNode, IsSafePeer, IsSafeRaw}

-- The table: each node stands under its own key and is safe.
abbrev pub IsSafeEntry : Text × PoolNode → Type 0
IsSafeEntry e = IsSafeNode e.1

All-set_entry :
    (k : Text) (n : PoolNode) (seen : Seen)
    → IsSafeNode n
    → All IsSafeEntry seen
    → All IsSafeEntry (set k n seen)
unfolding set
All-set_entry k n [] h a = (h, tt)
All-set_entry k n ((j, m) ∷ seen) h a = elim (Bool-cases (same j k)) [
  | inl q ↦ rw q (h, a.1)
  | inr q ↦ rw q (a.0, All-set_entry k n seen h a.1)
]

carry_one-IsSafe :
    (now : ℕ) (n : PoolNode) (seen : Seen)
    → IsSafeNode n
    → All IsSafeEntry seen
    → All IsSafeEntry (carry_one now n seen)
unfolding carry_one
carry_one-IsSafe now n seen h s = elim (Bool-cases (ltb (n.last_seen + contrib_ttl_ms) now)) [
  | inl q ↦ rw q s
  | inr q ↦ rw q (All-set_entry (pool_key n) (record n { sources = or_else n.sources 1 }) seen h s)
]

carry_from-IsSafe :
    (now : ℕ) (seen : Seen) (nodes : List PoolNode)
    → All IsSafeEntry seen
    → All IsSafeNode nodes
    → All IsSafeEntry (carry_from now seen nodes)
unfolding carry_from
carry_from-IsSafe now seen [] s h = s
carry_from-IsSafe now seen (n ∷ ns) s h =
    carry_from-IsSafe now (carry_one now n seen) ns (carry_one-IsSafe now n seen h.0 s) h.1

-- A key of a safe node gives its host and its port back.
abbrev pub IsSafeKey : Text → Type 0
IsSafeKey k = (p : Peer) × (k ≡ key p) × IsSafePeer p

new_node-key :
    (p : Peer) (ts : ℕ)
    → new_node (key p) ts ≡ record { host = p.host; port = p.port; sources = 1; last_seen = ts }
unfolding new_node
new_node-key p ts = rw (split_last-key p, new_node, number-decimal p.port)

new_node-IsSafe : (k : Text) (ts : ℕ) → IsSafeKey k → IsSafeNode (new_node k ts)
new_node-IsSafe k ts (p, e, h) = rw (e, new_node-key p ts) h

seen_again-IsSafe :
    (k : Text) (ts : ℕ) (seen : Seen)
    → IsSafeKey k
    → All IsSafeEntry seen
    → IsSafeNode (seen_again k ts (lookup k seen))
unfolding lookup seen_again
seen_again-IsSafe k ts [] h s = new_node-IsSafe k ts h
seen_again-IsSafe k ts ((j, n) ∷ seen) h s = elim (Bool-cases (same j k)) [
  | inl q ↦ rw q s.0
  | inr q ↦ rw q (seen_again-IsSafe k ts seen h s.1)
]

add_keys-IsSafe :
    (ts : ℕ) (ks : List Text) (seen : Seen)
    → All IsSafeKey ks
    → All IsSafeEntry seen
    → All IsSafeEntry (add_keys ts ks seen)
unfolding add_keys
add_keys-IsSafe ts [] seen h s = s
add_keys-IsSafe ts (k ∷ ks) seen h s =
    add_keys-IsSafe ts ks (set k (seen_again k ts (lookup k seen)) seen) h.1
      (All-set_entry k _ seen (seen_again-IsSafe k ts seen h.0 s) s)

add_key-IsSafe :
    (k : Text) (ks : List Text) → IsSafeKey k → All IsSafeKey ks → All IsSafeKey (add_key k ks)
unfolding add_key
add_key-IsSafe k [] h s = (h, tt)
add_key-IsSafe k (j ∷ ks) h s = elim (Bool-cases (same j k)) [
  | inl q ↦ rw q s
  | inr q ↦ rw q (s.0, add_key-IsSafe k ks h s.1)
]

node_key-raw : (p : Peer) → node_key (raw p) ≡ some (key p)
unfolding node_key raw
node_key-raw p = refl

add_node_key-IsSafe :
    (n : RawNode) (ks : List Text)
    → IsSafeRaw n
    → All IsSafeKey ks
    → All IsSafeKey (add_node_key (node_key n) ks)
unfolding add_node_key
add_node_key-IsSafe n ks (p, e, h) s =
    subst (λ (o : Option Text). All IsSafeKey (add_node_key o ks))
      (sym (ap node_key e ∙ node_key-raw p)) (add_key-IsSafe (key p) ks (p, refl, h) s)

distinct_from-IsSafe :
    (ks : List Text) (ns : List RawNode)
    → All IsSafeRaw ns
    → All IsSafeKey ks
    → All IsSafeKey (distinct_from ks ns)
unfolding distinct_from
distinct_from-IsSafe ks [] h s = s
distinct_from-IsSafe ks (n ∷ ns) h s =
    distinct_from-IsSafe (add_node_key (node_key n) ks) ns h.1 (add_node_key-IsSafe n ks h.0 s)

add_body-IsSafe :
    (now : ℕ) (b : Option Contribution) (seen : Seen)
    → IsSafeContribution b
    → All IsSafeEntry seen
    → All IsSafeEntry (add_body now b seen)
unfolding add_body distinct
add_body-IsSafe now none seen h s = s
add_body-IsSafe now (some c) seen h s =
    add_keys-IsSafe (or_else c.ts now) (distinct c.nodes) seen
      (distinct_from-IsSafe [] c.nodes h tt) s

add_bodies-IsSafe :
    (now : ℕ) (get : Text → Option Contribution) (names : List Text) (seen : Seen)
    → ((name : Text) → IsSafeContribution (get name))
    → All IsSafeEntry seen
    → All IsSafeEntry (add_bodies now (map get names) seen)
unfolding add_bodies
add_bodies-IsSafe now get [] seen h s = s
add_bodies-IsSafe now get (n ∷ names) seen h s =
    add_bodies-IsSafe now get names (add_body now (get n) seen) h
      (add_body-IsSafe now (get n) seen (h n) s)

values-IsSafe : (seen : Seen) → All IsSafeEntry seen → All IsSafeNode (values seen)
unfolding values
values-IsSafe [] s = tt
values-IsSafe (e ∷ seen) s = (s.0, values-IsSafe seen s.1)

-- If the stored contributions and the old pool hold safe nodes only, so does the new pool.
pub aggregate-IsSafe :
    (now : ℕ) (existing : Option Pool) (pages : List Page) (get : Text → Option Contribution)
    → All IsSafeNode (pool_nodes existing)
    → ((name : Text) → IsSafeContribution (get name))
    → All IsSafeNode (aggregate_nodes now existing pages get).nodes
unfolding aggregate_nodes carry
aggregate-IsSafe now existing pages get h c =
    let names = (sweep [] pages).0 in
    let seen = carry now (pool_nodes existing) in
    let batched : All IsSafeEntry (add_batches now get (length names) names seen) =
      rw (add_batches-add_bodies now get (length names) names seen (omega arith)) (
        add_bodies-IsSafe now get names seen c
          (carry_from-IsSafe now [] (pool_nodes existing) tt h)) in
    All-take IsSafeNode max_pool_nodes _
      (All-sort ranks_before IsSafeNode _ (values-IsSafe _ batched))

-- What `getNodes` serves is at most two hundred safe nodes of the pool, and always the public floor
-- behind them, also if the pool is empty or missing.
pub served_lem :
    (pool : Option Pool)
    → All IsSafeNode (pool_nodes pool)
    → (ranked : List Peer) × (served pool ≡ ranked ++ public_floor)
      × (length ranked ≤ max_nodes_served)
      × All IsSafePeer ranked
unfolding served peer_of_node
served_lem pool h = (
  map peer_of_node (take max_nodes_served (pool_nodes pool)),
  refl,
  omega (
    arith,
    length-map {0, 0} (take max_nodes_served (pool_nodes pool)) peer_of_node,
    length-take {0} max_nodes_served (pool_nodes pool),
  ),
  peers_safe (take max_nodes_served (pool_nodes pool))
      (All-take IsSafeNode max_nodes_served (pool_nodes pool) h),
)
  where
    peers_safe : (ns : List PoolNode) → All IsSafeNode ns → All IsSafePeer (map peer_of_node ns)
    peers_safe [] k = tt
    peers_safe (n ∷ ns) k = (k.0, peers_safe ns k.1)
