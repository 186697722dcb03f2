-- ===== src/Worker/Pool/Sources.antt =====
-- worker/src/index.js, `aggregateNodes`: how many sources a node is counted with.
use swarmproof.Base.{
  leb, ltb, ◌&&◌, Option-cases, inl, inr, Bool, List, Option, [], any, ap, arith, false,
  if◌then◌else◌, length, map, max, none, refl, some, true, ℕ, ◌+◌, ◌∙◌, ◌∷◌, ◌≡◌,
}
use swarmproof.Worker.Health.{or_else}
use swarmproof.Worker.Pool.{
  carry_one, carry_from, contrib_ttl_ms, pool_key, distinct, Contribution, PoolNode, RawNode, Seen,
  add_batches, add_bodies, add_body, add_key, add_keys, add_node_key, carry, distinct_from,
  new_node, node_key, seen_again,
}
use swarmproof.Base.Table.{lookup, lookup-set, set}
use swarmproof.Base.Text.{Text, same, same_iff}
use swarmproof.Worker.Pool.Batches.{add_batches-add_bodies}

pub sources_of : Text → Seen → ℕ
sources_of k seen = elim (lookup k seen) [ none ↦ 0 | some n ↦ n.sources ]

-- A contribution lists the address, once or more.
pub lists : Text → Option Contribution → Bool
lists k none = false
lists k (some c) = any (λ n. elim (node_key n) [ none ↦ false | some j ↦ same j k ]) c.nodes

one_if : Bool → ℕ
one_if true = 1
one_if false = 0

-- The number of contributions that list the address.
pub count_listing : Text → List (Option Contribution) → ℕ
unfolding one_if
count_listing k [] = 0
count_listing k (b ∷ bs) = one_if (lists k b) + count_listing k bs

occurs : Text → List Text → ℕ
unfolding one_if
occurs k [] = 0
occurs k (j ∷ ks) = one_if (same j k) + occurs k ks

occurs-add_key :
    (k j : Text) (ks : List Text)
    → occurs k (add_key j ks) ≡ (if same j k then max 1 (occurs k ks) else occurs k ks)
unfolding occurs add_key
occurs-add_key k j [] = ground arith
occurs-add_key k j (i ∷ ks) =
    ground (arith, same_iff j k, same_iff i j, same_iff i k, occurs-add_key k j ks)

names_key : Text → RawNode → Bool
names_key k n = elim (node_key n) [ none ↦ false | some j ↦ same j k ]

occurs-add_node_key :
    (k : Text) (n : RawNode) (ks : List Text)
    → occurs k (add_node_key (node_key n) ks)
      ≡ (if names_key k n then max 1 (occurs k ks) else occurs k ks)
unfolding add_node_key names_key
occurs-add_node_key k n ks = elim (Option-cases (node_key n)) [
  | inl e ↦ rw (e, names_key)
  | inr (j, e) ↦ rw (e, names_key) (occurs-add_key k j ks)
]

occurs-distinct_from :
    (k : Text) (ks : List Text) (ns : List RawNode)
    → occurs k (distinct_from ks ns)
      ≡ (if any (names_key k) ns then max 1 (occurs k ks) else occurs k ks)
unfolding distinct_from
occurs-distinct_from k ks [] = refl
occurs-distinct_from k ks (n ∷ ns) =
    ground
      (arith, occurs-distinct_from k (add_node_key (node_key n) ks) ns, occurs-add_node_key k n ks)

sources-set :
    (k j : Text) (n : PoolNode) (seen : Seen)
    → sources_of k (set j n seen) ≡ (if same j k then n.sources else sources_of k seen)
unfolding sources_of
sources-set k j n seen = ground (arith, lookup-set j k n seen)

sources-seen_again :
    (k : Text) (ts : ℕ) (seen : Seen)
    → (seen_again k ts (lookup k seen)).sources ≡ sources_of k seen + 1
unfolding sources_of seen_again new_node
sources-seen_again k ts seen = ground arith

sources-add_keys :
    (k : Text) (ts : ℕ) (ks : List Text) (seen : Seen)
    → sources_of k (add_keys ts ks seen) ≡ sources_of k seen + occurs k ks
unfolding add_keys occurs
sources-add_keys k ts [] seen = omega arith
sources-add_keys k ts (j ∷ ks) seen = ground (
  arith,
  sources-add_keys k ts ks (set j (seen_again j ts (lookup j seen)) seen),
  sources-set k j (seen_again j ts (lookup j seen)) seen,
  sources-seen_again j ts seen,
  same_iff j k,
)

occurs-distinct :
    (k : Text) (c : Contribution) → occurs k (distinct c.nodes) ≡ one_if (lists k (some c))
unfolding distinct lists names_key occurs one_if
occurs-distinct k c = ground (arith, occurs-distinct_from k [] c.nodes)

sources-add_body :
    (k : Text) (now : ℕ) (b : Option Contribution) (seen : Seen)
    → sources_of k (add_body now b seen) ≡ sources_of k seen + one_if (lists k b)
unfolding add_body one_if
sources-add_body k now none seen = unfold lists in omega arith
sources-add_body k now (some c) seen =
    sources-add_keys k (or_else c.ts now) (distinct c.nodes) seen
    ∙ ap (λ m. sources_of k seen + m) (occurs-distinct k c)

sources-add_bodies :
    (k : Text) (now : ℕ) (bs : List (Option Contribution)) (seen : Seen)
    → sources_of k (add_bodies now bs seen) ≡ sources_of k seen + count_listing k bs
unfolding add_bodies count_listing
sources-add_bodies k now [] seen = omega arith
sources-add_bodies k now (b ∷ bs) seen =
    omega (arith, sources-add_bodies k now bs (add_body now b seen), sources-add_body k now b seen)

-- The old pool's node is not too old, and has the address.
carries : Text → ℕ → PoolNode → Bool
carries k now n = leb now (n.last_seen + contrib_ttl_ms) && same (pool_key n) k

-- The sources that the old pool has for an address, at least one, by the last of its nodes with that
-- address that is not too old; none if there is no such node.
pub old_sources : Text → ℕ → List PoolNode → ℕ
unfolding carries
old_sources k now [] = 0
old_sources k now (n ∷ ns) =
    let later = old_sources k now ns in
    if ltb 0 later then later else (if carries k now n then max 1 n.sources else 0)

sources-carry_one :
    (k : Text) (now : ℕ) (n : PoolNode) (seen : Seen)
    → sources_of k (carry_one now n seen)
      ≡ (if carries k now n then max 1 n.sources else sources_of k seen)
unfolding carry_one carries or_else
sources-carry_one k now n seen =
    ground (arith, sources-set k (pool_key n) (record n { sources = or_else n.sources 1 }) seen)

sources-carry_from :
    (k : Text) (now : ℕ) (ns : List PoolNode) (seen : Seen)
    → sources_of k (carry_from now seen ns)
      ≡ (if ltb 0 (old_sources k now ns) then old_sources k now ns else sources_of k seen)
unfolding carry_from old_sources
sources-carry_from k now [] seen = ground arith
sources-carry_from k now (n ∷ ns) seen =
    ground
      (arith, sources-carry_from k now ns (carry_one now n seen), sources-carry_one k now n seen)

sources_of_none : (k : Text) → sources_of k [] ≡ 0
unfolding sources_of lookup
sources_of_none k = refl

sources-carry :
    (k : Text) (now : ℕ) (nodes : List PoolNode)
    → sources_of k (carry now nodes) ≡ old_sources k now nodes
unfolding carry
sources-carry k now nodes = ground (arith, sources-carry_from k now nodes [], sources_of_none k)

-- A run counts an address with the sources that the old pool had for it, none if it had no node for it
-- that is not too old, and one more for each contribution that lists it: once however often the
-- contribution repeats it, and also if the old pool's number has already counted that contribution in an
-- earlier run.
pub sources-aggregate :
    (k : Text) (now : ℕ) (nodes : List PoolNode) (get : Text → Option Contribution)
    (names : List Text)
    → sources_of k (add_batches now get (length names) names (carry now nodes))
      ≡ old_sources k now nodes + count_listing k (map get names)
sources-aggregate k now nodes get names =
    ap (sources_of k)
      (add_batches-add_bodies now get (length names) names (carry now nodes) (omega arith))
    ∙ sources-add_bodies k now (map get names) (carry now nodes)
    ∙ ap (λ (m : ℕ). m + count_listing k (map get names)) (sources-carry k now nodes)
