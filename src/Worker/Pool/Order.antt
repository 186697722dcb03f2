-- ===== src/Worker/Pool/Order.antt =====
-- worker/src/index.js, `aggregateNodes`: which nodes are kept, and in which order they are served.
use mathlib.Core.List.{Perm}
use swarmproof.Base.{
  All, All-mono, List, Option, [], arith, drop, false, length, length-take, take-append-drop, true,
  ℕ, ◌++◌, ◌∷◌, ◌≡◌, ◌≤◌,
}
use swarmproof.Base.Sort.{
  AllPairs, AllPairs-take-drop, Sorted, Sorted-take, sort, sort-Sorted, sort-perm,
}
use swarmproof.Base.Text.{Text}
use swarmproof.Worker.Pool.{
  Contribution, Page, Pool, PoolNode, add_batches, aggregate_nodes, carry, max_pool_nodes,
  pool_nodes, ranks_before, sweep, values,
}

-- The node `b` has no more agreement than `a`, and with the same agreement was not seen later.
pub NoBetter : PoolNode → PoolNode → Type 0
NoBetter a b = (b.sources ≤ a.sources) × (b.sources ≡ a.sources → b.last_seen ≤ a.last_seen)

ranks_before-NoBetter : (a b : PoolNode) → ranks_before a b ≡ true → NoBetter a b
unfolding ranks_before NoBetter
ranks_before-NoBetter a b h = (ground arith, λ e. ground arith)

ranks_before_total : (a b : PoolNode) → ranks_before a b ≡ false → ranks_before b a ≡ true
unfolding ranks_before
ranks_before_total a b h = ground arith

ranks_before_trans :
    (a b c : PoolNode) → ranks_before a b ≡ true → ranks_before b c ≡ true → ranks_before a c ≡ true
unfolding ranks_before
ranks_before_trans a b c h k = ground arith

-- In a list, no node is better than one before it.
abbrev pub BestFirst : List PoolNode → Type 0
BestFirst [] = Unit
BestFirst (n ∷ ns) = All (NoBetter n) ns × BestFirst ns

Sorted-BestFirst : (ns : List PoolNode) → Sorted ranks_before ns → BestFirst ns
Sorted-BestFirst [] s = tt
Sorted-BestFirst (n ∷ ns) s =
    (All-mono ns (λ m h. ranks_before-NoBetter n m h) s.0, Sorted-BestFirst ns s.1)

AllPairs-NoBetter :
    (xs ys : List PoolNode) → AllPairs ranks_before xs ys → All (λ x. All (NoBetter x) ys) xs
AllPairs-NoBetter [] ys h = tt
AllPairs-NoBetter (x ∷ xs) ys h =
    (All-mono ys (λ y k. ranks_before-NoBetter x y k) h.0, AllPairs-NoBetter xs ys h.1)

-- All that a run of the aggregator has merged, before it is ranked and cut.
pub merged : ℕ → Option Pool → List Page → (Text → Option Contribution) → List PoolNode
unfolding values
merged now existing pages get =
    let names = (sweep [] pages).0 in
    values (add_batches now get (length names) names (carry now (pool_nodes existing)))

-- The new pool has at most the limit of nodes, best first, and together with the nodes that were cut
-- off, none of which is better than any node kept, it is a reordering of all that was merged: nothing
-- is excluded for want of agreement.
pub aggregate_order :
    (now : ℕ) (existing : Option Pool) (pages : List Page) (get : Text → Option Contribution)
    → let pool = aggregate_nodes now existing pages get in
      (length pool.nodes ≤ max_pool_nodes)
      × BestFirst pool.nodes
      × ((cut : List PoolNode) × Perm (pool.nodes ++ cut) (merged now existing pages get)
          × All (λ x. All (NoBetter x) cut) pool.nodes)
unfolding aggregate_nodes merged
aggregate_order now existing pages get =
    let all = merged now existing pages get in
    let sorted = sort-Sorted ranks_before ranks_before_total ranks_before_trans all in
    (
      omega (arith, length-take {0} max_pool_nodes (sort ranks_before all)),
      Sorted-BestFirst _ (Sorted-take ranks_before max_pool_nodes _ sorted),
      (
        drop max_pool_nodes (sort ranks_before all),
        rw (take-append-drop max_pool_nodes (sort ranks_before all)) (sort-perm ranks_before all),
        AllPairs-NoBetter _ _ (AllPairs-take-drop ranks_before max_pool_nodes _ sorted),
      ),
    )
