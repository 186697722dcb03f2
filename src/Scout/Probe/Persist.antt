-- ===== src/Scout/Probe/Persist.antt =====
-- swarmScout.js, `_responsiveNodes` and `_persistNodes`: only what has answered is kept.
use swarmproof.Base.{
  refl, ◌∙◌, length-map, length-take, map, All, Bool, Bool-cases, List, [], arith, false, filter,
  inl, inr, length, true, ℕ, ◌-◌, ◌∷◌, ◌≡◌, ◌≤◌,
}
use swarmproof.PeerTable.{Peer}
use swarmproof.Scout.Probe.{
  persist_given, contact_node, Contact, fresher, has_answered, node_answered_within_ms,
  persist_nodes, responsive,
}
use swarmproof.Base.Sort.{All-sort, Sorted, sort-Sorted}
use swarmproof.PeerCache.{NodeRow, PeerCache}

fresher_total : (a b : Contact) → fresher a b ≡ false → fresher b a ≡ true
unfolding fresher
fresher_total a b h = grind arith

fresher_trans : (a b c : Contact) → fresher a b ≡ true → fresher b c ≡ true → fresher a c ≡ true
unfolding fresher
fresher_trans a b c h k = grind arith

All-filter {ℓ} : {A : Type ℓ} (p : A → Bool) (xs : List A) → All (λ x. p x ≡ true) (filter p xs)
All-filter p [] = tt
All-filter p (x ∷ xs) = elim (Bool-cases (p x)) [
  | inl e ↦ rw e (e, All-filter p xs)
  | inr e ↦ rw e (All-filter p xs)
]

-- What is persisted has answered within the window, is usable, and stands in the order of its
-- freshness, so that a cut keeps the freshest.
pub responsive_lem :
    (now : ℕ) (table : List Contact)
    → All (λ c. has_answered (now - node_answered_within_ms) c ≡ true) (responsive now table)
      × Sorted fresher (responsive now table)
unfolding responsive
responsive_lem now table =
    let kept = filter (has_answered (now - node_answered_within_ms)) table in
    (
      All-sort fresher (λ c. has_answered (now - node_answered_within_ms) c ≡ true) kept
          (All-filter (has_answered (now - node_answered_within_ms)) table),
      sort-Sorted fresher fresher_total fresher_trans kept,
    )

persist_given_lem :
    (newest_first : List NodeRow → List NodeRow) (works : Bool) (now : ℕ) (cache : PeerCache)
    (nodes : List Peer)
    → (length nodes ≡ 0 → persist_given newest_first works now cache nodes ≡ (cache, []))
      × (length (persist_given newest_first works now cache nodes).1 ≤ 100)
unfolding persist_given
persist_given_lem newest_first works now cache [] = (λ h. refl, omega arith)
persist_given_lem newest_first works now cache (n ∷ ns) =
    (λ h. grind (arith, h), omega (arith, length-take 100 (n ∷ ns)))

-- A table in which nothing has answered leaves the cache as it is, and nothing is reported; in any
-- case at most a hundred nodes are.
pub persist_nodes_lem :
    (newest_first : List NodeRow → List NodeRow) (works : Bool) (now : ℕ) (table : List Contact)
    (cache : PeerCache)
    → (length (responsive now table) ≡ 0
        → persist_nodes newest_first works now table cache ≡ (cache, []))
      × (length (persist_nodes newest_first works now table cache).1 ≤ 100)
unfolding persist_nodes
persist_nodes_lem newest_first works now table cache =
    let nodes = map contact_node (responsive now table) in
    let (same_cache, few) = persist_given_lem newest_first works now cache nodes in
    (λ h. same_cache (length-map (responsive now table) contact_node ∙ h), few)
