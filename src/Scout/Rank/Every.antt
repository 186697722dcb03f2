-- ===== src/Scout/Rank/Every.antt =====
-- swarmScout.js, `rank`: every candidate is in the answer.
use mathlib.Core.List.{Perm}
use mathlib.Core.Option.{some-injective}
use mathlib.Core.Path.{ap₂}
use swarmproof.Base.{
  Bool, Bool-cases, List, Option, [], ap, arith, false, inl, inr, map, none, refl, some, sym, true,
  ℕ, ◌&&◌, ◌∙◌, ◌∷◌, ◌≡◌, ◌≢◌,
}
use swarmproof.Base.Sort.{Sorted, sort, sort-Sorted, sort-perm}
use swarmproof.Base.Text.{Text}
use swarmproof.Scout.Probe.{
  FromShared, add_entry, all_shared, entry_from, from_shared, higher, rank_from_shared,
}
use swarmproof.Scout.Probe.Covered.{all_shared-covers_all}
use swarmproof.Scout.Rank.{
  Answer, ProbeOutcome, Row, answer_from, from_cloud, from_probes, fulfilled, probe_answer,
  rank_candidates, rejected, row_of, scores_more,
}
use swarmproof.Scout.Score.{covers_all}
use swarmproof.Worker.Health.{Described}
use swarmproof.Worker.Input.{lower}

entry_from-info_hash :
    (hash : Text) (o : Option Described) (e : FromShared)
    → entry_from hash o ≡ some e
    → e.info_hash ≡ hash
unfolding entry_from
entry_from-info_hash hash none e h = let absurd : ⊥ = cc in elim absurd [ ]
entry_from-info_hash hash (some d) e h =
    ap (λ (x : FromShared). x.info_hash) (sym (some-injective _ _ h))

add_entry-info_hash :
    (hash : Text) (hashes : List Text) (o : Option FromShared) (r : Option (List FromShared))
    (es : List FromShared)
    → ((e : FromShared) → o ≡ some e → e.info_hash ≡ hash)
    → ((fs : List FromShared) → r ≡ some fs → map (λ (e : FromShared). e.info_hash) fs ≡ hashes)
    → add_entry o r ≡ some es
    → map (λ (e : FromShared). e.info_hash) es ≡ hash ∷ hashes
unfolding add_entry
add_entry-info_hash hash hashes none r es u v h = let absurd : ⊥ = cc in elim absurd [ ]
add_entry-info_hash hash hashes (some e) none es u v h = let absurd : ⊥ = cc in elim absurd [ ]
add_entry-info_hash hash hashes (some e) (some fs) es u v h =
    ap (map (λ (x : FromShared). x.info_hash)) (sym (some-injective _ _ h))
    ∙ ap₂ (λ (x : Text) (xs : List Text). x ∷ xs) (u e refl) (v fs refl)

all_shared-info_hash :
    (shared : Text → Option Described) (hashes : List Text) (es : List FromShared)
    → all_shared shared hashes ≡ some es
    → map (λ (e : FromShared). e.info_hash) es ≡ hashes
unfolding all_shared from_shared
all_shared-info_hash shared [] es h =
    ap (map (λ (e : FromShared). e.info_hash)) (sym (some-injective _ _ h))
all_shared-info_hash shared (x ∷ hashes) es h =
    add_entry-info_hash x hashes (from_shared shared x) (all_shared shared hashes) es
      (λ e k. entry_from-info_hash x (shared (lower x)) e k)
      (λ fs k. all_shared-info_hash shared hashes fs k) h

-- What an answer must be, for candidates with their outcomes: one entry for each candidate, the higher
-- scores first.
pub IsAnswer : List (Text × ProbeOutcome) → Answer → Type 0
IsAnswer outcomes (from_cloud none) = ⊥
IsAnswer outcomes (from_cloud (some es)) =
    (entries : List FromShared) × (map (λ (e : FromShared). e.info_hash) entries
      ≡ map (λ (o : Text × ProbeOutcome). o.0) outcomes)
    × Perm es entries
    × Sorted higher es
IsAnswer outcomes (from_probes rows reports) =
    (entries : List Row) × (map (λ (r : Row). r.info_hash) entries
      ≡ map (λ (o : Text × ProbeOutcome). o.0) outcomes)
    × Perm rows entries
    × Sorted scores_more rows

map-row_of-info_hash :
    (outcomes : List (Text × ProbeOutcome))
    → map (λ (r : Row). r.info_hash) (map row_of outcomes)
      ≡ map (λ (o : Text × ProbeOutcome). o.0) outcomes
unfolding row_of
map-row_of-info_hash [] = refl
map-row_of-info_hash ((hash, fulfilled s) ∷ os) =
    ap (λ (t : List Text). hash ∷ t) (map-row_of-info_hash os)
map-row_of-info_hash ((hash, rejected m) ∷ os) =
    ap (λ (t : List Text). hash ∷ t) (map-row_of-info_hash os)

scores_more_total : (a b : Row) → scores_more a b ≡ false → scores_more b a ≡ true
unfolding scores_more
scores_more_total a b h = ground (arith, h)

scores_more_trans :
    (a b c : Row) → scores_more a b ≡ true → scores_more b c ≡ true → scores_more a c ≡ true
unfolding scores_more
scores_more_trans a b c h k = ground (arith, h, k)

higher_total : (a b : FromShared) → higher a b ≡ false → higher b a ≡ true
unfolding higher
higher_total a b h = ground (arith, h)

higher_trans : (a b c : FromShared) → higher a b ≡ true → higher b c ≡ true → higher a c ≡ true
unfolding higher
higher_trans a b c h k = ground (arith, h, k)

probe_answer-IsAnswer :
    (enabled : Bool) (outcomes : List (Text × ProbeOutcome))
    → IsAnswer outcomes (probe_answer enabled outcomes)
unfolding probe_answer IsAnswer
probe_answer-IsAnswer enabled outcomes = (
  map row_of outcomes,
  map-row_of-info_hash outcomes,
  sort-perm scores_more (map row_of outcomes),
  sort-Sorted scores_more scores_more_total scores_more_trans (map row_of outcomes),
)

sorted_IsAnswer :
    (outcomes : List (Text × ProbeOutcome)) (r : Option (List FromShared))
    → r ≢ none
    → ((es : List FromShared)
        → r ≡ some es
        → map (λ (e : FromShared). e.info_hash) es
          ≡ map (λ (o : Text × ProbeOutcome). o.0) outcomes)
    → IsAnswer outcomes (from_cloud (elim r [ none ↦ none | some es ↦ some (sort higher es) ]))
unfolding IsAnswer
sorted_IsAnswer outcomes none n v = elim (n refl) [ ]
sorted_IsAnswer outcomes (some es) n v =
    (es, v es refl, sort-perm higher es, sort-Sorted higher higher_total higher_trans es)

answer_from-IsAnswer :
    (enabled : Bool) (now : ℕ) (shared : Option (Text → Option Described))
    (outcomes : List (Text × ProbeOutcome))
    → IsAnswer outcomes (answer_from enabled now shared outcomes)
unfolding answer_from rank_from_shared
answer_from-IsAnswer enabled now none outcomes = probe_answer-IsAnswer enabled outcomes
answer_from-IsAnswer enabled now (some shared) outcomes =
    let hashes = map (λ (o : Text × ProbeOutcome). o.0) outcomes in
    elim (Bool-cases (covers_all now shared hashes)) [
      | inl e ↦ rw (e) (
          sorted_IsAnswer outcomes (all_shared shared hashes)
            (all_shared-covers_all now shared hashes e) (all_shared-info_hash shared hashes))
      | inr e ↦ rw (e) (probe_answer-IsAnswer enabled outcomes)
    ]

-- Whatever shared health says, whatever the probes give and whichever of them fail: `rank` throws
-- nothing, its answer has exactly one entry for each candidate, and the higher scores come first.
pub rank_candidates-IsAnswer :
    (shared_first enabled : Bool) (now : ℕ) (shared : Option (Text → Option Described))
    (outcomes : List (Text × ProbeOutcome))
    → IsAnswer outcomes (rank_candidates shared_first enabled now shared outcomes)
unfolding rank_candidates
rank_candidates-IsAnswer shared_first enabled now shared outcomes =
    elim (Bool-cases (shared_first && enabled)) [
      | inl e ↦ rw (e) (answer_from-IsAnswer enabled now shared outcomes)
      | inr e ↦ rw (e) (probe_answer-IsAnswer enabled outcomes)
    ]
