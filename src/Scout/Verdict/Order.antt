-- ===== src/Scout/Verdict/Order.antt =====
-- swarmScout.js, `assess`: nothing that is unproven stands in front of something proven.
use swarmproof.Base.{
  All, All-mono, ap, drop, refl, take, ℕ, Bool, List, arith, false, true, ◌≡◌, ◌≤◌,
}
use swarmproof.Base.Sort.{AllPairs-take-drop, Sorted, sort-Sorted, sort-perm}
use swarmproof.Scout.Verdict.{
  Verdict, claimed, none_found, reachable, tier, Assessed, Attempt, Ranked, assess, assess_all,
  comes_before, tier_of, verified,
}
use mathlib.Core.List.{Perm}
use swarmproof.Base.Text.{Text}

comes_before_total : (a b : Assessed) → comes_before a b ≡ false → comes_before b a ≡ true
unfolding comes_before
comes_before_total a b h = grind arith

comes_before_trans :
    (a b c : Assessed) → comes_before a b ≡ true → comes_before b c ≡ true → comes_before a c ≡ true
unfolding comes_before
comes_before_trans a b c h k = grind arith

comes_before_tier : (a b : Assessed) → comes_before a b ≡ true → tier_of a ≤ tier_of b
unfolding comes_before
comes_before_tier a b h = grind arith

-- The assessed entries are those of the ranking, each once, in an order in which no tier stands in
-- front of a better one, and within a tier no lower score in front of a higher one.
pub assess_order :
    (verify : Bool) (attempt : Text → Attempt) (rs : List Ranked)
    → Perm (assess verify attempt rs) (assess_all verify attempt rs)
      × Sorted comes_before (assess verify attempt rs)
unfolding assess
assess_order verify attempt rs = (
  sort-perm comes_before (assess_all verify attempt rs),
  sort-Sorted comes_before comes_before_total comes_before_trans (assess_all verify attempt rs),
)

tier_of_verified : (v : Verdict) (r : Bool) → tier v r ≡ 0 → v ≡ verified
unfolding tier
tier_of_verified verified r h = refl
tier_of_verified reachable r h = grind arith
tier_of_verified claimed r h = grind arith
tier_of_verified none_found r h = grind arith

verified_before :
    (a b : Assessed) → comes_before a b ≡ true → b.verdict ≡ verified → a.verdict ≡ verified
unfolding tier_of
verified_before a b h v =
    let t = comes_before_tier a b h in
    let z : tier b.verdict b.refuted ≡ 0 = ap (λ (x : Verdict). tier x b.refuted) v in
    tier_of_verified a.verdict a.refuted (omega (arith, t, z))

-- Nothing unproven stands in front of something proven: wherever the answer is cut, if an entry
-- behind the cut is verified, every entry in front of it is.
pub assess-verified :
    (verify : Bool) (attempt : Text → Attempt) (rs : List Ranked) (n : ℕ)
    → All
        (λ a.
          All
            (λ b. b.verdict ≡ verified → a.verdict ≡ verified)
            (drop n (assess verify attempt rs)))
        (take n (assess verify attempt rs))
assess-verified verify attempt rs n =
    let out = assess verify attempt rs in
    All-mono (take n out) (λ a h. All-mono (drop n out) (λ b k. verified_before a b k) h)
      (AllPairs-take-drop comes_before n out (assess_order verify attempt rs).1)
