-- ===== src/Base/Dots.antt =====
-- Dotted text: `split('.')` and `join('.')`, and the digits of a regular expression's `\d`.
use Prim.Native.Nat.{ℕ}
use mathlib.Core.Bool.{Bool, true, ◌&&◌}
use mathlib.Core.List.{List, [], ◌++◌, ◌∷◌}
use mathlib.Core.Logic.{inl, inr, ◌≢◌}
use mathlib.Core.Path.{ap, ap₂, refl, sym, ◌∙◌, ◌≡◌}
use native.Mathlib.Omega.{arith}
use swarmproof.Base.Decimal.{IsDigit}
use swarmproof.Base.Lists.{All, all}
use swarmproof.Base.Tests.{==_iff, Bool-cases, if◌then◌else◌, leb, ◌==◌}
use swarmproof.Base.Text.{Text}

unfoldable pub is_digit : ℕ → Bool
is_digit c = leb b'0' c && leb c b'9'

-- The text between dots.
unfoldable pub split_dots : Text → List Text
split_dots [] = [] ∷ []
split_dots (c ∷ cs) = elim (split_dots cs) [
  | [] ↦ [] ∷ []
  | p ∷ ps ↦ if c == b'.' then [] ∷ p ∷ ps else (c ∷ p) ∷ ps
]

pub split_dots_some : (t : Text) → (p : Text) × (ps : List Text) × (split_dots t ≡ p ∷ ps)
unfolding split_dots
split_dots_some [] = ([], [], refl)
split_dots_some (c ∷ t) =
    let (p, ps, e) = split_dots_some t in
    elim (Bool-cases (c == b'.')) [
      | inl q ↦ ([], p ∷ ps, rw (e, q))
      | inr q ↦ (c ∷ p, ps, rw (e, q))
    ]

-- The groups with a dot between any two.
unfoldable pub join_dots : List Text → Text
join_dots [] = []
join_dots (p ∷ []) = p
join_dots (p ∷ q ∷ ps) = p ++ b'.' ∷ join_dots (q ∷ ps)

join_dots-cons :
    (c : ℕ) (p : Text) (ps : List Text) → join_dots ((c ∷ p) ∷ ps) ≡ c ∷ join_dots (p ∷ ps)
unfolding join_dots
join_dots-cons c p [] = refl
join_dots-cons c p (q ∷ ps) = refl

join_dots-nil : (p : Text) (ps : List Text) → join_dots ([] ∷ p ∷ ps) ≡ b'.' ∷ join_dots (p ∷ ps)
unfolding join_dots
join_dots-nil p ps = refl

pub join_dots-split_dots : (t : Text) → join_dots (split_dots t) ≡ t
unfolding split_dots
join_dots-split_dots [] = unfold join_dots in refl
join_dots-split_dots (c ∷ t) =
    let (p, ps, e) = split_dots_some t in
    let rest : join_dots (p ∷ ps) ≡ t = ap join_dots (sym e) ∙ join_dots-split_dots t in
    elim (Bool-cases (c == b'.')) [
      | inl q ↦ rw (e, q) (join_dots-nil p ps ∙ ap₂ ◌∷◌ (sym ((==_iff c b'.').0 q)) rest)
      | inr q ↦ rw (e, q) (join_dots-cons c p ps ∙ ap (◌∷◌ c) rest)
    ]

-- Digits hold no dot.
abbrev pub NoDot : Text → Type 0
NoDot t = All (λ c. c ≢ b'.') t

pub split_dots-digits : (t : Text) → NoDot t → split_dots t ≡ t ∷ []
unfolding split_dots
split_dots-digits [] h = refl
split_dots-digits (c ∷ t) h = rw (split_dots-digits t h.1) (ground (arith, h.0))

pub split_dots-append :
    (t rest : Text) → NoDot t → split_dots (t ++ b'.' ∷ rest) ≡ t ∷ split_dots rest
unfolding split_dots
split_dots-append [] rest h = let (p, ps, e) = split_dots_some rest in rw e
split_dots-append (c ∷ t) rest h = rw (split_dots-append t rest h.1) (ground (arith, h.0))

pub all-IsDigit : (t : Text) → all is_digit t ≡ true → All IsDigit t
unfolding is_digit
all-IsDigit [] h = tt
all-IsDigit (c ∷ t) h = (ground arith, all-IsDigit t (ground arith))
