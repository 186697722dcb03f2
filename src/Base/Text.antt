-- ===== src/Base/Text.antt =====
-- Text as the source's strings have it: a list of UTF-16 code units.
use mathlib.Core.List.{◌++◌, List, [], ◌∷◌}
use mathlib.Core.Logic.{◌≢◌, ◌↔◌}
use mathlib.Core.Option.{Option, none, some}
use swarmproof.Base.Lists.{All}
use swarmproof.Base.Tests.{if◌then◌else◌, ◌==◌}
use Prim.Native.Char.{code}
use Prim.Native.String.{String}
use Prim.Native.Nat.{ℕ}
use mathlib.Core.Path.{◌≡◌, refl}
use mathlib.Core.Bool.{Bool, true, false, ◌&&◌}
use native.Mathlib.Omega.{arith}

abbrev pub Text : Type 0
Text = List ℕ

-- The code units of an ASCII literal.
abbrev pub text : String → Text
text String.[] = []
text (String.◌∷◌ c s) = code c ∷ text s

-- `a === b` on strings.
unfoldable pub same : Text → Text → Bool
same [] [] = true
same [] (y ∷ ys) = false
same (x ∷ xs) [] = false
same (x ∷ xs) (y ∷ ys) = x == y && same xs ys

pub same→eq : (a b : Text) → same a b ≡ true → a ≡ b
unfolding same
same→eq [] [] h = refl
same→eq [] (y ∷ ys) h = cc
same→eq (x ∷ xs) [] h = cc
same→eq (x ∷ xs) (y ∷ ys) h = ground (arith, same→eq xs ys)

pub same_refl : (a : Text) → same a a ≡ true
unfolding same
same_refl [] = refl
same_refl (x ∷ xs) = ground (arith, same_refl xs)

pub eq→same : (a b : Text) → a ≡ b → same a b ≡ true
eq→same a b e = rw e (same_refl b)

pub same_iff : (a b : Text) → (same a b ≡ true) ↔ (a ≡ b)
same_iff a b = (same→eq a b, eq→same a b)

pub same_sym : (a b : Text) → same a b ≡ false → same b a ≡ false
same_sym a b h = ground (arith, same_iff a b, same_iff b a)

-- `t.slice(0, t.lastIndexOf(c))` and `t.slice(t.lastIndexOf(c) + 1)`.
unfoldable pub split_last : ℕ → Text → Option (Text × Text)
split_last c [] = none
split_last c (x ∷ xs) = elim (split_last c xs) [
  | some (a, b) ↦ some (x ∷ a, b)
  | none ↦ if x == c then some ([], xs) else none
]

split_last_absent : (c : ℕ) (ds : Text) → All (λ d. d ≢ c) ds → split_last c ds ≡ none
unfolding split_last
split_last_absent c [] h = refl
split_last_absent c (d ∷ ds) h = rw (split_last_absent c ds h.1) (ground (arith, h.0))

pub split_last-append :
    (c : ℕ) (xs ds : Text) → All (λ d. d ≢ c) ds → split_last c (xs ++ c ∷ ds) ≡ some (xs, ds)
unfolding split_last
split_last-append c [] ds h = rw (split_last_absent c ds h) (ground arith)
split_last-append c (x ∷ xs) ds h = rw (split_last-append c xs ds h)
