-- ===== src/Base/Decimal.antt =====
-- A number written in decimal, as a template literal writes it, and read back.
use Prim.Native.Nat.{ℕ, zero, suc, ◌+◌, ◌-◌, ◌*◌, ◌/◌, ◌%◌, ◌≤◌, ◌<◌}
use mathlib.Core.Path.{◌≡◌, refl}
use mathlib.Core.Logic.{inl, inr}
use mathlib.Core.List.{[], ◌∷◌, ◌++◌}
use native.Mathlib.Omega.{arith}
use swarmproof.Base.Tests.{ltb, if◌then◌else◌, Bool-cases}
use swarmproof.Base.Lists.{All, All-append, length, length-append}
use swarmproof.Base.Text.{Text}

-- The digits, most significant first; the fuel exceeds the number.
digits : ℕ → ℕ → Text
digits zero n = []
digits (suc f) n =
    let rest = digits f (n / 10) in if ltb n 10 then (48 + n) ∷ [] else rest ++ (48 + n % 10) ∷ []

unfoldable pub decimal : ℕ → Text
unfolding digits
decimal n = digits (suc n) n

-- `Number(text)` on a text of digits.
unfoldable pub number_from : ℕ → Text → ℕ
number_from acc [] = acc
number_from acc (c ∷ cs) = number_from (acc * 10 + (c - 48)) cs

abbrev pub number : Text → ℕ
number = number_from 0

abbrev pub IsDigit : ℕ → Type 0
IsDigit c = (48 ≤ c) × (c ≤ 57)

number_from-append :
    (acc : ℕ) (xs ys : Text) → number_from acc (xs ++ ys) ≡ number_from (number_from acc xs) ys
unfolding number_from
number_from-append acc [] ys = refl
number_from-append acc (x ∷ xs) ys = number_from-append (acc * 10 + (x - 48)) xs ys

number-digits : (f n : ℕ) → n < f → number (digits f n) ≡ n
unfolding digits number_from
number-digits zero n h = elim h [ ]
number-digits (suc f) n h = elim (Bool-cases (ltb n 10)) [
  | inl e ↦ rw e (ground arith)
  | inr e ↦
      rw (e, number_from-append 0 (digits f (n / 10)) ((48 + n % 10) ∷ []))
        (omega (arith, number-digits f (n / 10) (ground arith)))
]

-- A number is read back from its decimal form.
pub number-decimal : (n : ℕ) → number (decimal n) ≡ n
unfolding decimal
number-decimal n = number-digits (suc n) n (omega arith)

digits-IsDigit : (f n : ℕ) → All IsDigit (digits f n)
unfolding digits
digits-IsDigit zero n = tt
digits-IsDigit (suc f) n = elim (Bool-cases (ltb n 10)) [
  | inl e ↦ rw e ((omega arith, ground arith), tt)
  | inr e ↦ rw e (
      All-append IsDigit (digits f (n / 10)) _ (digits-IsDigit f (n / 10))
        ((omega arith, omega arith), tt))
]

pub decimal-IsDigit : (n : ℕ) → All IsDigit (decimal n)
unfolding decimal
decimal-IsDigit n = digits-IsDigit (suc n) n

digits_nonempty : (f n : ℕ) → 0 < length (digits (suc f) n)
unfolding digits
digits_nonempty f n = elim (Bool-cases (ltb n 10)) [
  | inl e ↦ rw e (omega arith)
  | inr e ↦ rw (e) (omega (arith, length-append (digits f (n / 10)) ((48 + n % 10) ∷ [])))
]

-- The decimal form of a number has a digit.
pub decimal_nonempty : (n : ℕ) → 0 < length (decimal n)
unfolding decimal
decimal_nonempty n = digits_nonempty n n
