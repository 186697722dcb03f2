-- ===== src/Crawler/Sweep/Spread.antt =====
-- dhtCrawler.js, `_nextTarget`: the sweep visits the ring evenly.
use mathlib.Core.List.{
  head-eq_of_cons-eq, tail-eq_of_cons-eq, reverse-reverse, reverse-cons, reverse,
}
use swarmproof.Base.{
  All-append, take, length-append, sym, All, ap, length, ◌++◌, ◌∙◌, List, [], arith, refl, suc,
  zero, ℕ, ◌%◌, ◌*◌, ◌+◌, ◌/◌, ◌<◌, ◌^◌, ◌∷◌, ◌≡◌, ◌≤◌,
}
use swarmproof.Crawler.Sweep.{next_target, reverse_from, shift_right}
use mathlib.Core.Path.{subst}

-- The lowest binary digits, the lowest first.
pub low_digits : ℕ → ℕ → List ℕ
low_digits zero n = []
low_digits (suc k) n = n % 2 ∷ low_digits k (n / 2)

-- The digits of a 32-bit word, the highest first.
pub word_digits : ℕ → List ℕ
word_digits x = reverse (low_digits 32 x)

-- The number that digits stand for behind others, the highest first.
value_from : ℕ → List ℕ → ℕ
value_from acc [] = acc
value_from acc (b ∷ bs) = value_from (2 * acc + b) bs

unfoldable pub double : ℕ → ℕ
double zero = 1
double (suc k) = 2 * double k

double_pos : (k : ℕ) → 0 < double k
unfolding double
double_pos zero = omega arith
double_pos (suc k) = omega (arith, double_pos k)

double_mono : (i j : ℕ) → i ≤ j → double i ≤ double j
unfolding double
double_mono zero j h = double_pos j
double_mono (suc i) zero h = elim h [ ]
double_mono (suc i) (suc j) h = omega (arith, double_mono i j (omega arith))

double_fits : (i : ℕ) → i ≤ 32 → double i ≤ 2 ^ 32
unfolding double
double_fits i h = double_mono i 32 h

shift_right-half : (n i : ℕ) → shift_right n (suc i) ≡ shift_right n i / 2
unfolding shift_right
shift_right-half n zero = refl
shift_right-half n (suc i) = shift_right-half (n / 2) i

-- No bit leaves the word, so the loop puts the digits together in the order in which it reads them.
reverse_from-value_from :
    (r i n acc : ℕ)
    → r + i ≡ 32
    → acc < double i
    → reverse_from r i n acc ≡ value_from acc (low_digits r (shift_right n i))
unfolding reverse_from value_from low_digits double
reverse_from-value_from zero i n acc h b = refl
reverse_from-value_from (suc r) i n acc h b =
    let bit = shift_right n i % 2 in
    let grows : 2 * acc + bit < double (suc i) = omega (arith, b) in
    let fits : (2 * acc + bit) % 2 ^ 32 ≡ 2 * acc + bit =
      omega (arith, grows, double_fits (suc i) (omega (arith, h))) in
    ap (λ (x : ℕ). reverse_from r (suc i) n x) fits
    ∙ reverse_from-value_from r (suc i) n (2 * acc + bit) (omega (arith, h)) grows
    ∙ ap (λ (x : ℕ). value_from (2 * acc + bit) (low_digits r x)) (shift_right-half n i)

value_from-append :
    (acc b : ℕ) (bs : List ℕ) → value_from acc (bs ++ b ∷ []) ≡ 2 * value_from acc bs + b
unfolding value_from
value_from-append acc b [] = refl
value_from-append acc b (c ∷ bs) = value_from-append (2 * acc + c) b bs

abbrev IsBit : ℕ → Type 0
IsBit b = b < 2

low_digits-bits : (k n : ℕ) → All IsBit (low_digits k n)
unfolding low_digits
low_digits-bits zero n = tt
low_digits-bits (suc k) n = (omega arith, low_digits-bits k (n / 2))

length-low_digits : (k n : ℕ) → length (low_digits k n) ≡ k
unfolding low_digits
length-low_digits zero n = refl
length-low_digits (suc k) n = ap suc (length-low_digits k (n / 2))

length-turned : (ds : List ℕ) → length (reverse ds) ≡ length ds
length-turned [] = refl
length-turned (d ∷ ds) =
    ap length (reverse-cons d ds)
    ∙ length-append (reverse ds) (d ∷ [])
    ∙ omega (arith, length-turned ds)

All-turned : (ds : List ℕ) → All IsBit ds → All IsBit (reverse ds)
All-turned [] h = tt
All-turned (d ∷ ds) (b, h) =
    subst (All IsBit) (sym (reverse-cons d ds))
      (All-append IsBit (reverse ds) _ (All-turned ds h) (b, tt))

-- Putting digits together and reading them again gives them back, turned round.
low_digits-value_from :
    (ds : List ℕ) → All IsBit ds → low_digits (length ds) (value_from 0 (reverse ds)) ≡ ds
unfolding low_digits value_from
low_digits-value_from [] h = refl
low_digits-value_from (d ∷ ds) (b, h) =
    let v = value_from 0 (reverse ds) in
    let e : value_from 0 (reverse (d ∷ ds)) ≡ 2 * v + d =
      ap (value_from 0) (reverse-cons d ds) ∙ value_from-append 0 d (reverse ds) in
    let low : value_from 0 (reverse (d ∷ ds)) % 2 ≡ d = omega (arith, e, b) in
    let high : value_from 0 (reverse (d ∷ ds)) / 2 ≡ v = omega (arith, e, b) in
    ap (λ (x : ℕ). x ∷ low_digits (length ds) (value_from 0 (reverse (d ∷ ds)) / 2)) low
    ∙ ap (λ (t : List ℕ). d ∷ t) (ap (low_digits (length ds)) high ∙ low_digits-value_from ds h)

low_digits_period : (k j m q : ℕ) → k ≤ j → low_digits k (m + double j * q) ≡ low_digits k m
unfolding low_digits double
low_digits_period zero j m q h = refl
low_digits_period (suc k) zero m q h = elim h [ ]
low_digits_period (suc k) (suc j) m q h =
    let x = double j * q in
    let e : m + double (suc j) * q ≡ m + 2 * x = omega arith in
    let low : (m + 2 * x) % 2 ≡ m % 2 = omega arith in
    let high : (m + 2 * x) / 2 ≡ m / 2 + x = omega arith in
    ap (low_digits (suc k)) e
    ∙ ap (λ (y : ℕ). y ∷ low_digits k ((m + 2 * x) / 2)) low
    ∙ ap (λ (t : List ℕ). m % 2 ∷ t)
        (ap (low_digits k) high ∙ low_digits_period k j (m / 2) q (omega (arith, h)))

-- Numbers that lie closer together than a power of two differ in as many of their lowest digits.
low_digits_differ : (k n m : ℕ) → n < m → m < n + double k → ¬ low_digits k n ≡ low_digits k m
unfolding low_digits double
low_digits_differ zero n m a b e = omega (arith, a, b)
low_digits_differ (suc k) n m a b e =
    let low : n % 2 ≡ m % 2 = head-eq_of_cons-eq e in
    let high = tail-eq_of_cons-eq e in
    low_digits_differ k (n / 2) (m / 2) (omega (arith, a, low)) (omega (arith, b, low)) high

double_word : double 32 ≡ 2 ^ 32
unfolding double
double_word = refl

from_word : (s : ℕ) → s ≡ s % 2 ^ 32 + double 32 * (s / 2 ^ 32)
from_word s =
    let e : s ≡ s % 2 ^ 32 + 2 ^ 32 * (s / 2 ^ 32) = omega arith in
    e ∙ ap (λ (d : ℕ). s % 2 ^ 32 + d * (s / 2 ^ 32)) (sym double_word)

-- The binary digits of a target, the highest first, are those of the counter, the lowest first.
word_digits-next_target : (s : ℕ) → word_digits (next_target s) ≡ low_digits 32 s
unfolding next_target word_digits
word_digits-next_target s =
    let w = s % 2 ^ 32 in
    let ds = reverse (low_digits 32 w) in
    let put : next_target s ≡ value_from 0 (reverse ds) =
      reverse_from-value_from 32 0 w 0 refl (double_pos 0)
      ∙ ap (value_from 0) (sym (reverse-reverse (low_digits 32 w))) in
    let n : 32 ≡ length ds = sym (length-turned (low_digits 32 w) ∙ length-low_digits 32 w) in
    let read : low_digits 32 (next_target s) ≡ ds =
      ap (low_digits 32) put
      ∙ ap (λ (k : ℕ). low_digits k (value_from 0 (reverse ds))) n
      ∙ low_digits-value_from ds (All-turned (low_digits 32 w) (low_digits-bits 32 w)) in
    ap reverse read
    ∙ reverse-reverse (low_digits 32 w)
    ∙ sym (ap (low_digits 32) (from_word s) ∙ low_digits_period 32 32 w (s / 2 ^ 32) (omega arith))

take-low_digits : (k n x : ℕ) → k ≤ n → take k (low_digits n x) ≡ low_digits k x
unfolding low_digits
take-low_digits zero n x h = refl
take-low_digits (suc k) zero x h = elim h [ ]
take-low_digits (suc k) (suc n) x h =
    ap (λ (t : List ℕ). x % 2 ∷ t) (take-low_digits k n (x / 2) (omega (arith, h)))

-- The sweep is even: of `2 ^ k` targets that follow each other, with at most 32 for `k`, no two have
-- the same leading `k` bits.
pub next_target-spread :
    (k s t : ℕ)
    → k ≤ 32
    → s < t
    → t < s + double k
    → ¬ take k (word_digits (next_target s)) ≡ take k (word_digits (next_target t))
next_target-spread k s t h a b e =
    let leading : (x : ℕ) → take k (word_digits (next_target x)) ≡ low_digits k x =
      λ x. ap (take k) (word_digits-next_target x) ∙ take-low_digits k 32 x h in
    low_digits_differ k s t a b (sym (leading s) ∙ e ∙ leading t)
