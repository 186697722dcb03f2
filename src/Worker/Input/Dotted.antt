-- ===== src/Worker/Input/Dotted.antt =====
-- worker/src/index.js, `isPublicIPv4`: the texts that are accepted.
use swarmproof.Base.Dots.{
  NoDot, all-IsDigit, join_dots, join_dots-split_dots, split_dots-append, split_dots-digits,
}
use mathlib.Core.Path.{subst}
use native.Mathlib.Nat.{add-zero}
use swarmproof.Base.{
  ◌+◌, All, All-mono, Bool, Bool-cases, List, [], arith, false, inl, inr, length, none, not, refl,
  some, suc, sym, true, zero, ℕ, ◌&&◌, ◌++◌, ◌<◌, ◌∷◌, ◌≡◌, ◌≤◌,
}
use swarmproof.Base.Decimal.{IsDigit, decimal, decimal-IsDigit, number, number-decimal}
use swarmproof.Base.Text.{Text}
use swarmproof.Worker.Input.{
  four_octets, is_octet_text, is_public_ipv4, parse_octets, public_octets, split_dots,
}
use swarmproof.Worker.Input.Ipv4.{address, is_reserved, public_octets_lem}

pub dotted : Text → Text → Text → Text → Text
dotted a b c d = a ++ b'.' ∷ (b ++ b'.' ∷ (c ++ b'.' ∷ d))

decimal-NoDot : (n : ℕ) → NoDot (decimal n)
decimal-NoDot n = All-mono (decimal n) (λ d k. omega arith) (decimal-IsDigit n)

split_dots-dotted :
    (a b c d : ℕ)
    → split_dots (dotted (decimal a) (decimal b) (decimal c) (decimal d))
      ≡ decimal a ∷ decimal b ∷ decimal c ∷ decimal d ∷ []
unfolding dotted
split_dots-dotted a b c d = rw (
  split_dots-append (decimal a) _ (decimal-NoDot a),
  split_dots-append (decimal b) _ (decimal-NoDot b),
  split_dots-append (decimal c) _ (decimal-NoDot c),
  split_dots-digits (decimal d) (decimal-NoDot d),
)

-- Every octet has a decimal form of one to three digits: by running through the octets upwards.
octets_from : ℕ → ℕ → Bool
octets_from zero n = true
octets_from (suc left) n =
    let above = octets_from left (n + 1) in is_octet_text (decimal n) && above

octets_from_sound :
    (left n k : ℕ) → octets_from left n ≡ true → k < left → is_octet_text (decimal (n + k)) ≡ true
unfolding octets_from
octets_from_sound zero n k h lt = elim lt [ ]
octets_from_sound (suc left) n zero h lt = rw add-zero (ground arith)
octets_from_sound (suc left) n (suc k) h lt =
    subst (λ (m : ℕ). is_octet_text (decimal m) ≡ true) (omega arith)
      (octets_from_sound left (n + 1) k (ground arith) (omega arith))

every_octet : octets_from 256 0 ≡ true
unfolding octets_from is_octet_text decimal
every_octet = refl

octet-decimal : (n : ℕ) → n ≤ 255 → is_octet_text (decimal n) ≡ true
octet-decimal n h =
    subst (λ (m : ℕ). is_octet_text (decimal m) ≡ true) (omega arith)
      (octets_from_sound 256 0 n every_octet (omega arith))

parse_octets-dotted :
    (a b c d : ℕ)
    → a ≤ 255
    → b ≤ 255
    → c ≤ 255
    → d ≤ 255
    → parse_octets (dotted (decimal a) (decimal b) (decimal c) (decimal d)) ≡ some (a, b, c, d)
unfolding parse_octets four_octets
parse_octets-dotted a b c d ha hb hc hd = rw (
  split_dots-dotted a b c d,
  octet-decimal a ha,
  octet-decimal b hb,
  octet-decimal c hc,
  octet-decimal d hd,
  number-decimal a,
  number-decimal b,
  number-decimal c,
  number-decimal d,
)

-- The dotted form of four octets is accepted exactly when the address is in none of the reserved
-- blocks.
pub is_public_ipv4-dotted :
    (a b c d : ℕ)
    → a ≤ 255
    → b ≤ 255
    → c ≤ 255
    → d ≤ 255
    → is_public_ipv4 (dotted (decimal a) (decimal b) (decimal c) (decimal d))
      ≡ not (is_reserved (address a b c d))
unfolding is_public_ipv4
is_public_ipv4-dotted a b c d ha hb hc hd =
    rw (parse_octets-dotted a b c d ha hb hc hd, is_public_ipv4)
      (public_octets_lem a b c d hb hc hd ha)

-- A group of the pattern: one to three digits, which stand for the octet.
pub record IsOctet (t : Text) (n : ℕ) : Type 0 where
  pub length_pos : 0 < length t
  pub length-le : length t ≤ 3
  pub digits : All IsDigit t
  pub octet : number t ≡ n
  pub octet-le : n ≤ 255

-- A host that is accepted is four octets with dots between them, and its address is in none of the
-- reserved blocks.
pub record IsPublic (host : Text) : Type 0 where
  pub a : ℕ
  pub b : ℕ
  pub c : ℕ
  pub d : ℕ
  pub ta : Text
  pub tb : Text
  pub tc : Text
  pub td : Text
  pub shape : host ≡ dotted ta tb tc td
  pub octet_a : IsOctet ta a
  pub octet_b : IsOctet tb b
  pub octet_c : IsOctet tc c
  pub octet_d : IsOctet td d
  pub unreserved : is_reserved (address a b c d) ≡ false

IsOctet-text : (t : Text) → is_octet_text t ≡ true → number t ≤ 255 → IsOctet t (number t)
unfolding is_octet_text
IsOctet-text t h k = record {
  length_pos = ground arith;
  length-le = ground arith;
  digits = all-IsDigit t (ground arith);
  octet = refl;
  octet-le = k;
}

public_octets-le :
    (a b c d : ℕ) → public_octets a b c d ≡ true → (a ≤ 255) × (b ≤ 255) × (c ≤ 255) × (d ≤ 255)
unfolding public_octets
public_octets-le a b c d h = ground arith

abbrev all4 : Text → Text → Text → Text → Bool
all4 a b c d = is_octet_text a && is_octet_text b && is_octet_text c && is_octet_text d

IsPublic-groups :
    (host a b c d : Text)
    → host ≡ dotted a b c d
    → all4 a b c d ≡ true
    → public_octets (number a) (number b) (number c) (number d) ≡ true
    → IsPublic host
IsPublic-groups host a b c d e q h =
    let le = public_octets-le (number a) (number b) (number c) (number d) h in
    record {
      a = number a;
      b = number b;
      c = number c;
      d = number d;
      ta = a;
      tb = b;
      tc = c;
      td = d;
      shape = e;
      octet_a = IsOctet-text a (ground arith) le.0;
      octet_b = IsOctet-text b (ground arith) le.1;
      octet_c = IsOctet-text c (ground arith) le.2;
      octet_d = IsOctet-text d (ground arith) le.3;
      unreserved = ground (
        arith,
        public_octets_lem (number a) (number b) (number c) (number d) le.1 le.2 le.3 le.0,
      );
    }

IsPublic-four :
    (host : Text) (groups : List Text)
    → host ≡ join_dots groups
    → elim (four_octets groups) [ none ↦ false | some (a, b, c, d) ↦ public_octets a b c d ] ≡ true
    → IsPublic host
unfolding four_octets join_dots dotted
IsPublic-four host (a ∷ b ∷ c ∷ d ∷ []) e h = elim (Bool-cases (all4 a b c d)) [
  | inl q ↦ IsPublic-groups host a b c d e q (rw (q, four_octets) at h)
  | inr q ↦ cc (rw (q, four_octets) at h)
]
IsPublic-four host groups e h = cc

-- Only a public address is accepted, in dotted form.
pub is_public_ipv4-IsPublic : (host : Text) → is_public_ipv4 host ≡ true → IsPublic host
unfolding is_public_ipv4 parse_octets
is_public_ipv4-IsPublic host h =
    IsPublic-four host (split_dots host) (sym (join_dots-split_dots host)) h
