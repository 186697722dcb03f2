-- ===== src/Worker/Input.antt =====
-- worker/src/index.js: the checks on what a client sends.
pub mod Ipv4
pub mod Dotted
mod Tests
use swarmproof.Base.Dots.{is_digit, split_dots}
use swarmproof.Base.{
  Bool, List, Option, [], all, arith, false, if◌then◌else◌, leb, length, ltb, map, none, some, true,
  ℕ, ◌&&◌, ◌+◌, ◌==◌, ◌||◌, ◌∷◌, ◌≡◌, ◌≤◌,
}
use swarmproof.Base.Decimal.{number}
use swarmproof.Base.Text.{Text}

-- A number as the script has it: `whole n f` lies in [n, n + 1), and is n itself if `f` is false.
pub data Number : Type 0 where
  nan : Number
  infinite : Number
  negative : Number
  whole : ℕ → Bool → Number

abbrev pub max_reported_count : ℕ
max_reported_count = 250_000

unfoldable pub clamp_int : Number → Option ℕ
clamp_int nan = none
clamp_int infinite = none
clamp_int negative = none
clamp_int (whole n fraction) =
    if ltb max_reported_count n || (n == max_reported_count && fraction) then none else some n

-- `isValidPort`, with the port as a natural number where it is valid.
unfoldable pub is_valid_port : Number → Option ℕ
is_valid_port (whole p false) = if leb 1 p && leb p 65535 then some p else none
is_valid_port p = none

-- A count that is accepted is the floor of what was sent, and is within the bound.
pub clamp_int_bounds :
    (v : Number) {n : ℕ}
    → clamp_int v ≡ some n
    → (n ≤ max_reported_count) × ((f : Bool) × (v ≡ whole n f))
unfolding clamp_int
clamp_int_bounds nan h = cc
clamp_int_bounds infinite h = cc
clamp_int_bounds negative h = cc
clamp_int_bounds (whole n f) h = (ground arith, (f, ground arith))

pub is_hex : ℕ → Bool
unfolding is_digit
is_hex c = is_digit c || (leb b'a' c && leb c b'f')

-- `INFOHASH_RE`: forty lower-case hexadecimal digits.
unfoldable pub is_info_hash : Text → Bool
unfolding is_hex
is_info_hash t = length t == 40 && all is_hex t

-- `toLowerCase`. Outside ASCII the script maps more letters, none of them to a hexadecimal digit.
unfoldable pub to_lower : ℕ → ℕ
to_lower c = if leb b'A' c && leb c b'Z' then c + 32 else c

abbrev pub lower : Text → Text
lower = map to_lower

pub is_octet_text : Text → Bool
unfolding is_digit
is_octet_text t = leb 1 (length t) && leb (length t) 3 && all is_digit t

-- The four groups of `/^(\d{1,3})\.(\d{1,3})\.(\d{1,3})\.(\d{1,3})$/`, as numbers.
pub four_octets : List Text → Option (ℕ × ℕ × ℕ × ℕ)
unfolding is_octet_text
four_octets (a ∷ b ∷ c ∷ d ∷ []) =
    if is_octet_text a && is_octet_text b && is_octet_text c && is_octet_text d
    then some (number a, number b, number c, number d)
    else none
four_octets groups = none

pub parse_octets : Text → Option (ℕ × ℕ × ℕ × ℕ)
unfolding split_dots four_octets
parse_octets host = four_octets (split_dots host)

-- The tests of `isPublicIPv4` on the octets, in the source's order.
pub public_octets : ℕ → ℕ → ℕ → ℕ → Bool
public_octets a b c d =
    if ltb 255 a || ltb 255 b || ltb 255 c || ltb 255 d
    then false
    else (if a == 0 || a == 127
        then false
        else (if a == 10
            then false
            else (if a == 172 && leb 16 b && leb b 31
                then false
                else (if a == 192 && b == 168
                    then false
                    else (if a == 169 && b == 254
                        then false
                        else (if a == 100 && leb 64 b && leb b 127
                            then false
                            else (if a == 192 && b == 0
                                then false
                                else (if leb 224 a then false else true))))))))

unfoldable pub is_public_ipv4 : Text → Bool
unfolding parse_octets public_octets
is_public_ipv4 host = elim (parse_octets host) [
  | none ↦ false
  | some (a, b, c, d) ↦ public_octets a b c d
]
