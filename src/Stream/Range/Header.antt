-- ===== src/Stream/Range/Header.antt =====
-- streamServer.js, `_handleRequest`: the ranges that players ask for.
use swarmproof.Base.{
  inl, inr, ap, leb, min, ◌+◌, ◌-◌, ◌∙◌, ◌≤◌, ◌⊎◌, Option, length, none, some, true, ◌<◌, All, [],
  arith, false, refl, ℕ, ◌++◌, ◌∷◌, ◌≡◌,
}
use mathlib.Core.Path.{ap₂}
use swarmproof.Base.Decimal.{
  decimal-IsDigit, decimal_nonempty, number-decimal, decimal, number, IsDigit,
}
use swarmproof.Stream.Media.{File}
use swarmproof.Stream.Range.{
  RangeReply, asked_range, handle_request, range_header, range_status, serve_range, served_bytes,
  unsatisfiable, exec_range, given_number, match_digits, match_here, match_rest, strip_prefix,
  is_digit_unit, span_digits,
}
use swarmproof.Base.Text.{text, Text}

is_digit_unit-IsDigit : (d : ℕ) → IsDigit d → is_digit_unit d ≡ true
unfolding is_digit_unit
is_digit_unit-IsDigit d (a, b) = ground arith

span_digits-append :
    (ds : Text) (c : ℕ) (rest : Text)
    → All IsDigit ds
    → is_digit_unit c ≡ false
    → span_digits (ds ++ c ∷ rest) ≡ (ds, c ∷ rest)
unfolding span_digits
span_digits-append [] c rest h e = rw (e) refl
span_digits-append (d ∷ ds) c rest (a, h) e =
    rw (is_digit_unit-IsDigit d a, span_digits-append ds c rest h e) refl

span_digits_all : (ds : Text) → All IsDigit ds → span_digits ds ≡ (ds, [])
unfolding span_digits
span_digits_all [] h = refl
span_digits_all (d ∷ ds) (a, h) = rw (is_digit_unit-IsDigit d a, span_digits_all ds h) refl

-- A run of digits is not empty where it stands for a number.
abbrev IsGiven : Text → Type 0
IsGiven t = 0 < length t

match_rest_lem :
    (a b : Text)
    → IsGiven a
    → IsGiven b
    → All IsDigit b
    → match_rest a (b'-' ∷ b) ≡ some (number a, some (number b))
unfolding match_rest given_number
match_rest_lem [] b h k d = elim h [ ]
match_rest_lem (x ∷ a) [] h k d = elim k [ ]
match_rest_lem (x ∷ a) (y ∷ b) h k d = rw (span_digits_all (y ∷ b) d) refl

match_rest_open : (a : Text) → IsGiven a → match_rest a (b'-' ∷ []) ≡ some (number a, none)
unfolding match_rest given_number span_digits
match_rest_open [] h = elim h [ ]
match_rest_open (x ∷ a) h = refl

-- The header that asks for the bytes from one to another.
abbrev pub bytes_header : ℕ → Text → Text
bytes_header a rest = text "bytes=" ++ (decimal a ++ b'-' ∷ rest)

match_here-bytes_header :
    (a : ℕ) (rest : Text) → match_here (bytes_header a rest) ≡ match_rest (decimal a) (b'-' ∷ rest)
unfolding match_here strip_prefix match_digits
match_here-bytes_header a rest =
    ap (λ (p : Text × Text). match_rest p.0 p.1)
      (span_digits-append (decimal a) b'-' rest (decimal-IsDigit a) refl)

match_here-nil : match_here [] ≡ none
unfolding match_here strip_prefix match_digits
match_here-nil = refl

exec_range_first : (t : Text) (m : ℕ × Option ℕ) → match_here t ≡ some m → exec_range t ≡ some m
unfolding exec_range
exec_range_first [] m h = let e = match_here-nil in cc
exec_range_first (c ∷ cs) m h = rw (h, exec_range) refl

exec_range-match_rest :
    (a : ℕ) (rest : Text) (m : ℕ × Option ℕ)
    → match_rest (decimal a) (b'-' ∷ rest) ≡ some m
    → exec_range (bytes_header a rest) ≡ some m
exec_range-match_rest a rest m h =
    exec_range_first (bytes_header a rest) m (match_here-bytes_header a rest ∙ h)

exec_range-bytes_header : (a b : ℕ) → exec_range (bytes_header a (decimal b)) ≡ some (a, some b)
exec_range-bytes_header a b =
    exec_range-match_rest a (decimal b) (number (decimal a), some (number (decimal b)))
      (match_rest_lem (decimal a) (decimal b) (decimal_nonempty a) (decimal_nonempty b)
        (decimal-IsDigit b))
    ∙ ap₂ (λ (x y : ℕ). some (x, some y)) (number-decimal a) (number-decimal b)

exec_range_open : (a : ℕ) → exec_range (bytes_header a []) ≡ some (a, none)
exec_range_open a =
    exec_range-match_rest a [] (number (decimal a), none)
      (match_rest_open (decimal a) (decimal_nonempty a))
    ∙ ap (λ (x : ℕ). some (x, none)) (number-decimal a)

-- The reply with a part of a file.
abbrev pub part_of : File → ℕ → ℕ → RangeReply
part_of file first stop = served_bytes (record {
  status = 206;
  first_byte = first;
  past_last = stop;
  content_length = stop - first;
  content_range = some (first, stop - 1, file.size);
})

serve_range_fits :
    (range : Text) (file : File) (c first stop : ℕ)
    → first < min stop file.size
    → serve_range (c ∷ range) file.size (first, stop) ≡ part_of file first (min stop file.size)
unfolding serve_range range_status range_header
serve_range_fits range file c first stop h =
    let e : leb (min stop file.size) first ≡ false = ground (arith, h) in rw (e) refl

serve_range_refuses :
    (range : Text) (file : File) (first stop : ℕ)
    → min stop file.size ≤ first
    → serve_range range file.size (first, stop) ≡ unsatisfiable file.size
unfolding serve_range
serve_range_refuses range file first stop h =
    let e : leb (min stop file.size) first ≡ true = ground (arith, h) in rw (e) refl

-- The header `bytes=a-b`, in decimal, is answered with the bytes from `a` to `b`, or to the end of the
-- file if that comes first; and `bytes=a-` with those from `a` to the end. It is refused if `a` lies
-- behind `b` or behind the file.
pub handle_request-bytes_header :
    (file : File) (a b : ℕ)
    → (a ≤ b
        → a < file.size
        → handle_request (some file) (bytes_header a (decimal b))
          ≡ part_of file a (min (b + 1) file.size))
      × (a < file.size → handle_request (some file) (bytes_header a []) ≡ part_of file a file.size)
      × ((b < a) ⊎ (file.size ≤ a)
          → handle_request (some file) (bytes_header a (decimal b)) ≡ unsatisfiable file.size)
unfolding handle_request asked_range
handle_request-bytes_header file a b = (
  λ h k.
      ap
        (λ (m : Option (ℕ × Option ℕ)).
          serve_range (bytes_header a (decimal b)) file.size (asked_range file.size m))
        (exec_range-bytes_header a b)
      ∙ serve_range_fits (text "ytes=" ++ (decimal a ++ b'-' ∷ decimal b)) file b'b' a (b + 1)
          (omega (arith, h, k)),
  λ k.
      let all : min file.size file.size ≡ file.size = omega arith in
      ap
        (λ (m : Option (ℕ × Option ℕ)).
          serve_range (bytes_header a []) file.size (asked_range file.size m))
        (exec_range_open a)
      ∙ serve_range_fits (text "ytes=" ++ (decimal a ++ b'-' ∷ [])) file b'b' a file.size
          (omega (arith, k))
      ∙ ap (part_of file a) all,
  λ h.
      ap
        (λ (m : Option (ℕ × Option ℕ)).
          serve_range (bytes_header a (decimal b)) file.size (asked_range file.size m))
        (exec_range-bytes_header a b)
      ∙ serve_range_refuses (bytes_header a (decimal b)) file a (b + 1)
          (elim h [ inl k ↦ omega (arith, k) | inr k ↦ omega (arith, k) ]),
)
