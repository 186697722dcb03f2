-- ===== src/Stream/Range.antt =====
-- streamServer.js, `_handleRequest`: the bytes that a request is answered with.
--
-- An absent header is the empty text. The end of a range is given by the place behind its last byte,
-- since the last byte of an empty file would be -1.
pub mod Header
pub mod InFile
mod Tests
use swarmproof.Base.{
  Bool, Option, [], if◌then◌else◌, leb, min, none, some, ℕ, ◌&&◌, ◌+◌, ◌-◌, ◌==◌, ◌∷◌,
}
use swarmproof.Base.Decimal.{number}
use swarmproof.Base.Text.{Text, text}
use swarmproof.Stream.Media.{File}
use swarmproof.Worker.Post.Account.{total}

unfoldable pub is_digit_unit : ℕ → Bool
is_digit_unit c = leb b'0' c && leb c b'9'

-- The longest run of `\d` in front, and what follows it.
unfoldable pub span_digits : Text → Text × Text
unfolding is_digit_unit
span_digits [] = ([], [])
span_digits (c ∷ cs) =
    let (ds, rest) = span_digits cs in if is_digit_unit c then (c ∷ ds, rest) else ([], c ∷ cs)

unfoldable pub strip_prefix : Text → Text → Option Text
strip_prefix [] t = some t
strip_prefix (c ∷ p) [] = none
strip_prefix (c ∷ p) (d ∷ t) = if c == d then strip_prefix p t else none

unfoldable pub given_number : Text → Option ℕ
given_number [] = none
given_number (c ∷ cs) = some (number (c ∷ cs))

-- What follows the digits of the first group.
unfoldable pub match_rest : Text → Text → Option (ℕ × Option ℕ)
unfolding given_number span_digits
match_rest [] rest = none
match_rest (d ∷ ds) [] = none
match_rest (d ∷ ds) (c ∷ rest) =
    if c == b'-' then some (number (d ∷ ds), given_number (span_digits rest).0) else none

unfoldable pub match_digits : Option Text → Option (ℕ × Option ℕ)
unfolding match_rest span_digits
match_digits none = none
match_digits (some t) = let (ds, rest) = span_digits t in match_rest ds rest

-- `/bytes=(\d+)-(\d+)?/` at one place of the header.
unfoldable pub match_here : Text → Option (ℕ × Option ℕ)
unfolding strip_prefix match_digits
match_here t = match_digits (strip_prefix (text "bytes=") t)

-- `exec`: the first place where the pattern matches.
unfoldable pub exec_range : Text → Option (ℕ × Option ℕ)
unfolding match_here
exec_range [] = none
exec_range (c ∷ cs) =
    let later = exec_range cs in elim (match_here (c ∷ cs)) [ some m ↦ some m | none ↦ later ]

-- The first byte and the place behind the last one, as they are asked for.
unfoldable pub asked_range : ℕ → Option (ℕ × Option ℕ) → ℕ × ℕ
asked_range total none = (0, total)
asked_range total (some (start, none)) = (start, total)
asked_range total (some (start, some last)) = (start, last + 1)

pub record Served : Type 0 where
  pub status : ℕ
  pub first_byte : ℕ
  pub past_last : ℕ
  pub content_length : ℕ
  -- the first byte, the last one and the size
  pub content_range : Option (ℕ × ℕ × ℕ)

pub data RangeReply : Type 0 where
  not_ready : RangeReply
  unsatisfiable : ℕ → RangeReply
  served_bytes : Served → RangeReply

unfoldable pub range_status : Text → ℕ
range_status [] = 200
range_status (c ∷ range) = 206

unfoldable pub range_header : Text → ℕ → ℕ → ℕ → Option (ℕ × ℕ × ℕ)
range_header [] start stop total = none
range_header (c ∷ range) start stop total = some (start, stop - 1, total)

unfoldable pub serve_range : Text → ℕ → ℕ × ℕ → RangeReply
unfolding range_status range_header
serve_range range total (start, asked_stop) =
    let stop = min asked_stop total in
    if leb stop start
    then unsatisfiable total
    else served_bytes (record {
      status = range_status range;
      first_byte = start;
      past_last = stop;
      content_length = stop - start;
      content_range = range_header range start stop total;
    })

-- `_handleRequest`, up to the stream of bytes.
unfoldable pub handle_request : Option File → Text → RangeReply
unfolding serve_range asked_range exec_range
handle_request none range = not_ready
handle_request (some file) range =
    serve_range range file.size (asked_range file.size (exec_range range))
