-- ===== src/Stream/Range/Tests.antt =====
-- streamServer.js: requests for ranges at concrete headers.
use swarmproof.Base.{min, ◌+◌, ◌<◌, ◌≤◌, ◌⊎◌, [], none, refl, some, ◌≡◌}
use swarmproof.Base.Decimal.{decimal, number}
use swarmproof.Stream.Media.{File}
use swarmproof.Stream.Range.{
  asked_range, exec_range, given_number, handle_request, is_digit_unit, match_digits, match_here,
  match_rest, range_header, range_status, serve_range, served_bytes, span_digits, strip_prefix,
  unsatisfiable,
}
use swarmproof.Stream.Range.Header.{bytes_header, handle_request-bytes_header, part_of}
use swarmproof.Stream.Range.InFile.{IsInFile, handle_request-IsInFile}
use swarmproof.Base.Text.{text}

abbrev a_film : File
a_film = record { name = text "film.mp4"; size = 1_000; offset = 0 }

whole_file :
    handle_request (some a_film) []
    ≡ served_bytes (record {
      status = 200;
      first_byte = 0;
      past_last = 1_000;
      content_length = 1_000;
      content_range = none;
    })
unfolding handle_request serve_range asked_range exec_range range_status range_header
whole_file = refl

clamped :
    handle_request (some a_film) (text "bytes=900-5000")
    ≡ served_bytes (record {
      status = 206;
      first_byte = 900;
      past_last = 1_000;
      content_length = 100;
      content_range = some (900, 999, 1_000);
    })
unfolding handle_request serve_range asked_range exec_range range_status range_header match_here
    match_digits match_rest span_digits is_digit_unit strip_prefix given_number
    swarmproof.Base.Decimal.number_from
clamped = refl

inverted : handle_request (some a_film) (text "bytes=20-10") ≡ unsatisfiable 1_000
unfolding handle_request serve_range asked_range exec_range range_status range_header match_here
    match_digits match_rest span_digits is_digit_unit strip_prefix given_number
    swarmproof.Base.Decimal.number_from
inverted = refl

-- A range of a last part is not matched: the whole file is answered.
suffix_range :
    handle_request (some a_film) (text "bytes=-500")
    ≡ served_bytes (record {
      status = 206;
      first_byte = 0;
      past_last = 1_000;
      content_length = 1_000;
      content_range = some (0, 999, 1_000);
    })
unfolding handle_request serve_range asked_range exec_range range_status range_header match_here
    match_digits match_rest span_digits is_digit_unit strip_prefix given_number
    swarmproof.Base.Decimal.number_from
suffix_range = refl

handle_request-IsInFile_example :
    IsInFile a_film (text "bytes=900-5000") (handle_request (some a_film) (text "bytes=900-5000"))
handle_request-IsInFile_example = handle_request-IsInFile a_film (text "bytes=900-5000")

handle_request-bytes_header_example :
    (10 ≤ 20
      → 10 < a_film.size
      → handle_request (some a_film) (bytes_header 10 (decimal 20))
        ≡ part_of a_film 10 (min (20 + 1) a_film.size))
    × (10 < a_film.size
        → handle_request (some a_film) (bytes_header 10 []) ≡ part_of a_film 10 a_film.size)
    × ((20 < 10) ⊎ (a_film.size ≤ 10)
        → handle_request (some a_film) (bytes_header 10 (decimal 20)) ≡ unsatisfiable a_film.size)
handle_request-bytes_header_example = handle_request-bytes_header a_film 10 20
