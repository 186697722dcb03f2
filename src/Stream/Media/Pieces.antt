-- ===== src/Stream/Media/Pieces.antt =====
-- streamServer.js, `_selectByteRange`: exactly the pieces that hold bytes of the range.
use swarmproof.Base.{arith, max, suc, ℕ, ◌*◌, ◌+◌, ◌-◌, ◌/◌, ◌<◌, ◌↔◌, ◌≤◌}
use swarmproof.Stream.Media.{File, select_byte_range}
use native.Mathlib.Nat.{div-lt_iff_lt-mul, le-div_iff_mul-le, suc-mul}

-- A piece holds the byte at a place of the torrent.
abbrev pub Holds : ℕ → ℕ → ℕ → Type 0
Holds piece_length piece byte =
    (piece * piece_length ≤ byte) × (byte < piece * piece_length + piece_length)

first_le :
    (piece_length x piece : ℕ)
    → 0 < piece_length
    → (x / piece_length ≤ piece) ↔ (x < piece * piece_length + piece_length)
first_le piece_length x piece pos =
    let (to, from) = div-lt_iff_lt-mul {k = piece_length} {x = x} {y = suc piece} pos in
    let e = suc-mul piece piece_length in
    (λ h. omega (arith, to (omega (arith, h)), e), λ h. omega (arith, from (omega (arith, h, e))))

below_past_last :
    (piece_length y piece : ℕ)
    → 0 < piece_length
    → (piece < (y + (piece_length - 1)) / piece_length) ↔ (piece * piece_length < y)
below_past_last piece_length y piece pos =
    let (to, from) =
      le-div_iff_mul-le {k = piece_length} {x = suc piece} {y = y + (piece_length - 1)} pos in
    let e = suc-mul piece piece_length in
    (λ h. omega (arith, to h, e, pos), λ h. from (omega (arith, h, e, pos)))

-- `_selectByteRange` selects exactly the pieces that hold a byte of the range, wherever in a piece the
-- file begins, for a range with bytes in it.
pub select_byte_range_lem :
    (piece_length : ℕ) (file : File) (start stop piece : ℕ)
    → 0 < piece_length
    → start < stop
    → ((select_byte_range piece_length file start stop).first ≤ piece
        × (piece < (select_byte_range piece_length file start stop).past_last))
      ↔ ((byte : ℕ) × (file.offset + start ≤ byte)
          × (byte < file.offset + stop)
          × Holds piece_length piece byte)
unfolding select_byte_range
select_byte_range_lem piece_length file start stop piece pos some_bytes =
    let (low, low') = first_le piece_length (file.offset + start) piece pos in
    let (high, high') = below_past_last piece_length (file.offset + stop) piece pos in
    (
      λ (a, b). (
        max (file.offset + start) (piece * piece_length),
        omega arith,
        omega (arith, high b, some_bytes),
        (omega arith, omega (arith, low a, pos)),
      ),
      λ (byte, h, k, (m, n)). (low' (omega (arith, h, n)), high' (omega (arith, k, m))),
    )
