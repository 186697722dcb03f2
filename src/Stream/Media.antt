-- ===== src/Stream/Media.antt =====
-- streamServer.js: the file that is served (`_pickMediaFile`), and the pieces that are asked for first
-- (`_selectByteRange`, `_prioritizeStart`, `prioritizePlayhead`).
--
-- A range of bytes is given by its first byte and the place behind its last, since the last byte of an
-- empty file would be -1. The same holds of a range of pieces.
pub mod Picked
pub mod Pieces
mod Tests
use swarmproof.Base.{
  Bool, List, Option, [], any, filter, if◌then◌else◌, ltb, min, none, some, ℕ, ◌+◌, ◌-◌, ◌/◌, ◌||◌,
  ◌∷◌,
}
use swarmproof.Base.Text.{Text, same, text}
use swarmproof.Crawler.Run.{stop}
use swarmproof.Metainfo.Fetch.{start}
use swarmproof.Worker.Input.{lower}

pub record File : Type 0 where
  pub name : Text
  pub size : ℕ
  -- where the file begins in the torrent
  pub offset : ℕ

unfoldable pub ends_with : Text → Text → Bool
ends_with t [] = same t []
ends_with t (c ∷ name) = same t (c ∷ name) || ends_with t name

-- `/\.(mp4|mkv|avi|webm|mov|m4v)$/i`
unfoldable pub is_video : Text → Bool
unfolding ends_with
is_video name =
    any (λ e. ends_with e (lower name))
      (text ".mp4" ∷ text ".mkv" ∷ text ".avi" ∷ text ".webm" ∷ text ".mov" ∷ text ".m4v" ∷ [])

-- `(a, b) => (a.length > b.length ? a : b)`
unfoldable pub larger : File → File → File
larger a b = if ltb b.size a.size then a else b

unfoldable pub largest_from : File → List File → File
unfolding larger
largest_from a [] = a
largest_from a (b ∷ fs) = largest_from (larger a b) fs

unfoldable pub largest : List File → Option File
unfolding largest_from
largest [] = none
largest (f ∷ fs) = some (largest_from f (f ∷ fs))

unfoldable pub media_pool : List File → List File → List File
media_pool [] files = files
media_pool (v ∷ videos) files = v ∷ videos

-- `_pickMediaFile`
unfoldable pub pick_media_file : List File → Option File
unfolding largest media_pool is_video
pick_media_file files = largest (media_pool (filter (λ f. is_video f.name) files) files)

-- The pieces from `first` up to `past_last`.
pub record Selection : Type 0 where
  pub first : ℕ
  pub past_last : ℕ

-- `_selectByteRange`, for the bytes from `start` up to `stop` of the file.
unfoldable pub select_byte_range : ℕ → File → ℕ → ℕ → Selection
select_byte_range piece_length file start stop = record {
  first = (file.offset + start) / piece_length;
  past_last = (file.offset + stop + (piece_length - 1)) / piece_length;
}

abbrev pub head_tail_bytes : ℕ
head_tail_bytes = 2_097_152

-- The critical selections of `_prioritizeStart`: the head and the tail.
unfoldable pub prioritize_start : ℕ → File → Selection × Selection
unfolding select_byte_range
prioritize_start piece_length file = (
  select_byte_range piece_length file 0 (min (head_tail_bytes + 1) file.size),
  select_byte_range piece_length file (file.size - head_tail_bytes) file.size,
)

abbrev pub window_bytes : ℕ
window_bytes = 8_388_608

-- `prioritizePlayhead`, when a file is served.
unfoldable pub prioritize_playhead : ℕ → File → ℕ → Selection
unfolding select_byte_range
prioritize_playhead piece_length file byte_offset =
    select_byte_range piece_length file byte_offset (min file.size (byte_offset + window_bytes + 1))
