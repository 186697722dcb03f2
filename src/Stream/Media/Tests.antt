-- ===== src/Stream/Media/Tests.antt =====
-- streamServer.js: the file that is served and its pieces, at concrete inputs.
use swarmproof.Base.{◌+◌, ◌<◌, ◌↔◌, ◌≤◌, List, [], arith, none, refl, some, ℕ, ◌∷◌, ◌≡◌}
use swarmproof.Base.Text.{same, text}
use swarmproof.Stream.Media.{
  File, ends_with, is_video, larger, largest, largest_from, media_pool, pick_media_file,
  prioritize_start, select_byte_range,
}
use swarmproof.Stream.Media.Pieces.{Holds, select_byte_range_lem}
use swarmproof.Worker.Input.{lower}

abbrev cover : File
cover = record { name = text "cover.jpg"; size = 90_000_000; offset = 0 }

abbrev part_one : File
part_one = record { name = text "Film.MKV"; size = 7_000; offset = 7_884 }

abbrev part_two : File
part_two = record { name = text "extras.mp4"; size = 300_000; offset = 7_884 }

abbrev one_torrent : List File
one_torrent = cover ∷ part_one ∷ part_two ∷ []

largest_video : pick_media_file one_torrent ≡ some part_two
unfolding pick_media_file largest largest_from larger media_pool is_video ends_with same
    swarmproof.Worker.Input.to_lower
largest_video = refl

no_video : pick_media_file (cover ∷ []) ≡ some cover
unfolding pick_media_file largest largest_from larger media_pool is_video ends_with same
    swarmproof.Worker.Input.to_lower
no_video = refl

no_files : pick_media_file [] ≡ none
unfolding pick_media_file largest largest_from larger media_pool is_video ends_with same
    swarmproof.Worker.Input.to_lower
no_files = refl

-- The offset of the file in its first piece counts.
over_a_boundary :
    select_byte_range 131_072 part_two 123_188 123_189 ≡ record { first = 1; past_last = 2 }
unfolding select_byte_range
over_a_boundary = refl

head_and_tail :
    prioritize_start 131_072 part_two
    ≡ (record { first = 0; past_last = 3 }, record { first = 0; past_last = 3 })
unfolding prioritize_start select_byte_range
head_and_tail = refl

select_byte_range_lem_example :
    ((select_byte_range 131_072 part_two 123_188 200_000).first ≤ 1
      × (1 < (select_byte_range 131_072 part_two 123_188 200_000).past_last))
    ↔ ((byte : ℕ) × (part_two.offset + 123_188 ≤ byte)
        × (byte < part_two.offset + 200_000)
        × Holds 131_072 1 byte)
select_byte_range_lem_example =
    select_byte_range_lem 131_072 part_two 123_188 200_000 1 (omega arith) (omega arith)
