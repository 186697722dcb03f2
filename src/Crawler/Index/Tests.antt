-- ===== src/Crawler/Index/Tests.antt =====
-- dhtCrawler.js, `search`: a run.
use swarmproof.Base.Text.{text, Text}
use swarmproof.Base.{[], refl, some, true, ◌∷◌, ◌≡◌}
use swarmproof.Crawler.Index.{
  Index, Torrent, contains, found_in, is_prefix, is_term_unit, matches_all, new_torrent, results,
  search_index, terms_from,
}

abbrev open_row : Torrent
open_row = record (new_torrent 5) { name = some (text "ubuntu-22"); resolved = true }

abbrev rows : Index
rows =
    ((text "a"), open_row)
    ∷ ((text "b"), record (new_torrent 6) { blocked = true; resolved = true })
    ∷ []

abbrev in_order : Index → Index
in_order r = r

abbrev as_is : Text → Text
as_is t = t

one_result :
    search_index as_is as_is in_order (text "22 %ubuntu") 10 rows ≡ ((text "a"), open_row) ∷ []
unfolding search_index results found_in matches_all contains is_prefix terms_from is_term_unit
    new_torrent
one_result = refl
