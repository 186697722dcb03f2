-- ===== src/ContentFilter/Tests.antt =====
-- Runs of contentFilter.js, and the theorem at a concrete input.
use swarmproof.Base.{All, Bool, [], any, false, none, refl, some, true, ◌++◌, ◌==◌, ◌∷◌, ◌≡◌, ◌≤◌}
use swarmproof.Base.Text.{Text, same, text}
use swarmproof.ContentFilter.{
  ContentFilter, alternation, bar, check, compile_from, compile_keyword, compile_keywords,
  count_junk, escape, invalid_string, is_blank, is_blank_unit, is_high, is_invalid, is_low,
  is_special, is_surrogate, junk_reason, min_total_size, non_word, prepend, specials, strip_pairs,
  subject, token, unique_from,
}
use swarmproof.ContentFilter.WellFormed.{check-passes, well_formed}
use swarmproof.Metainfo.{Meta}

filter_program : Unit {0}
unfolding compile_keywords compile_keyword compile_from alternation unique_from token escape prepend
    bar is_special specials non_word check junk_reason subject count_junk is_blank is_blank_unit
    is_invalid strip_pairs is_high is_low is_surrogate well_formed same
filter_program = tt

compile_run : compile_keyword (text "a*b#\\.c") ≡ some (text "a\\w*b\\d\\.c")
unfolding filter_program
compile_run = refl

trailing_run : compile_keyword (text "ab\\") ≡ none
unfolding filter_program
trailing_run = refl

abbrev never : Text → Text → Bool
never pattern subject = false

abbrev only_junk : ContentFilter
only_junk = record {
  junk = true;
  pattern = [];
  stats = record { checked = 0; banned_count = 0; junk_count = 0 };
}

-- The name is six letters, and ends in a pair of surrogates.
abbrev film : Meta
film = record {
  name = text "Sintel" ++ 0xd83c ∷ 0xdfac ∷ [];
  size = 129_000_000;
  files = 1;
  paths = text "a.mkv" ∷ [];
}

lone_run :
    (check never only_junk (record film { paths = (0xd83c ∷ []) ∷ [] })).0 ≡ some invalid_string
unfolding filter_program
lone_run = refl

check-passes_example :
    (is_blank film.name ≡ false)
    × (min_total_size ≤ film.size)
    × All (λ t. (well_formed t ≡ true) × (any (λ c. c == 0) t ≡ false)) (film.name ∷ film.paths)
unfolding filter_program
check-passes_example = check-passes never only_junk film refl refl
