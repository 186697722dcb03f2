-- ===== src/Catalog/Tests.antt =====
-- catalog.js: what is typed, at concrete inputs.
use swarmproof.Base.{
  all, All, List, Option, if◌then◌else◌, suc, take, true, zero, ℕ, [], false, none, refl, some, ◌∷◌,
  ◌≡◌,
}
use swarmproof.Base.Text.{Text, same, text}
use swarmproof.Catalog.{
  CandidateEntry, entry_of, is_hex_unit, known_trackers, make_candidate, not_magnet, parse_error,
  parse_input, ends_word, first_run, hash_behind, is_alnum_unit, is_base32_unit, is_letter_unit,
  is_word_unit, run_of, strip_small, trim, trim_end, trim_start, find_hash, once_each,
}
use swarmproof.Catalog.Magnet.{magnet_of, parse_input-magnet_of}
use swarmproof.Worker.Input.{lower, to_lower}
use swarmproof.Base.Dots.{is_digit}
use swarmproof.Metainfo.{is_empty}

trimmed : trim (text "  a b  ") ≡ text "a b"
unfolding trim trim_start trim_end is_empty swarmproof.ContentFilter.is_blank_unit
trimmed = refl

-- A word goes on before the parameter: it is none.
no_parameter : find_hash false (text "axt=urn:btih:") ≡ none
unfolding find_hash is_word_unit is_alnum_unit is_letter_unit is_digit to_lower strip_small
    hash_behind first_run run_of
no_parameter = refl

base32_hash :
    find_hash false (text "?XT=urn:btih:ABCDEFGHIJKLMNOPQRSTUVWXYZ234567&dn=x")
    ≡ some (text "ABCDEFGHIJKLMNOPQRSTUVWXYZ234567")
unfolding find_hash is_word_unit is_alnum_unit is_letter_unit is_digit to_lower strip_small
    hash_behind first_run run_of ends_word is_base32_unit
base32_hash = refl

trackers_once : once_each [] (text "a" ∷ text "b" ∷ text "a" ∷ []) ≡ text "a" ∷ text "b" ∷ []
unfolding once_each same
trackers_once = refl

abbrev letters : ℕ → Text
letters zero = []
letters (suc n) = b'z' ∷ letters n

all_letters : (n : ℕ) → All (λ c. is_alnum_unit c ≡ true) (letters n)
unfolding is_alnum_unit is_letter_unit to_lower
all_letters zero = tt
all_letters (suc n) = (refl, all_letters n)

abbrev as_typed : Text → Text
as_typed t = t

abbrev bare_url : Text → Option (Option Text × List Text)
bare_url t = some (none, [])

parse_input-magnet_of_example :
    (parse_input as_typed as_typed bare_url (letters 40) ≡ (
      if all is_hex_unit (letters 40)
      then entry_of (make_candidate as_typed (take 8 (letters 40)) (letters 40) known_trackers)
      else parse_error not_magnet))
    × ((e : CandidateEntry) × (parse_input as_typed as_typed bare_url (magnet_of (letters 40))
          ≡ entry_of e)
        × (e.info_hash ≡ lower (letters 40)))
parse_input-magnet_of_example =
    parse_input-magnet_of as_typed as_typed bare_url (letters 40) none [] refl (all_letters 40) refl
