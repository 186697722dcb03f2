-- ===== src/Catalog.antt =====
-- catalog.js: what a person types becomes a candidate.
--
-- The functions of the host and of packages are arguments: `encode` is `encodeURIComponent`, `decode32`
-- gives the hexadecimal digits of decoded base32, and `read_url` the parameters `dn` and `tr` of a URL,
-- if it is one.
pub mod Magnet
mod Tests
use swarmproof.Metainfo.{is_empty}
use swarmproof.Base.{
  all, [], any, drop, if◌then◌else◌, leb, length, not, take, ◌&&◌, ◌++◌, ◌==◌, ◌||◌, Bool, List,
  Option, false, none, some, true, ℕ, ◌∷◌, ◌≡◌,
}
use swarmproof.Base.Dots.{is_digit}
use swarmproof.Worker.Input.{is_hex, lower, to_lower}
use swarmproof.Base.Text.{Text, text, same}
use swarmproof.ContentFilter.{is_blank_unit}
use swarmproof.Stream.Range.{strip_prefix}

abbrev pub known_trackers : List Text
known_trackers =
    text "udp://tracker.opentrackr.org:1337/announce"
    ∷ text "udp://explodie.org:6969/announce"
    ∷ text "udp://open.demonii.com:1337/announce"
    ∷ text "udp://tracker.torrent.eu.org:451/announce"
    ∷ []

pub record CandidateEntry : Type 0 where
  pub label : Text
  pub info_hash : Text
  pub magnet_uri : Text
  pub trackers : List Text

unfoldable pub tracker_parameters : (Text → Text) → List Text → Text
tracker_parameters encode [] = []
tracker_parameters encode (t ∷ ts) = text "&tr=" ++ (encode t ++ tracker_parameters encode ts)

unfoldable pub make_candidate : (Text → Text) → Text → Text → List Text → CandidateEntry
unfolding tracker_parameters
make_candidate encode label info_hash trackers = record {
  label = label;
  info_hash = lower info_hash;
  magnet_uri =
      text "magnet:?xt=urn:btih:"
      ++ (info_hash ++ (text "&dn=" ++ (encode label ++ tracker_parameters encode trackers)));
  trackers = trackers;
}

unfoldable pub trim_start : Text → Text
trim_start [] = []
trim_start (c ∷ t) = let rest = trim_start t in if is_blank_unit c then rest else c ∷ t

-- `trim`, of which the end goes first.
unfoldable pub trim_end : Text → Text
trim_end [] = []
trim_end (c ∷ t) =
    let rest = trim_end t in if is_blank_unit c && is_empty rest then [] else c ∷ rest

unfoldable pub trim : Text → Text
unfolding trim_start trim_end
trim t = trim_start (trim_end t)

-- `[a-f0-9]`, whatever the case.
unfoldable pub is_hex_unit : ℕ → Bool
is_hex_unit c = is_hex (to_lower c)

unfoldable pub is_letter_unit : ℕ → Bool
is_letter_unit c = leb b'a' (to_lower c) && leb (to_lower c) b'z'

-- `[a-z0-9]` and `[a-z2-7]`, whatever the case.
unfoldable pub is_alnum_unit : ℕ → Bool
unfolding is_letter_unit
is_alnum_unit c = is_letter_unit c || is_digit c

unfoldable pub is_base32_unit : ℕ → Bool
unfolding is_letter_unit
is_base32_unit c = is_letter_unit c || (leb b'2' c && leb c b'7')

-- `\w`
unfoldable pub is_word_unit : ℕ → Bool
unfolding is_alnum_unit
is_word_unit c = is_alnum_unit c || (c == b'_')

-- `\b` behind a word.
unfoldable pub ends_word : Text → Bool
unfolding is_word_unit
ends_word [] = true
ends_word (c ∷ t) = not (is_word_unit c)

-- So many units of a class, and the end of the word behind them.
unfoldable pub run_of : (ℕ → Bool) → ℕ → Text → Option Text
unfolding ends_word
run_of p n t =
    if length (take n t) == n && all p (take n t) && ends_word (drop n t)
    then some (take n t)
    else none

unfoldable pub first_run : Option Text → Option Text → Option Text
first_run (some h) o = some h
first_run none o = o

unfoldable pub hash_behind : Option Text → Option Text
unfolding run_of first_run is_alnum_unit is_base32_unit
hash_behind none = none
hash_behind (some t) = first_run (run_of is_alnum_unit 40 t) (run_of is_base32_unit 32 t)

-- A prefix, whatever the case; its own letters are small.
unfoldable pub strip_small : Text → Text → Option Text
strip_small [] t = some t
strip_small (c ∷ p) [] = none
strip_small (c ∷ p) (d ∷ t) = if c == to_lower d then strip_small p t else none

-- `BTIH` at the first place where it matches; `inside` says that a word goes on there.
unfoldable pub find_hash : Bool → Text → Option Text
unfolding hash_behind strip_small is_word_unit
find_hash inside [] = none
find_hash inside (c ∷ t) =
    let later = find_hash (is_word_unit c) t in
    if inside
    then later
    else first_run (hash_behind (strip_small (text "xt=urn:btih:") (c ∷ t))) later

unfoldable pub to_hex_info_hash : (Text → Text) → Text → Text
to_hex_info_hash decode32 raw = if length raw == 32 then decode32 raw else lower raw

pub data InputError : Type 0 where
  empty_input not_magnet no_info_hash bad_url : InputError

pub data Parsed : Type 0 where
  entry_of : CandidateEntry → Parsed
  parse_error : InputError → Parsed

-- `[...new Set(...)]`
unfoldable pub once_each : List Text → List Text → List Text
once_each seen [] = []
once_each seen (t ∷ ts) =
    let skip = once_each seen ts in
    let keep = t ∷ once_each (t ∷ seen) ts in if any (λ s. same s t) seen then skip else keep

unfoldable pub first_label : Option Text → Text → Text
first_label none hash = take 8 hash
first_label (some []) hash = take 8 hash
first_label (some (c ∷ label)) hash = c ∷ label

unfoldable pub parse_url : Text → Text → Option (Option Text × List Text) → Parsed
unfolding once_each first_label
parse_url input hash none = parse_error bad_url
parse_url input hash (some (dn, embedded)) = entry_of (record {
  label = first_label dn hash;
  info_hash = hash;
  magnet_uri = input;
  trackers = once_each [] (embedded ++ known_trackers);
})

module _ (encode : Text → Text) (decode32 : Text → Text)
    (read_url : Text → Option (Option Text × List Text)) where
  unfoldable pub parse_magnet : Text → Option Text → Parsed
  unfolding to_hex_info_hash parse_url
  parse_magnet input none = parse_error no_info_hash
  parse_magnet input (some raw) = parse_url input (to_hex_info_hash decode32 raw) (read_url input)

  unfoldable pub parse_trimmed : Text → Parsed
  unfolding parse_magnet make_candidate find_hash is_hex_unit strip_prefix
  parse_trimmed [] = parse_error empty_input
  parse_trimmed (c ∷ t) =
      if length (c ∷ t) == 40 && all is_hex_unit (c ∷ t)
      then entry_of (make_candidate encode (take 8 (c ∷ t)) (c ∷ t) known_trackers)
      else (elim (strip_small (text "magnet:") (c ∷ t)) [
        | some rest ↦ parse_magnet (c ∷ t) (find_hash false (c ∷ t))
        | none ↦ parse_error not_magnet
      ])

  unfoldable pub parse_input : Text → Parsed
  unfolding parse_trimmed trim
  parse_input raw = parse_trimmed (trim raw)

-- `PRESETS`: the labels and the hashes.
abbrev pub presets : List (Text × Text)
presets =
    (text "Sintel", text "08ada5a7a6183aae1e09d831df6748d566095a10")
    ∷ (text "Big Buck Bunny", text "dd8255ecdc7ca55fb0bbf81323d87062db1f6d1c")
    ∷ (text "Cosmos Laundromat", text "c9e15763f722f23e98a29decdfae341b98d53056")
    ∷ (text "Tears of Steel", text "209c8226b299b308beaf2b9cd3fb49212dbd13ec")
    ∷ []
