-- ===== src/ContentFilter.antt =====
-- contentFilter.js: the small language of keywords, the junk checks, and the filter.
--
-- A string is its UTF-16 units. The regular-expression engine is the host's: whether a pattern matches
-- a subject is an argument.
pub mod WellFormed
mod Tests
use swarmproof.Base.{
  Bool, List, Option, [], all, any, false, if◌then◌else◌, leb, length, ltb, none, some, true, ℕ,
  ◌&&◌, ◌++◌, ◌+◌, ◌==◌, ◌||◌, ◌∷◌,
}
use swarmproof.Base.Text.{Text, same, text}
use swarmproof.Metainfo.{Meta}

abbrev pub min_name_length : ℕ
min_name_length = 8

abbrev pub min_total_size : ℕ
min_total_size = 1024

abbrev pub min_short_name_size : ℕ
min_short_name_size = 10_485_760

-- `[.*+?^${}()|[\]\\]`
pub specials : Text
specials = text ".*+?^${}()|[]\\"

pub is_special : ℕ → Bool
unfolding specials
is_special c = any (λ s. s == c) specials

-- `replace(…, '\\$&')` of one character.
pub escape : ℕ → Text
unfolding is_special
escape c = if is_special c then b'\\' ∷ c ∷ [] else c ∷ []

pub non_word : Text
non_word = text "[^0-9A-Za-z_]"

-- What a character outside an escape becomes.
pub token : ℕ → Text
unfolding escape non_word
token c =
    if c == b'*'
    then text "\\w*"
    else (if c == b'#'
        then text "\\d"
        else (if c == b' '
            then non_word
            else (if any (λ s. s == c) (text "()|?+") then c ∷ [] else escape c)))

pub prepend : Text → Option Text → Option Text
prepend s none = none
prepend s (some t) = some (s ++ t)

-- `compileKeyword`; the flag is that a backslash has just been read. `none` is the error for a
-- backslash at the end.
pub compile_from : Bool → Text → Option Text
unfolding token escape prepend
compile_from false [] = some []
compile_from true [] = none
compile_from true (c ∷ cs) = prepend (escape c) (compile_from false cs)
compile_from false (c ∷ cs) =
    let escaped = compile_from true cs in
    let rest = compile_from false cs in if c == b'\\' then escaped else prepend (token c) rest

pub compile_keyword : Text → Option Text
unfolding compile_from
compile_keyword = compile_from false

-- `new Set(keywords)`, in the order of insertion.
pub unique_from : List Text → List Text → List Text
unique_from seen [] = []
unique_from seen (k ∷ ks) =
    let rest = unique_from (k ∷ seen) ks in
    let skip = unique_from seen ks in if any (λ s. same s k) seen then skip else k ∷ rest

pub bar : Text → Option Text → Option Text
bar s none = none
bar s (some t) = some (s ++ b'|' ∷ t)

pub alternation : List Text → Option Text
unfolding prepend compile_keyword bar
alternation [] = some []
alternation (k ∷ []) = elim (compile_keyword k) [
  | none ↦ none
  | some p ↦ some (text "(?:" ++ p ++ text ")")
]
alternation (k ∷ j ∷ ks) = elim (compile_keyword k) [
  | none ↦ none
  | some p ↦ bar (text "(?:" ++ p ++ text ")") (alternation (j ∷ ks))
]

-- `compileKeywords`: the source of the pattern, or an error.
pub compile_keywords : List Text → Option Text
unfolding alternation unique_from non_word
compile_keywords [] = none
compile_keywords (k ∷ ks) = elim (alternation (unique_from [] (k ∷ ks))) [
  | none ↦ none
  | some a ↦
      some (text "(?:^|" ++ non_word ++ text "+)(?:" ++ a ++ text ")(?:$|" ++ non_word ++ text "+)")
]

pub is_high : ℕ → Bool
is_high c = leb 0xd800 c && leb c 0xdbff

pub is_low : ℕ → Bool
is_low c = leb 0xdc00 c && leb c 0xdfff

pub is_surrogate : ℕ → Bool
is_surrogate c = leb 0xd800 c && leb c 0xdfff

-- `replace` of the pairs by nothing, from left to right.
pub strip_pairs : Text → Text
unfolding is_high is_low
strip_pairs [] = []
strip_pairs (c ∷ []) = c ∷ []
strip_pairs (c ∷ d ∷ t) =
    let rest = strip_pairs t in
    let next = strip_pairs (d ∷ t) in if is_high c && is_low d then rest else c ∷ next

unfoldable pub is_blank_unit : ℕ → Bool
is_blank_unit c =
    (leb 9 c && leb c 13)
    || (leb 0x2000 c && leb c 0x200a)
    || any (λ s. s == c)
        (0x20 ∷ 0xa0 ∷ 0x1680 ∷ 0x2028 ∷ 0x2029 ∷ 0x202f ∷ 0x205f ∷ 0x3000 ∷ 0xfeff ∷ [])

-- `!name.trim()`
pub is_blank : Text → Bool
unfolding is_blank_unit
is_blank t = all is_blank_unit t

pub is_invalid : Text → Bool
unfolding strip_pairs is_surrogate
is_invalid s = any (λ c. c == 0) s || any is_surrogate (strip_pairs s)

pub data Reason : Type 0 where
  name_empty size_too_small name_too_short invalid_string banned : Reason

-- `junkReason`, of a name, a size and the paths.
pub junk_reason : Meta → Option Reason
unfolding is_blank is_invalid
junk_reason m =
    if is_blank m.name
    then some name_empty
    else (if ltb m.size min_total_size
        then some size_too_small
        else (if ltb (length m.name) min_name_length && ltb m.size min_short_name_size
            then some name_too_short
            else (if any is_invalid (m.name ∷ m.paths) then some invalid_string else none)))

pub record FilterStats : Type 0 where
  pub checked : ℕ
  pub banned_count : ℕ
  pub junk_count : ℕ

pub record ContentFilter : Type 0 where
  pub junk : Bool
  pub pattern : Text
  pub stats : FilterStats

-- `[name, ...paths].join(' ')`
pub subject : Text → List Text → Text
subject name [] = name
subject name (p ∷ ps) = name ++ b' ' ∷ subject p ps

pub count_junk : Option Reason → FilterStats → FilterStats
count_junk none s = s
count_junk (some r) s = record s { junk_count = s.junk_count + 1 }

-- `check`: the reason if it blocks.
unfoldable pub check : (Text → Text → Bool) → ContentFilter → Meta → Option Reason × ContentFilter
unfolding junk_reason subject count_junk
check matches f m =
    let s = record (f.stats) { checked = f.stats.checked + 1 } in
    if matches f.pattern (subject m.name m.paths)
    then (some banned, record f { stats = record s { banned_count = s.banned_count + 1 } })
    else (if f.junk
        then (junk_reason m, record f { stats = count_junk (junk_reason m) s })
        else (none, record f { stats = s }))
