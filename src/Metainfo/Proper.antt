-- ===== src/Metainfo/Proper.antt =====
-- metainfo.js: what the reader of the info dictionary passes on.
use swarmproof.Base.{
  refl, All, Bool-cases, List, Option, [], arith, false, filter, inl, inr, length, length-filter-le,
  length-map, length-take, map, none, not, some, take, ℕ, ◌∷◌, ◌≡◌, ◌≤◌,
}
use swarmproof.Metainfo.{
  read_info, read_named, FileInfo, Info, Meta, describe_files, is_empty, max_paths, path_of,
  paths_of,
}
use swarmproof.Base.Text.{Text}

-- A name, and at most the capped number of paths, none of them empty.
pub record IsProper (m : Meta) : Type 0 where
  pub named : is_empty m.name ≡ false
  pub few : length m.paths ≤ max_paths
  pub all_named : All (λ p. is_empty p ≡ false) m.paths

unfoldable pub IsProperOption : Option Meta → Type 0
IsProperOption none = Unit
IsProperOption (some m) = IsProper m

All-filter_named :
    (ps : List Text) → All (λ p. is_empty p ≡ false) (filter (λ p. not (is_empty p)) ps)
All-filter_named [] = tt
All-filter_named (p ∷ ps) = elim (Bool-cases (is_empty p)) [
  | inl e ↦ rw e (All-filter_named ps)
  | inr e ↦ rw e (e, All-filter_named ps)
]

length-paths_of : (fs : List FileInfo) → length (paths_of fs) ≤ max_paths
unfolding paths_of
length-paths_of fs = omega (
  arith,
  length-filter-le (λ p. not (is_empty p)) (map path_of (take max_paths fs)),
  length-map (take max_paths fs) path_of,
  length-take max_paths fs,
)

All-paths_of : (fs : List FileInfo) → All (λ p. is_empty p ≡ false) (paths_of fs)
unfolding paths_of
All-paths_of fs = All-filter_named (map path_of (take max_paths fs))

describe_files-IsProper :
    (c : ℕ) (cs : Text) (n : Option ℕ) (fs : Option (List FileInfo))
    → IsProper (describe_files (c ∷ cs) n fs)
unfolding describe_files is_empty
describe_files-IsProper c cs n none = record { named = refl; few = omega arith; all_named = tt }
describe_files-IsProper c cs n (some fs) = record {
  named = refl;
  few = length-paths_of fs;
  all_named = All-paths_of fs;
}

read_named-IsProper : (info : Info) (name : Option Text) → IsProperOption (read_named info name)
unfolding read_named IsProperOption
read_named-IsProper info none = tt
read_named-IsProper info (some []) = tt
read_named-IsProper info (some (c ∷ cs)) = describe_files-IsProper c cs info.length_of info.files

-- Whatever dictionary a peer serves, what is passed on has a name, and at most a hundred paths, none
-- of them empty.
pub read_info-IsProper : (info : Option Info) → IsProperOption (read_info info)
unfolding read_info IsProperOption
read_info-IsProper none = tt
read_info-IsProper (some info) = read_named-IsProper info info.name
