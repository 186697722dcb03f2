-- ===== src/Metainfo.antt =====
-- metainfo.js: a torrent's metadata, asked of one peer (`Fetch`) and of many (`Any`). This module has
-- the reading of the info dictionary.
--
-- The decoding of bencode and of UTF-8 is not under this repository; a dictionary comes decoded, with
-- `none` where a field is missing or is not of the kind that the source reads.
pub mod Proper
pub mod Fetch
pub mod Any
use swarmproof.Base.{
  Bool, List, Option, [], false, filter, length, map, none, not, some, take, true, ℕ, ◌++◌, ◌+◌,
  ◌∷◌,
}
use swarmproof.Base.Text.{Text}

abbrev pub max_paths : ℕ
max_paths = 100

-- A file of `info.files`.
pub record FileInfo : Type 0 where
  pub length_of : Option ℕ
  pub path : Option (List Text)

pub record Info : Type 0 where
  pub name : Option Text
  pub length_of : Option ℕ
  pub files : Option (List FileInfo)

pub record Meta : Type 0 where
  pub name : Text
  pub size : ℕ
  pub files : ℕ
  pub paths : List Text

-- `Number(f.length) || 0`
unfoldable pub number_or_zero : Option ℕ → ℕ
number_or_zero none = 0
number_or_zero (some n) = n

pub total_size : List FileInfo → ℕ
unfolding number_or_zero
total_size [] = 0
total_size (f ∷ fs) = number_or_zero f.length_of + total_size fs

-- `segments.join('/')`
pub join_path : List Text → Text
join_path [] = []
join_path (s ∷ []) = s
join_path (s ∷ t ∷ ss) = s ++ b'/' ∷ join_path (t ∷ ss)

pub path_of : FileInfo → Text
unfolding join_path
path_of f = elim f.path [ none ↦ [] | some segments ↦ join_path segments ]

unfoldable pub is_empty : Text → Bool
is_empty [] = true
is_empty (c ∷ t) = false

pub paths_of : List FileInfo → List Text
unfolding path_of is_empty
paths_of fs = filter (λ p. not (is_empty p)) (map path_of (take max_paths fs))

pub describe_files : Text → Option ℕ → Option (List FileInfo) → Meta
unfolding total_size paths_of number_or_zero
describe_files name length_of none = record {
  name = name;
  size = number_or_zero length_of;
  files = 1;
  paths = [];
}
describe_files name length_of (some fs) = record {
  name = name;
  size = total_size fs;
  files = length fs;
  paths = paths_of fs;
}

pub read_named : Info → Option Text → Option Meta
unfolding describe_files
read_named info none = none
read_named info (some []) = none
read_named info (some (c ∷ cs)) = some (describe_files (c ∷ cs) info.length_of info.files)

-- The handler of 'metadata': what it finishes with. `none` as an argument is a dictionary that does
-- not decode.
pub read_info : Option Info → Option Meta
unfolding read_named
read_info none = none
read_info (some info) = read_named info info.name
