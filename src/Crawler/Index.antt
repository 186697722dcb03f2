-- ===== src/Crawler/Index.antt =====
-- dhtCrawler.js: the table of torrents and the statements on it, `counts` and `search`.
--
-- The statements are taken to work. Where SQLite leaves the order of ties open, the order is an
-- argument.
pub mod Clean
pub mod Terms
mod Tests
use swarmproof.Base.{
  Bool, List, Option, [], all, false, filter, if◌then◌else◌, leb, ltb, none, not, some, take, true,
  ℕ, ◌&&◌, ◌++◌, ◌+◌, ◌==◌, ◌||◌, ◌∷◌,
}
use swarmproof.Base.Table.{lookup, set}
use swarmproof.Base.Text.{Text, same}
use swarmproof.Metainfo.{Meta}
use swarmproof.PeerTable.{failed, run}
use swarmproof.Worker.Post.Account.{total}

-- A row of `torrents`, without its key.
pub record Torrent : Type 0 where
  pub name : Option Text
  pub size : ℕ
  pub files : ℕ
  pub first_seen : ℕ
  pub last_seen : ℕ
  pub hits : ℕ
  pub resolved : Bool
  pub failed : ℕ
  pub blocked : Bool

abbrev pub Index : Type 0
Index = List (Text × Torrent)

unfoldable pub new_torrent : ℕ → Torrent
new_torrent now = record {
  name = none;
  size = 0;
  files = 0;
  first_seen = now;
  last_seen = now;
  hits = 1;
  resolved = false;
  failed = 0;
  blocked = false;
}

unfoldable pub counted_again : ℕ → Torrent → Torrent
counted_again now t = record t { last_seen = now; hits = t.hits + 1 }

-- `_seen`, with the hit count that it returns.
unfoldable pub note_seen : ℕ → Text → Index → ℕ × Index
unfolding new_torrent counted_again
note_seen now hash index = elim (lookup hash index) [
  | none ↦ (1, set hash (new_torrent now) index)
  | some t ↦ (t.hits + 1, set hash (counted_again now t) index)
]

-- UPDATE … WHERE info_hash = ?
unfoldable pub update : (Torrent → Torrent) → Text → Index → Index
update f hash [] = []
update f hash ((j, t) ∷ index) =
    if same j hash then (j, f t) ∷ index else (j, t) ∷ update f hash index

unfoldable pub named_as : Meta → Torrent → Torrent
named_as m t = record t { name = some m.name; size = m.size; files = m.files; resolved = true }

-- `_name`
unfoldable pub write_name : Meta → Text → Index → Index
unfolding update named_as
write_name m = update (named_as m)

unfoldable pub failed_once : Torrent → Torrent
failed_once t = record t { failed = t.failed + 1 }

-- `_fail`
unfoldable pub write_failure : Text → Index → Index
unfolding update failed_once
write_failure = update failed_once

unfoldable pub withheld : Torrent → Torrent
withheld t = record t { name = none; resolved = true; blocked = true }

-- `_block`
unfoldable pub write_block : Text → Index → Index
unfolding update withheld
write_block = update withheld

-- `this._isNamed.get(hash)?.resolved`
unfoldable pub is_resolved : Text → Index → Bool
is_resolved hash index = elim (lookup hash index) [ none ↦ false | some t ↦ t.resolved ]

pub record IndexCounts : Type 0 where
  pub total : ℕ
  pub named : ℕ
  pub blocked : ℕ
  pub pending : ℕ

unfoldable pub count_if : Bool → ℕ
count_if true = 1
count_if false = 0

-- `counts`
unfoldable pub index_counts : Index → IndexCounts
unfolding count_if
index_counts [] = record { total = 0; named = 0; blocked = 0; pending = 0 }
index_counts ((k, t) ∷ index) =
    let r = index_counts index in
    record {
      total = r.total + 1;
      named = r.named + count_if (t.resolved && not t.blocked);
      blocked = r.blocked + count_if t.blocked;
      pending = r.pending + count_if (not t.resolved && ltb t.failed 3);
    }

unfoldable pub is_term_unit : ℕ → Bool
is_term_unit c = (leb b'a' c && leb c b'z') || (leb b'0' c && leb c b'9')

-- The runs of `[a-z0-9]`, of which `replace`, `split` and `filter` leave the terms; the units of the
-- run that is being read stand in order.
unfoldable pub terms_from : Text → Text → List Text
unfolding is_term_unit
terms_from [] [] = []
terms_from (r ∷ run) [] = (r ∷ run) ∷ []
terms_from run (c ∷ cs) =
    let longer = terms_from (run ++ c ∷ []) cs in
    let rest = terms_from [] cs in
    if is_term_unit c then longer else elim run [ [] ↦ rest | r ∷ rs ↦ (r ∷ rs) ∷ rest ]

unfoldable pub is_prefix : Text → Text → Bool
is_prefix [] name = true
is_prefix (c ∷ t) [] = false
is_prefix (c ∷ t) (d ∷ name) = c == d && is_prefix t name

-- LIKE '%t%', for a term without wildcards.
unfoldable pub contains : Text → Text → Bool
unfolding is_prefix
contains t [] = is_prefix t []
contains t (d ∷ name) = is_prefix t (d ∷ name) || contains t name

unfoldable pub matches_all : (Text → Text) → List Text → Torrent → Bool
unfolding contains
matches_all lower_name terms t = elim t.name [
  | none ↦ false
  | some name ↦ t.resolved && not t.blocked && all (λ term. contains term (lower_name name)) terms
]

unfoldable pub found_in : (Text → Text) → List Text → Index → Index
unfolding matches_all
found_in lower_name terms index = filter (λ r. matches_all lower_name terms r.1) index

-- The statement for a list of terms; without terms there are no results.
unfoldable pub results : (Text → Text) → (Index → Index) → ℕ → Index → List Text → Index
unfolding found_in
results lower_name by_hits limit index [] = []
results lower_name by_hits limit index (t ∷ ts) =
    take limit (by_hits (found_in lower_name (t ∷ ts) index))

-- `search`, with the script's `toLowerCase` of the query, SQLite's LOWER, and the order by hits.
unfoldable pub search_index :
    (Text → Text) → (Text → Text) → (Index → Index) → Text → ℕ → Index → Index
unfolding terms_from results
search_index lower_query lower_name by_hits query limit index =
    results lower_name by_hits limit index (terms_from [] (lower_query query))
