-- ===== src/Scout/Probe.antt =====
-- swarmScout.js: what a probe reads and writes in the local cache, what a ranking from shared health
-- is, and what is published.
pub mod Persist
pub mod Covered
mod Tests
use swarmproof.Base.{
  ◌∷◌, Bool, List, Option, [], false, filter, if◌then◌else◌, leb, length, map, none, some, take, ℕ,
  ◌&&◌, ◌-◌, ◌==◌,
}
use swarmproof.Base.Sort.{sort}
use swarmproof.Base.Text.{Text}
use swarmproof.Locality.{Place, Sighting}
use swarmproof.PeerCache.{NodeRow, PeerCache, SwarmRow, get, is_usable, put_swarm, set_nodes}
use swarmproof.PeerTable.{Peer}
use swarmproof.Scout.Score.{Cached, Scored, score_candidate, shared_score}
use swarmproof.Scout.Scrape.{Scrape}
use swarmproof.Worker.Health.{Described}
use swarmproof.Worker.Input.{lower}

abbrev pub node_answered_within_ms : ℕ
node_answered_within_ms = 900_000

pub record Probed : Type 0 where
  pub scored : Scored
  pub cache : PeerCache

pub cached_of : Option SwarmRow → Option Cached
cached_of none = none
cached_of (some row) = some (record { peers = row.peers; score = row.score })

-- `_scoreCandidate` with its cache: the entry is read at `now`, and written when the probe has ended.
-- The flags are whether the SELECT, the DELETE and the UPSERT work.
pub probe_candidate :
    Place
    → Bool
    → Bool
    → Bool
    → ℕ
    → ℕ
    → Text
    → Option Scrape
    → Option Described
    → List Sighting
    → PeerCache
    → Probed
unfolding cached_of
probe_candidate place selects deletes writes now later hash scrape shared seen cache =
    let (row, c) = get selects deletes now hash cache in
    let s = score_candidate place later (cached_of row) scrape shared seen in
    record { scored = s; cache = put_swarm writes later hash s.peers s.score c }

-- A ranked entry of `_rankFromShared`.
pub record FromShared : Type 0 where
  pub info_hash : Text
  pub score : ℕ
  pub seeders : ℕ
  pub leechers : ℕ

unfoldable pub entry_from : Text → Option Described → Option FromShared
entry_from hash none = none
entry_from hash (some e) = some (record {
  info_hash = hash;
  score = shared_score e;
  seeders = e.seeders;
  leechers = e.leechers;
})

unfoldable pub from_shared : (Text → Option Described) → Text → Option FromShared
unfolding entry_from
from_shared shared hash = entry_from hash (shared (lower hash))

unfoldable pub add_entry : Option FromShared → Option (List FromShared) → Option (List FromShared)
add_entry none r = none
add_entry (some e) none = none
add_entry (some e) (some es) = some (e ∷ es)

-- `none` where an entry is missing, on which the source throws.
unfoldable pub all_shared : (Text → Option Described) → List Text → Option (List FromShared)
unfolding from_shared add_entry
all_shared shared [] = some []
all_shared shared (h ∷ hs) = add_entry (from_shared shared h) (all_shared shared hs)

-- `b.score - a.score`
unfoldable pub higher : FromShared → FromShared → Bool
higher a b = leb b.score a.score

-- `_rankFromShared`
unfoldable pub rank_from_shared : (Text → Option Described) → List Text → Option (List FromShared)
unfolding all_shared higher
rank_from_shared shared hashes = elim (all_shared shared hashes) [
  | none ↦ none
  | some es ↦ some (sort higher es)
]

-- A contact of the routing table; `seen` is missing where it is not a number.
pub record Contact : Type 0 where
  pub node : Peer
  pub seen : Option ℕ

pub seen_since : ℕ → Option ℕ → Bool
seen_since cutoff none = false
seen_since cutoff (some t) = leb cutoff t

pub seen_at : Contact → ℕ
seen_at c = elim c.seen [ none ↦ 0 | some t ↦ t ]

-- The filter of `_responsiveNodes`; the cutoff may lie before the clock's zero.
pub has_answered : ℕ → Contact → Bool
unfolding seen_since
has_answered cutoff c = is_usable c.node && seen_since cutoff c.seen

-- `b.seen - a.seen`
pub fresher : Contact → Contact → Bool
unfolding seen_at
fresher a b = leb (seen_at b) (seen_at a)

pub contact_node : Contact → Peer
contact_node c = c.node

pub responsive : ℕ → List Contact → List Contact
unfolding has_answered fresher
responsive now table = sort fresher (filter (has_answered (now - node_answered_within_ms)) table)

pub persist_given :
    (List NodeRow → List NodeRow) → Bool → ℕ → PeerCache → List Peer → PeerCache × List Peer
persist_given newest_first works now cache [] = (cache, [])
persist_given newest_first works now cache (n ∷ ns) =
    (set_nodes newest_first works now 300 (n ∷ ns) cache, take 100 (n ∷ ns))

-- `_persistNodes`: the cache, and the nodes that are reported.
pub persist_nodes :
    (List NodeRow → List NodeRow) → Bool → ℕ → List Contact → PeerCache → PeerCache × List Peer
unfolding responsive contact_node persist_given
persist_nodes newest_first works now table cache =
    persist_given newest_first works now cache (map contact_node (responsive now table))
