-- ===== src/Scout/Score.antt =====
-- swarmScout.js: the score of one candidate (`_scoreCandidate`, `_rankFromShared`), and when shared
-- health may answer for all of them (`_coversAll`).
--
-- The source computes the score in doubles; here it is the exact fraction, rounded as `Math.round`
-- rounds it.
pub mod Neutral
pub mod Covers
mod Tests
use swarmproof.Scout.Scrape.{Scrape}
use swarmproof.Base.{
  Bool, List, Option, [], all, any, false, if◌then◌else◌, length, ltb, map, min, none, some, true,
  ℕ, ◌&&◌, ◌*◌, ◌++◌, ◌+◌, ◌/◌, ◌==◌, ◌∷◌,
}
use swarmproof.Base.Text.{Text, same}
use swarmproof.Locality.{Place, Sighting, mean_locality, weighted_peer_count}
use swarmproof.PeerTable.{Peer, key}
use swarmproof.Worker.Health.{Described, fresh, recent, stale}
use swarmproof.Worker.Input.{lower}

abbrev pub shared_health_max_age_ms : ℕ
shared_health_max_age_ms = 600_000

-- What the local cache holds for an infohash.
pub record Cached : Type 0 where
  pub peers : List Peer
  pub score : ℕ

pub record Sources : Type 0 where
  pub seeders : ℕ
  pub leechers : ℕ
  pub dht_count : ℕ
  pub from_cache : Bool
  pub filled_from_shared : Bool

pub record Scored : Type 0 where
  pub score : ℕ
  pub peers : List Peer
  pub sources : Sources

-- `(!scrape || scrape.responded === 0) && sharedEntry && Date.now() - sharedEntry.ts < MAX_AGE`
unfoldable pub unanswered : Option Scrape → Bool
unanswered none = true
unanswered (some s) = s.responded == 0

unfoldable pub is_recent : ℕ → Option Described → Bool
is_recent now none = false
is_recent now (some e) = ltb now (e.ts + shared_health_max_age_ms)

pub scraped_seeders : Option Scrape → ℕ
scraped_seeders none = 0
scraped_seeders (some s) = s.complete

pub scraped_leechers : Option Scrape → ℕ
scraped_leechers none = 0
scraped_leechers (some s) = s.incomplete

-- The seeders, the leechers, and whether they are the shared ones.
unfoldable pub swarm_counts : ℕ → Option Scrape → Option Described → ℕ × ℕ × Bool
unfolding unanswered is_recent scraped_seeders scraped_leechers
swarm_counts now scrape none = (scraped_seeders scrape, scraped_leechers scrape, false)
swarm_counts now scrape (some e) =
    if unanswered scrape && is_recent now (some e)
    then (e.seeders, e.leechers, true)
    else (scraped_seeders scrape, scraped_leechers scrape, false)

-- `Math.round` of a fraction.
pub round_div : ℕ → ℕ → ℕ
round_div num den = (2 * num + den) / (2 * den)

pub cache_bonus : Option Cached → ℕ
cache_bonus none = 0
cache_bonus (some c) = min c.score 20

-- `(seeders * 10 + leechers * 1) * locality + peerWeight * 4`, and the boost of a cached candidate.
pub weigh : ℕ → ℕ → ℕ × ℕ → ℕ → ℕ → ℕ
unfolding round_div
weigh seeders leechers (num, den) peer_weight bonus =
    round_div (100 * num * (seeders * 10 + leechers) + den * (4 * peer_weight + 100 * bonus))
      (100 * den)

-- `dedupePeers`
pub dedupe_from : List Text → List Peer → List Peer
dedupe_from seen [] = []
dedupe_from seen (p ∷ ps) =
    let rest = dedupe_from (key p ∷ seen) ps in
    let skip = dedupe_from seen ps in if any (λ k. same k (key p)) seen then skip else p ∷ rest

unfoldable pub dedupe_peers : List Peer → List Peer
unfolding dedupe_from
dedupe_peers = dedupe_from []

pub cached_peers : Option Cached → List Peer
cached_peers none = []
cached_peers (some c) = c.peers

pub peer_of_sighting : Sighting → Peer
peer_of_sighting s = s.peer

pub is_cached : Option Cached → Bool
is_cached none = false
is_cached (some c) = true

unfoldable pub score_candidate :
    Place → ℕ → Option Cached → Option Scrape → Option Described → List Sighting → Scored
unfolding swarm_counts weigh cache_bonus dedupe_peers cached_peers peer_of_sighting is_cached
score_candidate place now cached scrape shared dht_peers =
    let (seeders, leechers, filled) = swarm_counts now scrape shared in
    record {
      score =
          weigh seeders leechers (mean_locality place dht_peers)
            (weighted_peer_count place dht_peers) (cache_bonus cached);
      peers = dedupe_peers (cached_peers cached ++ map peer_of_sighting dht_peers);
      sources = record {
        seeders = seeders;
        leechers = leechers;
        dht_count = length dht_peers;
        from_cache = is_cached cached;
        filled_from_shared = filled;
      };
    }

-- The score that `_rankFromShared` gives an entry.
pub shared_score : Described → ℕ
shared_score e = e.seeders * 10 + e.dht_peer_count * 4 + e.leechers * 1

-- One of the tests of `_coversAll`.
pub covers : ℕ → Option Described → Bool
covers now none = false
covers now (some e) = elim e.confidence [
  | stale ↦ false
  | fresh ↦ ltb now (e.ts + shared_health_max_age_ms)
  | recent ↦ ltb now (e.ts + shared_health_max_age_ms)
]

pub covers_all : ℕ → (Text → Option Described) → List Text → Bool
unfolding covers
covers_all now shared hashes = all (λ h. covers now (shared (lower h))) hashes
