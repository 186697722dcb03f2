-- ===== src/Scout/Score/Tests.antt =====
-- Runs of the scoring of swarmScout.js, and the theorems at concrete inputs.
use swarmproof.Base.{All, List, [], length, none, refl, some, ℕ, ◌++◌, ◌∷◌, ◌≡◌}
use swarmproof.Base.Decimal.{decimal}
use swarmproof.Base.Text.{same, text}
use swarmproof.Locality.{
  Place, Sighting, is_loopback, locality_factor, mean_locality, neutral, rtt_factor, rtt_tiers,
  tier_factor, weighted_peer_count,
}
use swarmproof.PeerTable.{Peer, key}
use swarmproof.Scout.Score.{
  cache_bonus, cached_peers, covers, covers_all, dedupe_from, dedupe_peers, is_cached, is_recent,
  peer_of_sighting, round_div, score_candidate, scraped_leechers, scraped_seeders, shared_score,
  swarm_counts, unanswered, weigh,
}
use swarmproof.Worker.Health.{Described, HealthEntry, fresh}

abbrev nowhere : Place
nowhere = record { declared = []; local_v4 = [] }

abbrev peer_number : ℕ → Peer
peer_number n = record { host = text "8.8.8.8"; port = n }

abbrev seen : List Sighting
seen =
    record { peer = peer_number 1; rtt_ms = some 20 }
    ∷ record { peer = peer_number 2; rtt_ms = some 25 }
    ∷ []

abbrev shared_entry : Described
shared_entry = record {
  seeders = 5;
  leechers = 2;
  dht_peer_count = 2;
  ts = 1000;
  age = 10;
  confidence = fresh;
}

score_program : Unit {0}
unfolding score_candidate swarm_counts unanswered is_recent scraped_seeders scraped_leechers weigh
    round_div cache_bonus shared_score locality_factor weighted_peer_count mean_locality is_loopback
    rtt_factor tier_factor rtt_tiers same dedupe_peers dedupe_from key decimal cached_peers
    is_cached peer_of_sighting covers covers_all
score_program = tt

abbrev seen_near : All (λ s. locality_factor nowhere s ≡ neutral) seen
unfolding score_program
seen_near = (refl, (refl, tt))

score_neutral_run : (score_candidate nowhere 2000 none none (some shared_entry) seen).score ≡ 60
unfolding score_program
score_neutral_run = refl

-- The same peer twice counts twice in the score, and stands once in the answer.
dedupe_run : length (score_candidate nowhere 2000 none none none (seen ++ seen)).peers ≡ 2
unfolding score_program
dedupe_run = refl

abbrev reported : HealthEntry
reported = record { seeders = 5; leechers = 2; dht_peer_count = 2; reports = 1; ts = 1000 }
