-- ===== src/Scout/Score/Neutral.antt =====
-- swarmScout.js: the score where nothing is known of the peers' places.
use swarmproof.Scout.Scrape.{Scrape}
use swarmproof.Base.{
  Bool, false, suc, zero, Option, ap, length, none, some, ◌+◌, ◌∙◌, All, List, [], arith, refl, ℕ,
  ◌*◌, ◌<◌, ◌∷◌, ◌≡◌,
}
use swarmproof.Scout.Score.{
  scraped_leechers, scraped_seeders, unanswered, Cached, cache_bonus, score_candidate, shared_score,
  swarm_counts, weigh, round_div,
}
use swarmproof.Locality.{
  weighted_peer_count, Place, Sighting, locality_factor, mean_locality, neutral,
}
use swarmproof.Worker.Health.{Described}
use swarmproof.Locality.Count.{weighted_peer_count-neutral}

abbrev IsNeutral : Place → List Sighting → Type 0
IsNeutral place ss = All (λ s. locality_factor place s ≡ neutral) ss

round_div_exact : (n d : ℕ) → 0 < d → round_div (n * d) d ≡ n
unfolding round_div
round_div_exact n d h = grind arith

mean_locality-neutral :
    (place : Place) (ss : List Sighting)
    → IsNeutral place ss
    → (mean_locality place ss).0 ≡ (mean_locality place ss).1
unfolding mean_locality
mean_locality-neutral place [] h = refl
mean_locality-neutral place (s ∷ ss) h = weighted_peer_count-neutral place (s ∷ ss) h

mean_locality_pos : (place : Place) (ss : List Sighting) → 0 < (mean_locality place ss).1
unfolding mean_locality
mean_locality_pos place [] = omega arith
mean_locality_pos place (s ∷ ss) = omega arith

weigh-neutral : (s l m n b : ℕ) → 0 < m → weigh s l (m, m) (100 * n) b ≡ s * 10 + l + n * 4 + b
unfolding weigh
weigh-neutral s l m n b h =
    ap (λ (t : ℕ). round_div t (100 * m)) (omega arith)
    ∙ round_div_exact (s * 10 + l + n * 4 + b) (100 * m) (omega arith)

-- Where nothing is known of the peers' places, the score is the flat one: ten for a seeder, one for a
-- leecher, four for a peer observed, and the boost of a cached candidate.
pub score-neutral :
    (place : Place) (now : ℕ) (cached : Option Cached) (scrape : Option Scrape)
    (shared : Option Described) (ss : List Sighting)
    → All (λ s. locality_factor place s ≡ neutral) ss
    → (score_candidate place now cached scrape shared ss).score
      ≡ (swarm_counts now scrape shared).0 * 10
        + (swarm_counts now scrape shared).1
        + length ss * 4
        + cache_bonus cached
unfolding score_candidate
score-neutral place now cached scrape shared ss h =
    let (seeders, leechers, filled) = swarm_counts now scrape shared in
    let mean = mean_locality place ss in
    let even : mean ≡ (mean.1, mean.1) =
      ap (λ (k : ℕ). (let r : ℕ × ℕ = (k, mean.1) in r)) (mean_locality-neutral place ss h) in
    ap (λ (r : ℕ × ℕ). weigh seeders leechers r (weighted_peer_count place ss) (cache_bonus cached))
      even
    ∙ ap (λ (w : ℕ). weigh seeders leechers (mean.1, mean.1) w (cache_bonus cached))
        (weighted_peer_count-neutral place ss h)
    ∙ weigh-neutral seeders leechers mean.1 (length ss) (cache_bonus cached)
        (mean_locality_pos place ss)

swarm_counts-answered :
    (now s l responded : ℕ) (shared : Option Described)
    → 0 < responded
    → swarm_counts now
        (some (record { complete = s; incomplete = l; responded = responded }))
        shared
      ≡ (s, l, false)
unfolding swarm_counts unanswered scraped_seeders scraped_leechers
swarm_counts-answered now s l responded none h = refl
swarm_counts-answered now s l (suc responded) (some e) h = ground arith
swarm_counts-answered now s l zero (some e) h = elim h [ ]

-- A ranking from shared health and one from a local probe use the same weights: if the trackers
-- answer with the shared seeders and leechers, and as many neutral peers are seen as the entry says,
-- then without a cached entry the two scores are equal.
pub shared_score-score :
    (place : Place) (now : ℕ) (e : Described) (responded : ℕ) (shared : Option Described)
    (ss : List Sighting)
    → All (λ s. locality_factor place s ≡ neutral) ss
    → length ss ≡ e.dht_peer_count
    → 0 < responded
    → (score_candidate place now none
        (some (record { complete = e.seeders; incomplete = e.leechers; responded = responded }))
        shared
        ss).score
      ≡ shared_score e
unfolding shared_score cache_bonus
shared_score-score place now e responded shared ss h n r =
    let scrape : Scrape = record {
      complete = e.seeders;
      incomplete = e.leechers;
      responded = responded;
    } in
    let counts = swarm_counts-answered now e.seeders e.leechers responded shared r in
    omega (
      arith,
      score-neutral place now none (some scrape) shared ss h,
      ap (λ (c : ℕ × ℕ × Bool). c.0) counts,
      ap (λ (c : ℕ × ℕ × Bool). c.1) counts,
    )
