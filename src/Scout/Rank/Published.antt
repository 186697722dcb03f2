-- ===== src/Scout/Rank/Published.antt =====
-- swarmScout.js, `_reportHealth`: what is published of a ranking.
use swarmproof.Base.{
  Bool, All, List, Option, [], ap, length, map, refl, some, true, ℕ, ◌++◌, ◌<◌, ◌∷◌, ◌≡◌,
}
use swarmproof.Scout.Score.{Scored, Cached, is_recent, score_candidate, swarm_counts, unanswered}
use swarmproof.Base.Text.{Text}
use swarmproof.Locality.{Place, Sighting}
use swarmproof.Scout.Rank.{
  HealthReport, ProbeOutcome, add_fulfilled, add_report, end_refresh, fulfilled, measured,
  only_fulfilled, publish, rejected, report_of, reports_of, row_of,
}
use swarmproof.Scout.Scrape.{Scrape}
use swarmproof.Worker.Health.{Described}

own_report : Text → Scored → HealthReport
own_report hash s = record {
  info_hash = hash;
  seeders = s.sources.seeders;
  leechers = s.sources.leechers;
  dht_peer_count = s.sources.dht_count;
}

measured_report : Text × ProbeOutcome → List HealthReport
unfolding own_report
measured_report (hash, fulfilled s) = own_report hash s ∷ []
measured_report (hash, rejected message) = []

-- The reports of the probes that ended well, in the order of the candidates.
pub measured_reports : List (Text × ProbeOutcome) → List HealthReport
unfolding measured_report
measured_reports [] = []
measured_reports (o ∷ os) = measured_report o ++ measured_reports os

-- A rejected probe has a message, as an error of the time limit has.
abbrev pub HasMessage : Text × ProbeOutcome → Type 0
HasMessage (hash, fulfilled s) = Unit
HasMessage (hash, rejected message) = 0 < length message

reports_of-row_of :
    (outcomes : List (Text × ProbeOutcome))
    → All HasMessage outcomes
    → reports_of (map row_of outcomes) ≡ measured_reports outcomes
unfolding reports_of row_of report_of add_report measured_reports measured_report own_report
reports_of-row_of [] h = refl
reports_of-row_of ((hash, fulfilled s) ∷ os) (u, h) =
    ap (λ (t : List HealthReport). own_report hash s ∷ t) (reports_of-row_of os h)
reports_of-row_of ((hash, rejected []) ∷ os) (u, h) = elim u [ ]
reports_of-row_of ((hash, rejected (c ∷ m)) ∷ os) (u, h) = reports_of-row_of os h

only_fulfilled-measured_reports :
    (outcomes : List (Text × ProbeOutcome))
    → reports_of (map row_of (only_fulfilled outcomes)) ≡ measured_reports outcomes
unfolding reports_of row_of report_of add_report measured_reports measured_report own_report
    only_fulfilled add_fulfilled
only_fulfilled-measured_reports [] = refl
only_fulfilled-measured_reports ((hash, fulfilled s) ∷ os) =
    ap (λ (t : List HealthReport). own_report hash s ∷ t) (only_fulfilled-measured_reports os)
only_fulfilled-measured_reports ((hash, rejected m) ∷ os) = only_fulfilled-measured_reports os

-- Where every failed probe has a message: a ranking by probes publishes the same as a refresh in the
-- background, one report for each probe that ended well and none for the others, in the order of the
-- candidates.
pub publish_lem :
    (outcomes : List (Text × ProbeOutcome))
    → All HasMessage outcomes
    → (publish true (map row_of outcomes) ≡ measured_reports outcomes)
      × ((end_refresh true outcomes).0 ≡ measured_reports outcomes)
unfolding publish end_refresh
publish_lem outcomes h = (reports_of-row_of outcomes h, only_fulfilled-measured_reports outcomes)

swarm_counts_shared :
    (now : ℕ) (scrape : Option Scrape) (e : Described)
    → unanswered scrape ≡ true
    → is_recent now (some e) ≡ true
    → swarm_counts now scrape (some e) ≡ (e.seeders, e.leechers, true)
unfolding swarm_counts
swarm_counts_shared now scrape e u r = rw (u, r) refl

-- Where no tracker has answered and shared health is recent, what a probe publishes as its own are the
-- seeders and leechers that it has from shared health.
pub report_of-score_candidate :
    (place : Place) (now : ℕ) (hash : Text) (cached : Option Cached) (scrape : Option Scrape)
    (e : Described) (seen : List Sighting)
    → unanswered scrape ≡ true
    → is_recent now (some e) ≡ true
    → report_of hash (measured (score_candidate place now cached scrape (some e) seen).sources)
      ≡ some (record {
        info_hash = hash;
        seeders = e.seeders;
        leechers = e.leechers;
        dht_peer_count = length seen;
      })
unfolding report_of score_candidate
report_of-score_candidate place now hash cached scrape e seen u r =
    ap
      (λ (c : ℕ × ℕ × Bool).
        some (record {
          info_hash = hash;
          seeders = c.0;
          leechers = c.1;
          dht_peer_count = length seen;
        }))
      (swarm_counts_shared now scrape e u r)
