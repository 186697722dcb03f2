-- ===== src/Scout/Rank/Renewed.antt =====
-- swarmScout.js, `_reportHealth`, and the control plane (worker/src/index.js): what becomes of counts
-- that clients read from shared health and publish again.
use swarmproof.Base.{
  Bool, List, Option, [], false, length, none, some, true, ℕ, ◌+◌, ◌<◌, ◌∷◌, ◌≡◌, ◌≤◌,
}
use swarmproof.Base.Text.{Text}
use swarmproof.Locality.{Place, Sighting}
use swarmproof.Scout.Rank.{HealthReport, measured, report_of}
use swarmproof.Scout.Score.{Cached, score_candidate, shared_health_max_age_ms, unanswered}
use swarmproof.Scout.Scrape.{Scrape}
use swarmproof.Worker.Health.{HealthEntry, describe, health_coalesce_ms, report}
use swarmproof.Worker.Input.{max_reported_count, whole}
use swarmproof.Worker.Post.{Checked, RawReport, accept, check_report, reject}

-- A client probes a candidate: what it has of its own, the time at which it reads the shared entry, the
-- time at which its report arrives, and whether the store takes the write.
pub record Visit : Type 0 where
  pub place : Place
  pub cached : Option Cached
  pub scrape : Option Scrape
  pub seen : List Sighting
  pub read_at : ℕ
  pub arrives_at : ℕ
  pub kv_accepts : Bool

-- The report as it is sent.
pub raw_of : HealthReport → RawReport
raw_of r = record {
  info_hash = r.info_hash;
  seeders = whole r.seeders false;
  leechers = whole r.leechers false;
  dht_peer_count = whole r.dht_peer_count false;
}

pub take_checked : Checked → ℕ → Bool → HealthEntry → Option HealthEntry
take_checked (accept obs) now kv_accepts entry = (report (some entry) now obs kv_accepts).0
take_checked (reject hash) now kv_accepts entry = some entry

pub take_report : Option HealthReport → ℕ → Bool → HealthEntry → Option HealthEntry
unfolding take_checked raw_of
take_report none now kv_accepts entry = some entry
take_report (some r) now kv_accepts entry =
    take_checked (check_report (raw_of r)) now kv_accepts entry

-- The entry behind a visit: the client scores the candidate with what it reads, and the control plane
-- takes the client's report.
pub visit : Text → HealthEntry → Visit → Option HealthEntry
unfolding take_report
visit hash entry v =
    take_report
      (report_of hash (
        measured
          (score_candidate v.place v.read_at v.cached v.scrape (some (describe entry v.read_at))
            v.seen).sources))
      v.arrives_at v.kv_accepts entry

pub visit_all : Text → Option HealthEntry → List Visit → Option HealthEntry
unfolding visit
visit_all hash none vs = none
visit_all hash (some entry) [] = some entry
visit_all hash (some entry) (v ∷ vs) = visit_all hash (visit hash entry v) vs

-- No tracker answers any of the clients; each reads the entry before it is ten minutes old, and its
-- report arrives two minutes after the one before or later.
unfoldable pub InTime : ℕ → List Visit → Type 0
InTime ts [] = Unit
InTime ts (v ∷ vs) =
    (unanswered v.scrape ≡ true)
    × (v.read_at < ts + shared_health_max_age_ms)
    × (ts + health_coalesce_ms ≤ v.arrives_at)
    × (length v.seen ≤ max_reported_count)
    × InTime v.arrives_at vs

pub last_arrival : ℕ → List Visit → ℕ
last_arrival ts [] = ts
last_arrival ts (v ∷ vs) = last_arrival v.arrives_at vs

-- The entry holds the counts, at a time.
pub record Holds (seeders leechers ts : ℕ) (entry : HealthEntry) : Type 0 where
  pub same_seeders : entry.seeders ≡ seeders
  pub same_leechers : entry.leechers ≡ leechers
  pub written_at : entry.ts ≡ ts
