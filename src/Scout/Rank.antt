-- ===== src/Scout/Rank.antt =====
-- swarmScout.js, `rank`: the shared answer first, else a probe of every candidate; what is published
-- (`_reportHealth`), and the refresh in the background.
--
-- What the probes give, each within its own time limit, is an argument: an outcome for each candidate.
pub mod Every
pub mod Published
pub mod Renewed
mod Tests
use swarmproof.Base.{
  Bool, List, Option, [], false, if◌then◌else◌, leb, map, none, some, true, ℕ, ◌&&◌, ◌∷◌,
}
use swarmproof.Base.Sort.{sort}
use swarmproof.Base.Text.{Text}
use swarmproof.PeerTable.{Peer}
use swarmproof.Scout.Probe.{FromShared, rank_from_shared}
use swarmproof.Scout.Score.{Scored, Sources, covers_all}
use swarmproof.Worker.Health.{Described}

-- A settled promise: a score, or the message of the error, which may be missing or empty.
pub data ProbeOutcome : Type 0 where
  fulfilled : Scored → ProbeOutcome
  rejected : Text → ProbeOutcome

pub data Evidence : Type 0 where
  measured : Sources → Evidence
  failed_with : Text → Evidence

pub record Row : Type 0 where
  pub info_hash : Text
  pub score : ℕ
  pub peers : List Peer
  pub evidence : Evidence

unfoldable pub row_of : Text × ProbeOutcome → Row
row_of (hash, fulfilled s) = record {
  info_hash = hash;
  score = s.score;
  peers = s.peers;
  evidence = measured s.sources;
}
row_of (hash, rejected message) = record {
  info_hash = hash;
  score = 0;
  peers = [];
  evidence = failed_with message;
}

-- `b.score - a.score`
unfoldable pub scores_more : Row → Row → Bool
scores_more a b = leb b.score a.score

pub record HealthReport : Type 0 where
  pub info_hash : Text
  pub seeders : ℕ
  pub leechers : ℕ
  pub dht_peer_count : ℕ

-- A row that has an error with a message is filtered out; of one without, the counts are missing.
unfoldable pub report_of : Text → Evidence → Option HealthReport
report_of hash (measured s) = some (record {
  info_hash = hash;
  seeders = s.seeders;
  leechers = s.leechers;
  dht_peer_count = s.dht_count;
})
report_of hash (failed_with []) =
    some (record { info_hash = hash; seeders = 0; leechers = 0; dht_peer_count = 0 })
report_of hash (failed_with (c ∷ message)) = none

unfoldable pub add_report : Option HealthReport → List HealthReport → List HealthReport
add_report none rs = rs
add_report (some r) rs = r ∷ rs

unfoldable pub reports_of : List Row → List HealthReport
unfolding report_of add_report
reports_of [] = []
reports_of (r ∷ rows) = add_report (report_of r.info_hash r.evidence) (reports_of rows)

-- `_reportHealth`: the reports that are sent.
unfoldable pub publish : Bool → List Row → List HealthReport
unfolding reports_of
publish enabled rows = if enabled then reports_of rows else []

-- `rank` answers from shared health, which starts the refresh, or from its probes. `none` is a throw.
pub data Answer : Type 0 where
  from_cloud : Option (List FromShared) → Answer
  from_probes : List Row → List HealthReport → Answer

unfoldable pub probe_answer : Bool → List (Text × ProbeOutcome) → Answer
unfolding row_of scores_more publish
probe_answer enabled outcomes =
    let rows = map row_of outcomes in from_probes (sort scores_more rows) (publish enabled rows)

unfoldable pub answer_from :
    Bool → ℕ → Option (Text → Option Described) → List (Text × ProbeOutcome) → Answer
unfolding probe_answer
answer_from enabled now none outcomes = probe_answer enabled outcomes
answer_from enabled now (some shared) outcomes =
    let hashes = map (λ o. o.0) outcomes in
    if covers_all now shared hashes
    then from_cloud (rank_from_shared shared hashes)
    else probe_answer enabled outcomes

-- `rank`, for candidates with the outcome that each of them has when it is probed.
unfoldable pub rank_candidates :
    Bool → Bool → ℕ → Option (Text → Option Described) → List (Text × ProbeOutcome) → Answer
unfolding answer_from
rank_candidates shared_first enabled now shared outcomes =
    if shared_first && enabled
    then answer_from enabled now shared outcomes
    else probe_answer enabled outcomes

-- `results.filter(r => r.status === 'fulfilled')`
unfoldable pub add_fulfilled :
    Text × ProbeOutcome → List (Text × ProbeOutcome) → List (Text × ProbeOutcome)
add_fulfilled (hash, fulfilled s) os = (hash, fulfilled s) ∷ os
add_fulfilled (hash, rejected m) os = os

unfoldable pub only_fulfilled : List (Text × ProbeOutcome) → List (Text × ProbeOutcome)
unfolding add_fulfilled
only_fulfilled [] = []
only_fulfilled (o ∷ os) = add_fulfilled o (only_fulfilled os)

-- `_backgroundRefresh`: whether a refresh begins, with the flag `_refreshing`.
unfoldable pub begin_refresh : Bool → Bool × Bool
begin_refresh refreshing = if refreshing then (false, true) else (true, true)

-- Its end: what is published, and the flag.
unfoldable pub end_refresh : Bool → List (Text × ProbeOutcome) → List HealthReport × Bool
unfolding publish only_fulfilled row_of
end_refresh enabled outcomes = (publish enabled (map row_of (only_fulfilled outcomes)), false)
