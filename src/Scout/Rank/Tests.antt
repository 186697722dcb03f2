-- ===== src/Scout/Rank/Tests.antt =====
-- swarmScout.js, `rank` and `_reportHealth`: runs, and the theorems at concrete inputs.
use swarmproof.Base.{ℕ, List, [], false, none, refl, true, ◌∷◌, ◌≡◌}
use swarmproof.Worker.Health.{HealthEntry}
use swarmproof.Base.Sort.{insert, sort}
use swarmproof.Base.Text.{Text, text}
use swarmproof.Locality.{Place}
use swarmproof.Scout.Rank.{
  HealthReport, ProbeOutcome, Row, add_fulfilled, add_report, answer_from, begin_refresh,
  end_refresh, failed_with, from_probes, fulfilled, measured, only_fulfilled, probe_answer, publish,
  rank_candidates, rejected, report_of, reports_of, row_of, scores_more,
}
use swarmproof.Scout.Rank.Every.{IsAnswer, rank_candidates-IsAnswer}
use swarmproof.Scout.Rank.Renewed.{Visit}
use swarmproof.Scout.Score.{Scored}

abbrev good : Scored
good = record {
  score = 40;
  peers = [];
  sources = record {
    seeders = 4;
    leechers = 0;
    dht_count = 2;
    from_cache = false;
    filled_from_shared = false;
  };
}

abbrev outcomes : List (Text × ProbeOutcome)
outcomes = (text "aa", rejected (text "probe timeout")) ∷ (text "bb", fulfilled good) ∷ []

rank_program : Unit {0}
unfolding rank_candidates answer_from probe_answer publish reports_of add_report report_of
    scores_more row_of end_refresh only_fulfilled add_fulfilled begin_refresh sort insert
rank_program = tt

abbrev good_row : Row
good_row = record {
  info_hash = text "bb";
  score = 40;
  peers = [];
  evidence = measured good.sources;
}

abbrev late_row : Row
late_row = record {
  info_hash = text "aa";
  score = 0;
  peers = [];
  evidence = failed_with (text "probe timeout");
}

abbrev good_report : HealthReport
good_report = record { info_hash = text "bb"; seeders = 4; leechers = 0; dht_peer_count = 2 }

probed_run :
    rank_candidates true true 0 none outcomes
    ≡ from_probes (good_row ∷ late_row ∷ []) (good_report ∷ [])
unfolding rank_program
probed_run = refl

one_refresh : begin_refresh true ≡ (false, true)
unfolding rank_program
one_refresh = refl

rank_candidates-IsAnswer_example : IsAnswer outcomes (rank_candidates true true 0 none outcomes)
rank_candidates-IsAnswer_example = rank_candidates-IsAnswer true true 0 none outcomes

abbrev nowhere : Place
nowhere = record { local_v4 = []; declared = [] }

abbrev a_hash : Text
a_hash = text "0123456789abcdef0123456789abcdef01234567"

abbrev stored : HealthEntry
stored = record { seeders = 7; leechers = 3; dht_peer_count = 5; reports = 1; ts = 1000 }

-- A client that no tracker answers.
abbrev visit_at : ℕ → ℕ → Visit
visit_at read_at arrives_at = record {
  place = nowhere;
  cached = none;
  scrape = none;
  seen = [];
  read_at = read_at;
  arrives_at = arrives_at;
  kv_accepts = true;
}

abbrev two_visits : List Visit
two_visits = visit_at 500_000 501_000 ∷ visit_at 1_100_000 1_100_900 ∷ []
