-- ===== src/Metainfo/Fetch/Tests.antt =====
-- Runs of `fetchMetadata`, and the theorems at concrete inputs.
use swarmproof.Base.{List, [], false, none, refl, some, true, ℕ, ◌++◌, ◌∷◌, ◌≡◌, ◌≢◌}
use swarmproof.Base.Text.{text}
use swarmproof.Metainfo.{
  Info, describe_files, is_empty, join_path, number_or_zero, path_of, paths_of, read_info,
  read_named, total_size,
}
use swarmproof.Metainfo.Fetch.{
  Event, Result, connect_time, connects, finish, has_value, is_some_time, on_connect, on_event,
  open_fetch, overall_deadline, result_of, run_events, served, socket_fails, start, was_set,
}
use swarmproof.Metainfo.Fetch.Once.{deadline_resolves, resolved-Honest}
use swarmproof.Metainfo.Proper.{IsProperOption}

abbrev movie : Info
movie = record {
  name = some (text "Sintel");
  length_of = none;
  files = some (
      record { length_of = some 120; path = some (text "a" ∷ text "b.mkv" ∷ []) }
      ∷ record { length_of = none; path = none }
      ∷ []);
}

fetch_program : Unit {0}
unfolding run_events on_event on_connect finish result_of start open_fetch was_set is_some_time
    connect_time has_value read_info read_named describe_files total_size paths_of path_of join_path
    is_empty number_or_zero
fetch_program = tt

abbrev honest_run : List (ℕ × Event)
honest_run = (1141, connects true) ∷ (1500, served (some movie)) ∷ []

fetch_run :
    (run_events (start 1000 true) honest_run).result
    ≡ some (record {
      ok = true;
      connected = true;
      connect_ms = some 141;
      total_ms = 500;
      metadata =
          some
            (record { name = text "Sintel"; size = 120; files = 2; paths = text "a/b.mkv" ∷ [] });
    })
unfolding fetch_program
fetch_run = refl

abbrev closing : List (ℕ × Event)
closing = (2000, socket_fails) ∷ []

abbrev silent_result : Result
silent_result = record {
  ok = false;
  connected = true;
  connect_ms = some 141;
  total_ms = 1000;
  metadata = none;
}

resolved-Honest_example :
    (silent_result.ok ≡ has_value silent_result.metadata)
    × (silent_result.ok ≡ true → silent_result.connected ≡ true)
    × IsProperOption silent_result.metadata
unfolding fetch_program
resolved-Honest_example =
    resolved-Honest 1000 true ((1141, connects true) ∷ closing) silent_result refl

deadline_resolves_example :
    (run_events
      (start 1000 true)
      ((1141, connects true) ∷ [] ++ (7000, overall_deadline) ∷ [])).result
    ≢ none
deadline_resolves_example = deadline_resolves 1000 true ((1141, connects true) ∷ []) 7000
