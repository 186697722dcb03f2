-- ===== src/Worker/Post/Tests.antt =====
-- Runs of worker/src/index.js, `postHealth`, and the theorems at concrete inputs.
use swarmproof.Worker.Health.{merge_health, or_else, report, HealthEntry}
use swarmproof.Base.{List, Option, [], arith, false, refl, some, true, ℕ, ◌∷◌, ◌≡◌}
use swarmproof.Base.Table.{lookup, set}
use swarmproof.Base.Text.{Text, same, text}
use swarmproof.Worker.Input.{clamp_int, is_info_hash, to_lower, whole}
use swarmproof.Worker.Post.{
  Env, RawReport, add_checked, answered, check_all, check_report, counts, deliver, deliver_all,
  post_health, post_reports, store, tally,
}
use swarmproof.Worker.Post.Limits.{AllStored, IsBounded, post_health-IsBounded}

abbrev hash : Text
hash = text "08ada5a7a6183aae1e09d831df6748d566095a10"

abbrev first_entry : HealthEntry
first_entry = record { seeders = 38; leechers = 1; dht_peer_count = 0; reports = 1; ts = 1000 }

abbrev raw_report : Text → ℕ → RawReport
raw_report ih s = record {
  info_hash = ih;
  seeders = whole s true;
  leechers = whole 0 false;
  dht_peer_count = whole 3 false;
}

abbrev raw_reports : List RawReport
raw_reports =
    raw_report (text "08ADA5A7A6183AAE1E09D831DF6748D566095A10") 38
    ∷ raw_report hash 250000
    ∷ raw_report (text "junk") 1
    ∷ raw_report hash 5
    ∷ []

abbrev calm : Env
calm = record { now = 5000; reachable = λ k. true; kv_accepts = λ k. true }

post_program : Unit {0}
unfolding report merge_health or_else post_reports check_all check_report add_checked counts deliver
    deliver_all store tally clamp_int is_info_hash to_lower lookup set same
post_program = tt

-- A count just above the bound and a malformed hash are rejected; the second report of a hash waits.
post_run :
    (post_reports calm [] raw_reports).1
    ≡ answered
        (record { written = 1; coalesced = 1; ignored_zero = 0; kv_throttled = 0; errors = 0 })
        (hash ∷ text "junk" ∷ [])
unfolding post_program
post_run = refl

abbrev parse_any : Text → Option (Option (List RawReport))
parse_any t = some (some raw_reports)

post_health-IsBounded_example :
    AllStored IsBounded (post_health parse_any calm ((hash, first_entry) ∷ []) 40 (text "{}")).0
post_health-IsBounded_example =
    post_health-IsBounded parse_any calm ((hash, first_entry) ∷ []) 40 (text "{}") (omega arith)
