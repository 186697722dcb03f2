-- ===== src/Worker/Health/Tests.antt =====
-- Runs of worker/src/index.js, the coalescer, and the theorems at concrete inputs.
use swarmproof.Base.{
  List, [], arith, false, none, refl, some, true, ℕ, ◌+◌, ◌-◌, ◌/◌, ◌∷◌, ◌≡◌, ◌≤◌,
}
use swarmproof.Base.Text.{Text, text}
use swarmproof.Worker.Health.{
  HealthEntry, Observation, Request, health_coalesce_ms, merge_health, or_else, puts, report, serve,
}
use swarmproof.Worker.Health.Merge.{Keeps, serve-Keeps}
use swarmproof.Worker.Health.Rate.{puts_rate}

abbrev hash : Text
hash = text "08ada5a7a6183aae1e09d831df6748d566095a10"

abbrev observed : ℕ → ℕ → Observation
observed s d = record { info_hash = hash; seeders = s; leechers = 1; dht_peer_count = d }

abbrev requests : List Request
requests =
    record { now = 1000; obs = observed 38 0; kv_accepts = true }
    ∷ record { now = 60000; obs = observed 0 12; kv_accepts = true }
    ∷ record { now = 130000; obs = observed 0 12; kv_accepts = false }
    ∷ []

abbrev first_entry : HealthEntry
first_entry = record { seeders = 38; leechers = 1; dht_peer_count = 0; reports = 1; ts = 1000 }

health_program : Unit {0}
unfolding report merge_health serve puts or_else
health_program = tt

-- The second request is coalesced; the third is written, and keeps the seeders.
serve_run :
    serve none requests
    ≡ some (record { seeders = 38; leechers = 1; dht_peer_count = 12; reports = 2; ts = 130000 })
unfolding health_program
serve_run = refl

puts_run : puts none requests ≡ 2
unfolding health_program
puts_run = refl

puts_rate_example : puts none requests ≤ (130000 - 1000) / health_coalesce_ms + 1
puts_rate_example = puts_rate none 1000 130000 requests (omega arith) (omega arith)

serve-Keeps_example :
    (f : HealthEntry) × (serve (some first_entry) requests ≡ some f)
    × Keeps first_entry f
    × (f.reports ≡ 1 + puts (some first_entry) requests)
serve-Keeps_example = serve-Keeps first_entry requests
