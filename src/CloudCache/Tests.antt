-- ===== src/CloudCache/Tests.antt =====
-- Runs of cloudCache.js, and the theorems at concrete inputs.
use swarmproof.Base.{List, [], none, refl, some, ℕ, ◌∷◌, ◌≡◌}
use swarmproof.Base.Text.{text}
use swarmproof.CloudCache.{
  CloudCache, Reply, answered, breaker_of, charge, close_breaker, connect_cloud, fetch_cloud,
  get_nodes, is_given, is_short, lost, report_cloud, sent, trip,
}
use swarmproof.CloudCache.Breaker.{reads}

abbrev tripped : CloudCache
tripped = record (connect_cloud (text "https://control") none) { open_until = 10_300 }

abbrev waiting_reads : List (ℕ × ℕ × Reply ℕ)
waiting_reads = (400, 700, lost) ∷ (900, 1000, answered (some 7)) ∷ []

abbrev done : Reply ℕ
done = answered (some 1)

abbrev payload : List ℕ
payload = 5 ∷ []

abbrev no_answer : Reply ℕ
no_answer = lost

cloud_program : Unit {0}
unfolding fetch_cloud is_short charge sent trip close_breaker reads connect_cloud is_given
    breaker_of report_cloud get_nodes
cloud_program = tt

-- A read that overruns trips the breaker; the write behind it is sent.
write_run : (report_cloud 1000 1200 done payload tripped).0 ≡ some 1
unfolding cloud_program
write_run = refl
