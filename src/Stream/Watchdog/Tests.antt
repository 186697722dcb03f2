-- ===== src/Stream/Watchdog/Tests.antt =====
-- streamServer.js: the watchdog at concrete readings.
use swarmproof.Base.{◌+◌, ◌≤◌, [], false, refl, true, ℕ, ◌∷◌, ◌≡◌}
use swarmproof.Stream.Watchdog.{Reading, Watch, check_swarm, is_excused, is_healthy, stall_strikes}
use swarmproof.Stream.Watchdog.Strikes.{count_quiet, run_checks, run_checks-count_quiet}

abbrev from_zero : Watch
from_zero = record { last_downloaded = 0; started_at = 1_000 }

abbrev quiet_at : ℕ → Reading
quiet_at t = record { now = t; downloaded = 100; is_complete = false; num_peers = 4 }

abbrev busy_at : ℕ → ℕ → Reading
busy_at t n = record { now = t; downloaded = n; is_complete = false; num_peers = 4 }

grace_holds :
    (run_checks 0 from_zero (quiet_at 5_000 ∷ quiet_at 9_000 ∷ quiet_at 13_000 ∷ [])).strikes ≡ 0
unfolding run_checks check_swarm is_healthy is_excused
grace_holds = refl

three_strikes :
    (run_checks 0 from_zero (quiet_at 17_000 ∷ quiet_at 21_000 ∷ quiet_at 25_000 ∷ [])).fails_over
    ≡ true
unfolding run_checks check_swarm is_healthy is_excused
three_strikes = refl

-- Two strikes of an earlier torrent: one quiet check of this one is enough.
strikes_carried : (run_checks 2 from_zero (quiet_at 17_000 ∷ [])).fails_over ≡ true
unfolding run_checks check_swarm is_healthy is_excused
strikes_carried = refl

healthy_between :
    (run_checks 0 from_zero
      (quiet_at 17_000 ∷ quiet_at 21_000 ∷ busy_at 25_000 90_000 ∷ quiet_at 29_000 ∷ [])).strikes
    ≡ 1
unfolding run_checks check_swarm is_healthy is_excused
healthy_between = refl

run_checks-count_quiet_example :
    ((run_checks 0 from_zero (quiet_at 17_000 ∷ quiet_at 21_000 ∷ quiet_at 25_000 ∷ [])).fails_over
        ≡ true
      → stall_strikes
        ≤ 0 + count_quiet from_zero (quiet_at 17_000 ∷ quiet_at 21_000 ∷ quiet_at 25_000 ∷ []))
    × ((r : Reading)
        → is_excused from_zero r ≡ false
        → is_healthy from_zero r ≡ true
        → (run_checks 0 from_zero
            (r ∷ quiet_at 17_000 ∷ quiet_at 21_000 ∷ quiet_at 25_000 ∷ [])).fails_over
          ≡ true
        → stall_strikes
          ≤ count_quiet
              (record from_zero { last_downloaded = r.downloaded })
              (quiet_at 17_000 ∷ quiet_at 21_000 ∷ quiet_at 25_000 ∷ []))
run_checks-count_quiet_example =
    run_checks-count_quiet 0 from_zero (quiet_at 17_000 ∷ quiet_at 21_000 ∷ quiet_at 25_000 ∷ [])
