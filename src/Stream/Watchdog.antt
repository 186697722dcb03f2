-- ===== src/Stream/Watchdog.antt =====
-- streamServer.js, `_resetStallWatchdog`: one check of the swarm that is being played.
pub mod Strikes
mod Tests
use swarmproof.Base.{Bool, false, if◌then◌else◌, leb, ltb, true, ℕ, ◌&&◌, ◌+◌, ◌-◌, ◌||◌}

abbrev pub stall_min_peers : ℕ
stall_min_peers = 1

abbrev pub stall_min_bytes_per_check : ℕ
stall_min_bytes_per_check = 32_768

abbrev pub stall_grace_ms : ℕ
stall_grace_ms = 15_000

abbrev pub stall_strikes : ℕ
stall_strikes = 3

-- What the timer's callback keeps between its calls.
pub record Watch : Type 0 where
  pub last_downloaded : ℕ
  pub started_at : ℕ

-- What it reads of the clock and of the torrent.
pub record Reading : Type 0 where
  pub now : ℕ
  pub downloaded : ℕ
  pub is_complete : Bool
  pub num_peers : ℕ

pub record Check : Type 0 where
  pub watch : Watch
  pub strikes : ℕ
  pub fails_over : Bool

-- Fewer bytes than before are as good as none.
unfoldable pub is_healthy : Watch → Reading → Bool
is_healthy w r =
    leb stall_min_peers r.num_peers
    && leb stall_min_bytes_per_check (r.downloaded - w.last_downloaded)

-- The grace period, and a finished download.
unfoldable pub is_excused : Watch → Reading → Bool
is_excused w r = ltb r.now (w.started_at + stall_grace_ms) || r.is_complete

unfoldable pub check_swarm : ℕ → Watch → Reading → Check
unfolding is_healthy is_excused
check_swarm strikes w r =
    let w' = record w { last_downloaded = r.downloaded } in
    if is_excused w r
    then record { watch = w'; strikes = strikes; fails_over = false }
    else (if is_healthy w r
        then record { watch = w'; strikes = 0; fails_over = false }
        else (if ltb (strikes + 1) stall_strikes
            then record { watch = w'; strikes = strikes + 1; fails_over = false }
            else record { watch = w'; strikes = 0; fails_over = true }))
