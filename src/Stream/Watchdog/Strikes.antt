-- ===== src/Stream/Watchdog/Strikes.antt =====
-- streamServer.js, `_resetStallWatchdog`: how many bad checks it takes to fail over.
use mathlib.Core.Path.{subst}
use swarmproof.Base.{
  Bool-cases, ap, inl, inr, refl, sym, ◌∙◌, Bool, List, [], arith, false, if◌then◌else◌, not, suc,
  true, ℕ, ◌&&◌, ◌+◌, ◌∷◌, ◌≡◌, ◌≤◌,
}
use swarmproof.Crawler.Stages.{strike}
use swarmproof.Stream.Watchdog.{
  Check, Reading, Watch, check_swarm, is_excused, is_healthy, stall_strikes,
}

unfoldable pub run_checks : ℕ → Watch → List Reading → Check
run_checks strikes w [] = record { watch = w; strikes = strikes; fails_over = false }
run_checks strikes w (r ∷ rs) =
    let c = check_swarm strikes w r in
    let rest = run_checks c.strikes c.watch rs in if c.fails_over then c else rest

-- A check at which the swarm is neither excused nor healthy.
pub is_quiet : Watch → Reading → Bool
is_quiet w r = not (is_excused w r) && not (is_healthy w r)

-- The quiet checks among the readings.
pub count_quiet : Watch → List Reading → ℕ
unfolding is_quiet
count_quiet w [] = 0
count_quiet w (r ∷ rs) =
    let rest = count_quiet (record w { last_downloaded = r.downloaded }) rs in
    if is_quiet w r then suc rest else rest

check_swarm_lem :
    (strikes : ℕ) (w : Watch) (r : Reading)
    → ((check_swarm strikes w r).watch ≡ record w { last_downloaded = r.downloaded })
      × ((check_swarm strikes w r).fails_over ≡ true
          → (is_quiet w r ≡ true) × (stall_strikes ≤ suc strikes))
      × ((check_swarm strikes w r).strikes ≤ (if is_quiet w r then suc strikes else strikes))
unfolding check_swarm is_quiet
check_swarm_lem strikes w r = ground arith

run_checks_step :
    (strikes : ℕ) (w : Watch) (r : Reading) (rs : List Reading)
    → (check_swarm strikes w r).fails_over ≡ false
    → run_checks strikes w (r ∷ rs)
      ≡ run_checks (check_swarm strikes w r).strikes (check_swarm strikes w r).watch rs
unfolding run_checks
run_checks_step strikes w r rs e = rw (e) refl

empty_run : (strikes : ℕ) (w : Watch) → (run_checks strikes w []).fails_over ≡ true → ⊥
unfolding run_checks
empty_run strikes w h = cc

counted :
    (strikes : ℕ) (w : Watch) (rs : List Reading)
    → (run_checks strikes w rs).fails_over ≡ true
    → stall_strikes ≤ strikes + count_quiet w rs
unfolding count_quiet
counted strikes w [] h = elim (empty_run strikes w h) [ ]
counted strikes w (r ∷ rs) h =
    let (watch, third_strike, strike) = check_swarm_lem strikes w r in
    let later = record w { last_downloaded = r.downloaded } in
    elim (Bool-cases (check_swarm strikes w r).fails_over) [
      | inl e ↦ let (quiet, third) = third_strike e in rw (quiet) (omega (arith, third))
      | inr e ↦
          let c = check_swarm strikes w r in
          let more =
            counted c.strikes c.watch rs
              (sym (ap (λ (x : Check). x.fails_over) (run_checks_step strikes w r rs e)) ∙ h) in
          let more' : stall_strikes ≤ c.strikes + count_quiet later rs =
            subst (λ (v : Watch). stall_strikes ≤ c.strikes + count_quiet v rs) watch more in
          ground (arith, more', strike)
    ]

healthy_resets :
    (strikes : ℕ) (w : Watch) (r : Reading)
    → is_excused w r ≡ false
    → is_healthy w r ≡ true
    → check_swarm strikes w r ≡ record {
      watch = record w { last_downloaded = r.downloaded };
      strikes = 0;
      fails_over = false;
    }
unfolding check_swarm
healthy_resets strikes w r e h = rw (e, h) refl

-- The watchdog fails over only if the quiet checks since it began are as many as its strikes then were
-- short of three; and behind a check that finds the swarm healthy only if three more are quiet.
pub run_checks-count_quiet :
    (strikes : ℕ) (w : Watch) (rs : List Reading)
    → ((run_checks strikes w rs).fails_over ≡ true → stall_strikes ≤ strikes + count_quiet w rs)
      × ((r : Reading)
          → is_excused w r ≡ false
          → is_healthy w r ≡ true
          → (run_checks strikes w (r ∷ rs)).fails_over ≡ true
          → stall_strikes ≤ count_quiet (record w { last_downloaded = r.downloaded }) rs)
unfolding run_checks
run_checks-count_quiet strikes w rs = (
  λ h. counted strikes w rs h,
  λ r e k h.
      let later = record w { last_downloaded = r.downloaded } in
      let fails' : (run_checks 0 later rs).fails_over ≡ true =
        sym (
          ap
            (λ (c : Check).
              (if c.fails_over then c else run_checks c.strikes c.watch rs).fails_over)
            (healthy_resets strikes w r e k))
        ∙ h in
      omega (arith, counted 0 later rs fails'),
)
