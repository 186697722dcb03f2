-- ===== src/Stream/Player/Failover.antt =====
-- streamServer.js: failover ends, since each race retires a candidate.
pub mod Counting
pub mod Begins
pub mod Steps
use swarmproof.Stream.Player.Failover.Begins.{advance-Pays}
use swarmproof.Stream.Player.Failover.Steps.{has_hash-append, on_player-Pays}
use swarmproof.Stream.Player.Failover.Counting.{
  remaining_count, busy, count_races, IsUndisturbed, Contends, PhaseContends, remaining_retires,
}
use native.Mathlib.Nat.{le_trans}
use swarmproof.Base.{
  length-filter-le, not, Bool, any, if◌then◌else◌, suc, zero, ◌++◌, All-take, Option, ap,
  length-take, map, none, refl, some, take, Bool-cases, inl, inr, sym, All, List, [], arith, false,
  length, true, ℕ, ◌+◌, ◌-◌, ◌<◌, ◌∷◌, ◌≡◌, ◌≤◌,
}
use swarmproof.Stream.Player.{
  play, play_list, RacerEnd, advance, apply_check, playable_file, racer_at, racer_done, racer_ended,
  tick, tick_with, torn_down, PlayOutcome, Racer, give_up, is_switching, racer_hash, racer_lost,
  racer_won, resolved, Active, begin_race, begin_racing, do_advance, enter_race, max_racers,
  new_racer, Candidate, Phase, Player, PlayerEvent, aborts, at_rest, has_hash, old_destroyed,
  on_player, plays, racer_ends, racing, remaining, tearing_down, ticks,
}
use swarmproof.Stream.Player.Busy.{length-give_up}
use swarmproof.Stream.Player.Shortlist.{has_hash_first, has_hash-cons, hashes_of}
use swarmproof.Stream.Watchdog.{Reading, Watch, check_swarm}
use mathlib.Core.Option.{some-injective}
use swarmproof.Crawler.Stages.{nth}
use swarmproof.Stream.Media.{File}
use mathlib.Core.Path.{ap₂, subst}
use swarmproof.Base.Text.{same, same→eq, Text, same_refl}

contender_left :
    (c : Candidate) (ranked : List Candidate) (excluded : List Text)
    → Contends ranked excluded c
    → 1 ≤ length (remaining ranked excluded)
contender_left c ranked excluded (out, known) = omega (
  arith,
  remaining_retires c.info_hash ranked excluded (c.info_hash ∷ excluded)
      (λ t l. has_hash-append t (c.info_hash ∷ []) excluded l) out
      (has_hash_first c.info_hash excluded) known,
)

-- While a race is on, a candidate is left.
left_while_busy :
    (p : Phase) (ranked : List Candidate) (excluded : List Text)
    → PhaseContends p ranked excluded
    → busy p ≤ length (remaining ranked excluded)
unfolding busy
left_while_busy at_rest ranked excluded h = omega arith
left_while_busy (tearing_down []) ranked excluded (h, k) = elim h [ ]
left_while_busy (tearing_down (c ∷ cs)) ranked excluded (h, (k, l)) =
    contender_left c ranked excluded k
left_while_busy (racing []) ranked excluded (h, k) = elim h [ ]
left_while_busy (racing (r ∷ rs)) ranked excluded (h, (k, l)) =
    contender_left r.candidate ranked excluded k

count_races_bound :
    (s : Player) (es : List PlayerEvent)
    → All IsUndisturbed es
    → s.is_aborted ≡ false
    → PhaseContends s.phase s.ranked s.excluded
    → count_races s es + busy s.phase ≤ remaining_count s
unfolding count_races remaining_count
count_races_bound s [] u a h =
    let left : busy s.phase ≤ remaining_count s = left_while_busy s.phase s.ranked s.excluded h in
    omega (arith, left)
count_races_bound s (e ∷ es) (u, us) a h =
    let k = on_player-Pays s e u a h in
    let rest = count_races_bound (on_player s e).0 es us k.not_aborted k.contends in
    omega (arith, k.paid, rest)

remaining_of_all : (cs : List Candidate) → length (remaining cs []) ≤ length cs
unfolding remaining
remaining_of_all cs = length-filter-le (λ c. not (has_hash c.info_hash [])) cs

races_from_advance :
    (t : Player) (es : List PlayerEvent)
    → t.phase ≡ at_rest
    → t.is_aborted ≡ false
    → All IsUndisturbed es
    → (busy (advance t).0.phase - busy t.phase) + count_races (advance t).0 es ≤ remaining_count t
unfolding advance
races_from_advance t es p a u =
    let k = advance-Pays t.phase t refl a (rw (p) tt) in
    let rest = count_races_bound (advance t).0 es u k.not_aborted k.contends in
    omega (arith, k.paid, rest)

-- A call of `play` with candidates on a player at rest, and whatever the racers, the torrents and the
-- watchdog do then: as long as nobody calls `play` or `abort` again, at most as many races begin as the
-- call has taken up candidates.
pub count_races-play_list :
    (s : Player) (c : Candidate) (cs : List Candidate) (es : List PlayerEvent)
    → s.phase ≡ at_rest
    → All IsUndisturbed es
    → count_races s (plays (c ∷ cs) ∷ es) ≤ length (play_list (c ∷ cs))
unfolding count_races on_player play remaining_count
count_races-play_list s c cs es p u =
    le_trans
      (races_from_advance
        (record s { ranked = play_list (c ∷ cs); is_aborted = false; excluded = [] }) es p refl u)
      (remaining_of_all (play_list (c ∷ cs)))
