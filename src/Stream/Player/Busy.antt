-- ===== src/Stream/Player/Busy.antt =====
-- streamServer.js: what holds of the player between any two steps.
use swarmproof.Base.{
  Bool, false, zero, ℕ, ap, if◌then◌else◌, length-take, some, suc, take, Bool-cases, List, Option,
  [], any, arith, inl, inr, length, map, none, refl, true, ◌<◌, ◌∷◌, ◌≡◌, ◌≢◌, ◌≤◌,
}
use swarmproof.Crawler.Stages.{nth}
use swarmproof.Stream.Media.{File}
use swarmproof.Stream.Player.{
  PlayOutcome, PlayerEvent, RacerEnd, abort, aborts, apply_check, enter_race, give_up, new_player,
  old_destroyed, on_player, play, playable_file, plays, racer_at, racer_done, racer_ended,
  racer_ends, racer_won, run_player, tick, tick_with, ticks, torn_down, waiting, advance,
  do_advance, is_switching, new_racer, remaining, resolved, Active, Candidate, Phase, Player, Racer,
  at_rest, begin_race, begin_racing, max_racers, racer_lost, racing, tearing_down,
}
use swarmproof.Stream.Watchdog.{Reading, check_swarm, Watch}

-- A race has one to four candidates, of which one is still awaited; meanwhile no torrent is active.
abbrev pub PhaseOk : Phase → Option Active → Option Watch → Type 0
PhaseOk at_rest active watch = watch ≢ none → active ≢ none
PhaseOk (tearing_down cs) active watch =
    (0 < length cs) × (length cs ≤ max_racers) × (active ≡ none) × (watch ≡ none)
PhaseOk (racing rs) active watch =
    (any (λ r. r.waits) rs ≡ true) × (length rs ≤ max_racers) × (active ≡ none) × (watch ≡ none)

pub record IsSound (s : Player) : Type 0 where
  pub phase_ok : PhaseOk s.phase s.active s.watch

length-new_racer : (cs : List Candidate) → length (map new_racer cs) ≡ length cs
length-new_racer [] = refl
length-new_racer (c ∷ cs) = ap suc (length-new_racer cs)

begin_racing-PhaseOk :
    (cs : List Candidate) (active : Option Active) (watch : Option Watch)
    → PhaseOk (tearing_down cs) active watch
    → PhaseOk (begin_racing cs) active watch
unfolding begin_racing
begin_racing-PhaseOk [] active watch (h, k, a, w) = elim h [ ]
begin_racing-PhaseOk (c ∷ cs) active watch (h, k, a, w) =
    (refl, omega (arith, k, length-new_racer cs), a, w)

short_start :
    (c : Candidate) (cs : List Candidate)
    → (0 < length (take max_racers (c ∷ cs))) × (length (take max_racers (c ∷ cs)) ≤ max_racers)
short_start c cs = omega (arith, length-take max_racers (c ∷ cs))

enter_race-IsSound :
    (cs : List Candidate) (active : Option Active) (s : Player)
    → 0 < length cs
    → length cs ≤ max_racers
    → s.active ≡ active
    → s.watch ≡ none
    → IsSound (enter_race cs active s).0
unfolding enter_race
enter_race-IsSound cs none s h k a w = record {
  phase_ok = begin_racing-PhaseOk cs s.active s.watch (h, k, a, w);
}
enter_race-IsSound cs (some x) s h k a w = record { phase_ok = (h, k, refl, w) }

at_rest-PhaseOk :
    (p : Phase) (active : Option Active) (watch : Option Watch)
    → p ≡ at_rest
    → watch ≡ none
    → PhaseOk p active watch
at_rest-PhaseOk at_rest active watch p w = λ k. absurd (k w)
at_rest-PhaseOk (tearing_down cs) active watch p w = let no_rest : ⊥ = cc in elim no_rest [ ]
at_rest-PhaseOk (racing rs) active watch p w = let no_rest : ⊥ = cc in elim no_rest [ ]

begin_race-IsSound :
    (cs : List Candidate) (s : Player)
    → s.phase ≡ at_rest
    → s.watch ≡ none
    → IsSound (begin_race cs s).0
unfolding begin_race
begin_race-IsSound [] s p w = record { phase_ok = at_rest-PhaseOk s.phase s.active s.watch p w }
begin_race-IsSound (c ∷ cs) s p w =
    let (some_in, few) = short_start c cs in
    enter_race-IsSound (take max_racers (c ∷ cs)) s.active s some_in few refl w

if-IsSound :
    (b : Bool) (x y : Player × PlayOutcome)
    → IsSound x.0
    → IsSound y.0
    → IsSound (if b then x else y).0
if-IsSound true x y h k = h
if-IsSound false x y h k = k

do_advance-IsSound : (s : Player) → s.phase ≡ at_rest → IsSound (do_advance s).0
unfolding do_advance
do_advance-IsSound s p =
    if-IsSound s.is_aborted _ _ (record { phase_ok = at_rest-PhaseOk s.phase s.active none p refl })
      (begin_race-IsSound (remaining s.ranked s.excluded) (record s { watch = none }) p refl)

racer_lost-IsSound :
    (rs : List Racer) (s : Player)
    → length rs ≤ max_racers
    → s.active ≡ none
    → s.watch ≡ none
    → IsSound (racer_lost rs s).0
unfolding racer_lost
racer_lost-IsSound rs s h a w = elim (Bool-cases (any (λ r. r.waits) rs)) [
  | inl e ↦ rw (e) (record { phase_ok = (e, h, a, w) })
  | inr e ↦ rw (e) (record { phase_ok = λ k. absurd (k w) })
]

advance_in :
    (p : Phase) (s : Player)
    → s.phase ≡ p
    → IsSound s
    → IsSound (if is_switching p then (s, resolved) else do_advance s).0
unfolding is_switching
advance_in at_rest s e h = do_advance-IsSound s e
advance_in (tearing_down cs) s e h = h
advance_in (racing rs) s e h = h

advance-IsSound : (s : Player) → IsSound s → IsSound (advance s).0
unfolding advance
advance-IsSound s h = advance_in s.phase s refl h

play-IsSound : (cs : List Candidate) (s : Player) → IsSound s → IsSound (play cs s).0
unfolding play
play-IsSound [] s h = record { phase_ok = h.phase_ok }
play-IsSound (c ∷ cs) s h = advance-IsSound _ (record { phase_ok = h.phase_ok })

torn_down-PhaseOk :
    (p : Phase) (active : Option Active) (watch : Option Watch)
    → PhaseOk p active watch
    → PhaseOk (torn_down p) active watch
unfolding torn_down
torn_down-PhaseOk at_rest active watch h = h
torn_down-PhaseOk (tearing_down cs) active watch h = begin_racing-PhaseOk cs active watch h
torn_down-PhaseOk (racing rs) active watch h = h

pub length-give_up : (i : ℕ) (rs : List Racer) → length (give_up i rs) ≡ length rs
unfolding give_up
length-give_up i [] = refl
length-give_up zero (r ∷ rs) = refl
length-give_up (suc i) (r ∷ rs) = ap suc (length-give_up i rs)

racer_won-IsSound :
    (c : Candidate) (file : File) (downloaded now : ℕ) (s : Player)
    → s.watch ≡ none
    → IsSound (racer_won c file downloaded now s).0
unfolding racer_won
racer_won-IsSound c file downloaded now s w =
    if-IsSound s.is_aborted _ _ (record { phase_ok = λ k. absurd (k w) })
      (record { phase_ok = λ k e. cc })

racer_done-IsSound :
    (i : ℕ) (rs : List Racer) (c : Candidate) (o : Option File) (downloaded now : ℕ) (s : Player)
    → length rs ≤ max_racers
    → s.active ≡ none
    → s.watch ≡ none
    → IsSound (racer_done i rs c o downloaded now s).0
unfolding racer_done
racer_done-IsSound i rs c none downloaded now s h a w =
    racer_lost-IsSound (give_up i rs) s (omega (arith, h, length-give_up i rs)) a w
racer_done-IsSound i rs c (some file) downloaded now s h a w =
    racer_won-IsSound c file downloaded now s w

racer_at-IsSound :
    (i : ℕ) (rs : List Racer) (o : Option Racer) (e : RacerEnd) (downloaded now : ℕ) (s : Player)
    → length rs ≤ max_racers
    → s.active ≡ none
    → s.watch ≡ none
    → IsSound s
    → IsSound (racer_at i rs o e downloaded now s).0
unfolding racer_at
racer_at-IsSound i rs none e downloaded now s h a w k = k
racer_at-IsSound i rs (some r) e downloaded now s h a w k =
    if-IsSound r.waits _ _
      (racer_done-IsSound i rs r.candidate (playable_file e) downloaded now s h a w) k

racer_ended-IsSound :
    (i : ℕ) (e : RacerEnd) (downloaded now : ℕ) (p : Phase) (s : Player)
    → PhaseOk p s.active s.watch
    → IsSound s
    → IsSound (racer_ended i e downloaded now p s).0
unfolding racer_ended
racer_ended-IsSound i e downloaded now at_rest s h k = k
racer_ended-IsSound i e downloaded now (tearing_down cs) s h k = k
racer_ended-IsSound i e downloaded now (racing rs) s (some_wait, few, a, w) k =
    racer_at-IsSound i rs (nth i rs) e downloaded now s few a w k

abort-PhaseOk :
    (p : Phase) (active : Option Active) (watch : Option Watch)
    → PhaseOk p active watch
    → PhaseOk p none none
abort-PhaseOk at_rest active watch h = λ k. absurd (k refl)
abort-PhaseOk (tearing_down cs) active watch (h, k, a, w) = (h, k, refl, refl)
abort-PhaseOk (racing rs) active watch (h, k, a, w) = (h, k, refl, refl)

watched-PhaseOk :
    (p : Phase) (active : Option Active) (x : Active) (w : Option Watch)
    → p ≡ at_rest
    → active ≡ some x
    → PhaseOk p active w
watched-PhaseOk at_rest active x w p e = λ k l. cc
watched-PhaseOk (tearing_down cs) active x w p e = let no_rest : ⊥ = cc in elim no_rest [ ]
watched-PhaseOk (racing rs) active x w p e = let no_rest : ⊥ = cc in elim no_rest [ ]

tick_with-IsSound :
    (w : Option Watch) (a : Option Active) (r : Reading) (s : Player)
    → s.phase ≡ at_rest
    → s.active ≡ a
    → IsSound s
    → IsSound (tick_with w a r s).0
unfolding tick_with apply_check
tick_with-IsSound none a r s p e h = h
tick_with-IsSound (some w) none r s p e h = h
tick_with-IsSound (some w) (some x) r s p e h =
    let k = check_swarm s.strikes w r in
    let s' = record s { watch = some k.watch; strikes = k.strikes } in
    let still : IsSound s' = record {
      phase_ok = watched-PhaseOk s.phase s.active x (some k.watch) p e;
    } in
    if-IsSound k.fails_over _ _ (advance-IsSound s' still) still

tick_in :
    (p : Phase) (r : Reading) (s : Player)
    → s.phase ≡ p
    → IsSound s
    → IsSound (if is_switching p then (s, waiting) else tick_with s.watch s.active r s).0
unfolding is_switching
tick_in at_rest r s e h = tick_with-IsSound s.watch s.active r s e refl h
tick_in (tearing_down cs) r s e h = h
tick_in (racing rs) r s e h = h

on_player-IsSound : (s : Player) (e : PlayerEvent) → IsSound s → IsSound (on_player s e).0
unfolding on_player tick abort
on_player-IsSound s (plays cs) h = play-IsSound cs s h
on_player-IsSound s old_destroyed h = record {
  phase_ok = torn_down-PhaseOk s.phase s.active s.watch h.phase_ok;
}
on_player-IsSound s (racer_ends i e downloaded now) h =
    racer_ended-IsSound i e downloaded now s.phase s h.phase_ok h
on_player-IsSound s aborts h = record {
  phase_ok = abort-PhaseOk s.phase s.active s.watch h.phase_ok;
}
on_player-IsSound s (ticks r) h = tick_in s.phase r s refl h

run_player-IsSound_from :
    (s : Player) (es : List PlayerEvent) → IsSound s → IsSound (run_player s es)
unfolding run_player
run_player-IsSound_from s [] h = h
run_player-IsSound_from s (e ∷ es) h =
    run_player-IsSound_from (on_player s e).0 es (on_player-IsSound s e h)

-- After any events in any order: a race has one to four candidates and is never left with none that is
-- awaited; during a race no torrent is active and no timer watches one; and the timer watches nothing
-- but an active torrent.
pub run_player-IsSound : (es : List PlayerEvent) → IsSound (run_player new_player es)
unfolding new_player
run_player-IsSound es =
    run_player-IsSound_from new_player es (record { phase_ok = λ k. absurd (k refl) })
