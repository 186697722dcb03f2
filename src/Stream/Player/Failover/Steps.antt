-- ===== src/Stream/Player/Failover/Steps.antt =====
-- streamServer.js: each step of the player pays for the race that it begins.
use swarmproof.Stream.Player.Failover.Counting.{
  remaining_count, busy, IsUndisturbed, Contends, PhaseContends,
}
use swarmproof.Base.{
  any, suc, zero, ◌++◌, Option, ap, map, none, refl, some, All, List, [], arith, false, length,
  true, ℕ, ◌+◌, ◌-◌, ◌<◌, ◌∷◌, ◌≡◌, ◌≤◌,
}
use swarmproof.Stream.Player.{
  RacerEnd, advance, apply_check, playable_file, racer_at, racer_done, racer_ended, tick, tick_with,
  torn_down, Racer, give_up, is_switching, racer_hash, racer_lost, racer_won, Active, begin_racing,
  Candidate, Phase, Player, PlayerEvent, aborts, at_rest, has_hash, old_destroyed, on_player, plays,
  racer_ends, racing, tearing_down, ticks,
}
use swarmproof.Stream.Player.Busy.{length-give_up}
use swarmproof.Stream.Player.Shortlist.{has_hash_first}
use swarmproof.Stream.Watchdog.{Reading, Watch, check_swarm}
use mathlib.Core.Option.{some-injective}
use swarmproof.Crawler.Stages.{nth}
use swarmproof.Stream.Media.{File}
use mathlib.Core.Path.{subst}
use swarmproof.Base.Text.{Text}
use swarmproof.Stream.Player.Failover.Begins.{
  Pays, stays-Pays, ends-Pays, racers-Contends, advance-Pays_from, unless-Pays, if-Pays,
  advance-Pays,
}

pub has_hash-append :
    (h : Text) (hs ks : List Text) → has_hash h ks ≡ true → has_hash h (hs ++ ks) ≡ true
unfolding has_hash
has_hash-append h [] ks e = e
has_hash-append h (x ∷ hs) ks e = ground (arith, has_hash-append h hs ks e)

abbrev pub AllContend : Player → List Racer → Type 0
AllContend s rs = All (λ r. Contends s.ranked s.excluded r.candidate) rs

pub give_up-AllContend :
    (i : ℕ) (s : Player) (rs : List Racer) → AllContend s rs → AllContend s (give_up i rs)
unfolding give_up
give_up-AllContend i s [] h = tt
give_up-AllContend zero s (r ∷ rs) (a, h) = (a, h)
give_up-AllContend (suc i) s (r ∷ rs) (a, h) = (a, give_up-AllContend i s rs h)

pub nth-AllContend :
    (i : ℕ) (s : Player) (rs : List Racer) (r : Racer)
    → nth i rs ≡ some r
    → AllContend s rs
    → Contends s.ranked s.excluded r.candidate
unfolding nth
nth-AllContend i s [] r e h = let off : ⊥ = cc in elim off [ ]
nth-AllContend zero s (x ∷ rs) r e (a, h) =
    subst (λ (y : Racer). Contends s.ranked s.excluded y.candidate) (some-injective _ _ e) a
nth-AllContend (suc i) s (x ∷ rs) r e (a, h) = nth-AllContend i s rs r e h

pub racer_lost-Pays :
    (rs : List Racer) (s : Player)
    → busy s.phase ≡ 1
    → s.is_aborted ≡ false
    → 0 < length rs
    → AllContend s rs
    → Pays s (racer_lost rs s).0
unfolding racer_lost busy remaining_count
racer_lost-Pays [] s b a h k = elim h [ ]
racer_lost-Pays (r ∷ rs) s b a h ((out, known), k) =
    if-Pays s (any (λ x. x.waits) (r ∷ rs)) _ _
      (λ e. record {
        paid = lost_paid s (r ∷ rs) b;
        contends = (h, ((out, known), k));
        not_aborted = a;
      })
      (λ e.
        ends-Pays s _ (racer_hash r) b refl refl
          (λ t l. has_hash-append t (map racer_hash (r ∷ rs)) s.excluded l) out
          (has_hash_first (racer_hash r) (map racer_hash rs ++ s.excluded)) known a)
  where
    lost_paid :
        (q : Player) (xs : List Racer)
        → busy q.phase ≡ 1
        → (1 - busy q.phase) + remaining_count q + busy q.phase ≤ remaining_count q + 1
    lost_paid q xs l = omega (arith, l)

pub racer_won-Pays :
    (c : Candidate) (file : File) (downloaded now : ℕ) (s : Player)
    → busy s.phase ≡ 1
    → s.is_aborted ≡ false
    → Contends s.ranked s.excluded c
    → Pays s (racer_won c file downloaded now s).0
unfolding racer_won
racer_won-Pays c file downloaded now s b a (out, known) = unless-Pays s s.is_aborted _ _ a (
    ends-Pays s _ c.info_hash b refl refl (λ t l. has_hash-append t (c.info_hash ∷ []) s.excluded l)
      out (has_hash_first c.info_hash s.excluded) known a)

pub racer_done-Pays :
    (i : ℕ) (rs : List Racer) (c : Candidate) (o : Option File) (downloaded now : ℕ) (s : Player)
    → busy s.phase ≡ 1
    → s.is_aborted ≡ false
    → 0 < length rs
    → AllContend s rs
    → Contends s.ranked s.excluded c
    → Pays s (racer_done i rs c o downloaded now s).0
unfolding racer_done
racer_done-Pays i rs c none downloaded now s b a h k l =
    racer_lost-Pays (give_up i rs) s b a (omega (arith, h, length-give_up i rs))
      (give_up-AllContend i s rs k)
racer_done-Pays i rs c (some file) downloaded now s b a h k l =
    racer_won-Pays c file downloaded now s b a l

pub racer_at-Pays :
    (i : ℕ) (rs : List Racer) (o : Option Racer) (e : RacerEnd) (downloaded now : ℕ) (s : Player)
    → s.phase ≡ racing rs
    → s.is_aborted ≡ false
    → nth i rs ≡ o
    → PhaseContends (racing rs) s.ranked s.excluded
    → Pays s (racer_at i rs o e downloaded now s).0
unfolding racer_at busy
racer_at-Pays i rs none e downloaded now s p a n h = stays-Pays s s refl refl refl a (rw (p) h)
racer_at-Pays i rs (some r) e downloaded now s p a n (h, k) =
    if-Pays s r.waits _ _
      (λ w.
        racer_done-Pays i rs r.candidate (playable_file e) downloaded now s (ap busy p) a h k
          (nth-AllContend i s rs r n k))
      (λ w. stays-Pays s s refl refl refl a (rw (p) (h, k)))

pub racer_ended-Pays :
    (i : ℕ) (e : RacerEnd) (downloaded now : ℕ) (p : Phase) (s : Player)
    → s.phase ≡ p
    → s.is_aborted ≡ false
    → PhaseContends p s.ranked s.excluded
    → Pays s (racer_ended i e downloaded now p s).0
unfolding racer_ended
racer_ended-Pays i e downloaded now at_rest s q a h = stays-Pays s s refl refl refl a (rw (q) h)
racer_ended-Pays i e downloaded now (tearing_down cs) s q a h =
    stays-Pays s s refl refl refl a (rw (q) h)
racer_ended-Pays i e downloaded now (racing rs) s q a h =
    racer_at-Pays i rs (nth i rs) e downloaded now s q a refl h

pub old_destroyed-Pays :
    (p : Phase) (s : Player)
    → s.phase ≡ p
    → s.is_aborted ≡ false
    → PhaseContends p s.ranked s.excluded
    → Pays s (record s { phase = torn_down p })
unfolding torn_down remaining_count busy begin_racing
old_destroyed-Pays at_rest s q a h = record {
  paid = let idle : busy s.phase ≡ 0 = ap busy q in omega (arith, idle);
  contends = h;
  not_aborted = a;
}
old_destroyed-Pays (tearing_down cs) s q a h = record {
  paid = let on : busy s.phase ≡ 1 = ap busy q in omega (arith, on);
  contends = racers-Contends cs s.ranked s.excluded h;
  not_aborted = a;
}
old_destroyed-Pays (racing rs) s q a h = record {
  paid = let on : busy s.phase ≡ 1 = ap busy q in omega (arith, on);
  contends = h;
  not_aborted = a;
}

pub tick_with-Pays :
    (w : Option Watch) (x : Option Active) (r : Reading) (s : Player)
    → s.is_aborted ≡ false
    → PhaseContends s.phase s.ranked s.excluded
    → Pays s (tick_with w x r s).0
unfolding tick_with apply_check advance
tick_with-Pays none x r s a h = stays-Pays s s refl refl refl a h
tick_with-Pays (some w) none r s a h = stays-Pays s s refl refl refl a h
tick_with-Pays (some w) (some x) r s a h =
    let k = check_swarm s.strikes w r in
    let t = record s { watch = some k.watch; strikes = k.strikes } in
    if-Pays s k.fails_over _ _
      (λ e. advance-Pays_from s t _ refl refl refl (advance-Pays s.phase t refl a h))
      (λ e. stays-Pays s t refl refl refl a h)

pub on_player-Pays :
    (s : Player) (e : PlayerEvent)
    → IsUndisturbed e
    → s.is_aborted ≡ false
    → PhaseContends s.phase s.ranked s.excluded
    → Pays s (on_player s e).0
unfolding on_player tick
on_player-Pays s (plays cs) u a h = elim u [ ]
on_player-Pays s old_destroyed u a h = old_destroyed-Pays s.phase s refl a h
on_player-Pays s (racer_ends i e downloaded now) u a h =
    racer_ended-Pays i e downloaded now s.phase s refl a h
on_player-Pays s aborts u a h = elim u [ ]
on_player-Pays s (ticks r) u a h =
    if-Pays s (is_switching s.phase) _ _ (λ e. stays-Pays s s refl refl refl a h)
      (λ e. tick_with-Pays s.watch s.active r s a h)
