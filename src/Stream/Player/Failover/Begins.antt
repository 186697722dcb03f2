-- ===== src/Stream/Player/Failover/Begins.antt =====
-- streamServer.js: what a step does to the bound on the races, and the beginning of a race.
use swarmproof.Stream.Player.Failover.Counting.{
  remaining_count, busy, Contends, PhaseContends, Wider, remaining_retires, remaining-Contends,
  in_ranked,
}
use swarmproof.Base.{
  Bool, if◌then◌else◌, All-take, Option, ap, length-take, map, none, refl, some, take, All, List,
  [], arith, false, length, true, ℕ, ◌+◌, ◌-◌, ◌<◌, ◌∷◌, ◌≡◌, ◌≤◌,
}
use swarmproof.Stream.Player.{
  PlayOutcome, is_switching, resolved, Active, begin_race, begin_racing, do_advance, enter_race,
  max_racers, new_racer, Candidate, Phase, Player, at_rest, has_hash, racing, remaining,
  tearing_down,
}
use swarmproof.Stream.Player.Shortlist.{hashes_of}
use mathlib.Core.Path.{ap₂}
use swarmproof.Base.Text.{Text}

-- What a step does to the bound: a race that begins is paid for by the candidate that it retires.
pub record Pays (s s' : Player) : Type 0 where
  pub paid :
      (busy s'.phase - busy s.phase) + remaining_count s' + busy s.phase
      ≤ remaining_count s + busy s'.phase
  pub contends : PhaseContends s'.phase s'.ranked s'.excluded
  pub not_aborted : s'.is_aborted ≡ false

pub stays-Pays :
    (s s' : Player)
    → s'.phase ≡ s.phase
    → s'.ranked ≡ s.ranked
    → s'.excluded ≡ s.excluded
    → s'.is_aborted ≡ false
    → PhaseContends s.phase s.ranked s.excluded
    → Pays s s'
unfolding remaining_count
stays-Pays s s' p r e a h = record {
  paid =
      let same_count : length (remaining s'.ranked s'.excluded)
          ≡ length (remaining s.ranked s.excluded) =
        ap₂ (λ (x : List Candidate) (y : List Text). length (remaining x y)) r e in
      omega (arith, same_count, ap busy p);
  contends = rw (p, r, e) h;
  not_aborted = a;
}

pub ends-Pays :
    (s s' : Player) (h : Text)
    → busy s.phase ≡ 1
    → s'.phase ≡ at_rest
    → s'.ranked ≡ s.ranked
    → Wider s.excluded s'.excluded
    → has_hash h s.excluded ≡ false
    → has_hash h s'.excluded ≡ true
    → has_hash h (hashes_of s.ranked) ≡ true
    → s'.is_aborted ≡ false
    → Pays s s'
unfolding remaining_count busy
ends-Pays s s' h b p r w out into known a = record {
  paid =
      let fewer = remaining_retires h s.ranked s.excluded s'.excluded w out into known in
      let same_count : length (remaining s'.ranked s'.excluded)
          ≡ length (remaining s.ranked s'.excluded) =
        ap (λ (x : List Candidate). length (remaining x s'.excluded)) r in
      let idle : busy s'.phase ≡ 0 = ap busy p in omega (arith, fewer, same_count, b, idle);
  contends = rw (p) tt;
  not_aborted = a;
}

pub All-Contends-take :
    (n : ℕ) (cs ranked : List Candidate) (excluded : List Text)
    → All (Contends ranked excluded) cs
    → All (Contends ranked excluded) (take n cs)
All-Contends-take n cs ranked excluded h = All-take (Contends ranked excluded) n cs h

pub racers-Contends :
    (cs ranked : List Candidate) (excluded : List Text)
    → PhaseContends (tearing_down cs) ranked excluded
    → PhaseContends (begin_racing cs) ranked excluded
unfolding begin_racing
racers-Contends [] ranked excluded (h, k) = elim h [ ]
racers-Contends (c ∷ cs) ranked excluded (h, k) = (omega arith, started (c ∷ cs) k)
  where
    started :
        (ds : List Candidate)
        → All (Contends ranked excluded) ds
        → All (λ r. Contends ranked excluded r.candidate) (map new_racer ds)
    started [] l = tt
    started (d ∷ ds) (a, l) = (a, started ds l)

pub enter_race-Pays :
    (cs : List Candidate) (active : Option Active) (s : Player)
    → s.phase ≡ at_rest
    → s.is_aborted ≡ false
    → 0 < length cs
    → All (Contends s.ranked s.excluded) cs
    → Pays s (enter_race cs active s).0
unfolding enter_race remaining_count busy begin_racing
enter_race-Pays cs none s p a h k = record {
  paid = let idle : busy s.phase ≡ 0 = ap busy p in omega (arith, idle);
  contends = racers-Contends cs s.ranked s.excluded (h, k);
  not_aborted = a;
}
enter_race-Pays cs (some x) s p a h k = record {
  paid = let idle : busy s.phase ≡ 0 = ap busy p in omega (arith, idle);
  contends = (h, k);
  not_aborted = a;
}

pub begin_race-Pays :
    (cs : List Candidate) (s : Player)
    → s.phase ≡ at_rest
    → s.is_aborted ≡ false
    → All (Contends s.ranked s.excluded) cs
    → Pays s (begin_race cs s).0
unfolding begin_race
begin_race-Pays [] s p a h = stays-Pays s s refl refl refl a (rw (p) tt)
begin_race-Pays (c ∷ cs) s p a h =
    enter_race-Pays (take max_racers (c ∷ cs)) s.active s p a
      (omega (arith, length-take max_racers (c ∷ cs)))
      (All-Contends-take max_racers (c ∷ cs) s.ranked s.excluded h)

-- Only the phase, the candidates and what is excluded count.
pub advance-Pays_from :
    (s t s' : Player)
    → t.phase ≡ s.phase
    → t.ranked ≡ s.ranked
    → t.excluded ≡ s.excluded
    → Pays t s'
    → Pays s s'
unfolding remaining_count
advance-Pays_from s t s' p r e h = record {
  paid =
      let same_count : length (remaining t.ranked t.excluded)
          ≡ length (remaining s.ranked s.excluded) =
        ap₂ (λ (x : List Candidate) (y : List Text). length (remaining x y)) r e in
      omega (arith, same_count, ap busy p, h.paid);
  contends = h.contends;
  not_aborted = h.not_aborted;
}

pub unless-Pays :
    (s : Player) (b : Bool) (x y : Player × PlayOutcome)
    → b ≡ false
    → Pays s y.0
    → Pays s (if b then x else y).0
unless-Pays s true x y e h = let off : ⊥ = cc in elim off [ ]
unless-Pays s false x y e h = h

pub if-Pays :
    (s : Player) (b : Bool) (x y : Player × PlayOutcome)
    → (b ≡ true → Pays s x.0)
    → (b ≡ false → Pays s y.0)
    → Pays s (if b then x else y).0
if-Pays s true x y h k = h refl
if-Pays s false x y h k = k refl

pub do_advance-Pays :
    (s : Player) → s.phase ≡ at_rest → s.is_aborted ≡ false → Pays s (do_advance s).0
unfolding do_advance
do_advance-Pays s p a =
    let t = record s { watch = none } in
    let pays =
      begin_race-Pays (remaining s.ranked s.excluded) t p a
        (remaining-Contends s.ranked s.ranked s.excluded (in_ranked s.ranked)) in
    unless-Pays s s.is_aborted _ _ a (advance-Pays_from s t _ refl refl refl pays)

pub advance-Pays :
    (p : Phase) (s : Player)
    → s.phase ≡ p
    → s.is_aborted ≡ false
    → PhaseContends s.phase s.ranked s.excluded
    → Pays s (if is_switching p then (s, resolved) else do_advance s).0
unfolding is_switching
advance-Pays at_rest s e a h = do_advance-Pays s e a
advance-Pays (tearing_down cs) s e a h = stays-Pays s s refl refl refl a h
advance-Pays (racing rs) s e a h = stays-Pays s s refl refl refl a h
