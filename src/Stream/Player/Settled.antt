-- ===== src/Stream/Player/Settled.antt =====
-- streamServer.js: a race comes to an end when its candidates do.
use swarmproof.Base.{
  if◌then◌else◌, length, take, ◌∙◌, ◌≤◌, Bool, Bool-cases, [], any, ap, arith, inl, inr, suc, sym,
  zero, ◌==◌, List, Option, false, none, refl, some, true, ℕ, ◌∷◌, ◌≡◌,
}
use swarmproof.Stream.Player.{
  PlayOutcome, tick_with, waiting, new_player, tick, torn_down, RacerEnd, give_up, old_destroyed,
  racer_lost, ticks, Candidate, Player, PlayerEvent, Racer, abort, advance, aborts, on_player, play,
  playable_file, plays, racer_at, racer_done, racer_ended, racer_ends, racer_won, racing,
  run_player, is_switching, Phase, at_rest,
}
use swarmproof.Stream.Watchdog.{Reading}
use mathlib.Core.Path.{subst}
use swarmproof.Stream.Player.Busy.{PhaseOk, run_player-IsSound}
use mathlib.Core.Option.{some-injective}
use swarmproof.Stream.Media.{File}
use swarmproof.Crawler.Stages.{nth}

-- Whether an event is the end of the racer at a place.
unfoldable pub is_end_of : ℕ → PlayerEvent → Bool
is_end_of i (plays cs) = false
is_end_of i old_destroyed = false
is_end_of i (racer_ends j e downloaded now) = i == j
is_end_of i aborts = false
is_end_of i (ticks r) = false

-- Every racer that is awaited ends among the events.
abbrev AllEnd : List Racer → List PlayerEvent → Type 0
AllEnd rs es =
    (i : ℕ) (r : Racer) → nth i rs ≡ some r → r.waits ≡ true → any (is_end_of i) es ≡ true

first_waiting :
    (rs : List Racer)
    → any (λ r. r.waits) rs ≡ true
    → (i : ℕ) × (r : Racer) × (nth i rs ≡ some r) × (r.waits ≡ true)
unfolding nth
first_waiting [] h = let off : ⊥ = cc in elim off [ ]
first_waiting (r ∷ rs) h = elim (Bool-cases r.waits) [
  | inl e ↦ (0, r, refl, e)
  | inr e ↦
      let more : any (λ r. r.waits) rs ≡ true = ground (arith, h, e) in
      let (i, q, n, w) = first_waiting rs more in (suc i, q, n, w)
]

-- The racers that are awaited when one has given up were awaited before, and are others.
nth-give_up :
    (i j : ℕ) (rs : List Racer) (r : Racer)
    → nth i (give_up j rs) ≡ some r
    → r.waits ≡ true
    → (nth i rs ≡ some r) × ((i == j) ≡ false)
unfolding nth give_up
nth-give_up i j [] r n w = let off : ⊥ = cc in elim off [ ]
nth-give_up zero zero (x ∷ rs) r n w =
    let gone : r.waits ≡ false = ap (λ (y : Racer). y.waits) (sym (some-injective _ _ n)) in
    let off : ⊥ = cc in elim off [ ]
nth-give_up zero (suc j) (x ∷ rs) r n w = (n, ground arith)
nth-give_up (suc i) zero (x ∷ rs) r n w = (n, ground arith)
nth-give_up (suc i) (suc j) (x ∷ rs) r n w =
    let (m, other) = nth-give_up i j rs r n w in (m, ground (arith, other))

-- What a step leaves of a race: nothing, or the racers that are awaited but for the one that ended.
data Left (e : PlayerEvent) (rs : List Racer) (s' : Player) : Type 0 where
  race_over : s'.phase ≡ at_rest → Left e rs s'
  race_on :
      (rs' : List Racer)
      → s'.phase ≡ racing rs'
      → any (λ r. r.waits) rs' ≡ true
      → ((i : ℕ) (r : Racer)
          → nth i rs' ≡ some r
          → r.waits ≡ true
          → (nth i rs ≡ some r) × (is_end_of i e ≡ false))
      → Left e rs s'

racer_lost-Left :
    (j : ℕ) (x : RacerEnd) (downloaded now : ℕ) (rs : List Racer) (s : Player)
    → Left (racer_ends j x downloaded now) rs (racer_lost (give_up j rs) s).0
unfolding racer_lost is_end_of
racer_lost-Left j x downloaded now rs s = elim (Bool-cases (any (λ r. r.waits) (give_up j rs))) [
  | inl e ↦ rw (e) (race_on (give_up j rs) refl e (λ i r n w. nth-give_up i j rs r n w))
  | inr e ↦ rw (e) (race_over refl)
]

racer_won-Left :
    (e : PlayerEvent) (rs : List Racer) (c : Candidate) (file : File) (downloaded now : ℕ)
    (s : Player)
    → Left e rs (racer_won c file downloaded now s).0
unfolding racer_won
racer_won-Left e rs c file downloaded now s = elim (Bool-cases s.is_aborted) [
  | inl k ↦ rw (k) (race_over refl)
  | inr k ↦ rw (k) (race_over refl)
]

racer_done-Left :
    (j : ℕ) (x : RacerEnd) (downloaded now : ℕ) (rs : List Racer) (c : Candidate)
    (file : Option File) (s : Player)
    → Left (racer_ends j x downloaded now) rs (racer_done j rs c file downloaded now s).0
unfolding racer_done
racer_done-Left j x downloaded now rs c none s = racer_lost-Left j x downloaded now rs s
racer_done-Left j x downloaded now rs c (some file) s =
    racer_won-Left (racer_ends j x downloaded now) rs c file downloaded now s

same_race :
    (e : PlayerEvent) (rs : List Racer) (s' : Player)
    → s'.phase ≡ racing rs
    → any (λ r. r.waits) rs ≡ true
    → ((i : ℕ) (r : Racer) → nth i rs ≡ some r → r.waits ≡ true → is_end_of i e ≡ false)
    → Left e rs s'
same_race e rs s' p h others = race_on rs p h (λ i r n w. (n, others i r n w))

racer_at-Left :
    (j : ℕ) (x : RacerEnd) (downloaded now : ℕ) (rs : List Racer) (o : Option Racer) (s : Player)
    → nth j rs ≡ o
    → s.phase ≡ racing rs
    → any (λ r. r.waits) rs ≡ true
    → Left (racer_ends j x downloaded now) rs (racer_at j rs o x downloaded now s).0
unfolding racer_at is_end_of
racer_at-Left j x downloaded now rs none s n p h =
    same_race (racer_ends j x downloaded now) rs s p h (λ i r m w. elim (Bool-cases (i == j)) [
      | inl k ↦ let same_place : i ≡ j = ground (arith, k) in let off : ⊥ = cc in elim off [ ]
      | inr k ↦ k
    ])
racer_at-Left j x downloaded now rs (some r) s n p h = elim (Bool-cases r.waits) [
  | inl e ↦ rw (e) (racer_done-Left j x downloaded now rs r.candidate (playable_file x) s)
  | inr e ↦ rw (e) (
      same_race (racer_ends j x downloaded now) rs s p h (λ i q m w. elim (Bool-cases (i == j)) [
        | inl k ↦
            let same_place : i ≡ j = ground (arith, k) in
            let same_racer : q ≡ r =
              some-injective _ _ (sym m ∙ ap (λ (v : ℕ). nth v rs) same_place ∙ n) in
            let off : ⊥ = cc in elim off [ ]
        | inr k ↦ k
      ]))
]

play_racing :
    (cs : List Candidate) (rs : List Racer) (s : Player)
    → s.phase ≡ racing rs
    → (play cs s).0.phase ≡ racing rs
unfolding play advance is_switching
play_racing [] rs s p = p
play_racing (c ∷ cs) rs s p = rw (p) refl

tick_racing :
    (r : Reading) (rs : List Racer) (s : Player) → s.phase ≡ racing rs → tick r s ≡ (s, waiting)
unfolding tick is_switching
tick_racing r rs s p =
    ap (λ (q : Phase). if is_switching q then (s, waiting) else tick_with s.watch s.active r s) p

on_player-Left :
    (e : PlayerEvent) (rs : List Racer) (s : Player)
    → s.phase ≡ racing rs
    → any (λ r. r.waits) rs ≡ true
    → Left e rs (on_player s e).0
unfolding on_player racer_ended torn_down abort tick is_switching is_end_of
on_player-Left (plays cs) rs s p h =
    same_race (plays cs) rs (play cs s).0 (play_racing cs rs s p) h (λ i r n w. refl)
on_player-Left old_destroyed rs s p h = race_on rs (rw (p) refl) h (λ i r n w. (n, refl))
on_player-Left (racer_ends j x downloaded now) rs s p h =
    subst
      (λ (q : Phase).
        Left (racer_ends j x downloaded now) rs (racer_ended j x downloaded now q s).0)
      (sym p) (racer_at-Left j x downloaded now rs (nth j rs) s refl p h)
on_player-Left aborts rs s p h = race_on rs p h (λ i r n w. (n, refl))
on_player-Left (ticks r) rs s p h =
    same_race (ticks r) rs (tick r s).0
      (ap (λ (x : Player × PlayOutcome). x.0.phase) (tick_racing r rs s p) ∙ p) h (λ i q n w. refl)

rest_after :
    (s : Player) (rs : List Racer) (es : List PlayerEvent)
    → s.phase ≡ racing rs
    → any (λ r. r.waits) rs ≡ true
    → AllEnd rs es
    → (n : ℕ) × (n ≤ length es) × ((run_player s (take n es)).phase ≡ at_rest)
unfolding run_player
rest_after s rs [] p h ends =
    let (i, r, n, w) = first_waiting rs h in
    let none_ends : false ≡ true = ends i r n w in let off : ⊥ = cc in elim off [ ]
rest_after s rs (e ∷ es) p h ends = elim (on_player-Left e rs s p h) [
  | race_over q ↦ (1, omega arith, q)
  | race_on rs' q more others ↦
      let (n, few, rest) = rest_after (on_player s e).0 rs' es q more (λ i r m w.
        let (was, other) = others i r m w in
        let here : any (is_end_of i) (e ∷ es) ≡ true = ends i r was w in
        ground (arith, here, other)) in
      (suc n, omega (arith, few), rest)
]

racing-PhaseOk :
    (s : Player) (rs : List Racer)
    → s.phase ≡ racing rs
    → PhaseOk s.phase s.active s.watch
    → any (λ r. r.waits) rs ≡ true
racing-PhaseOk s rs p h = (subst (λ (q : Phase). PhaseOk q s.active s.watch) p h).0

-- From any state that the player reaches while a race is on: if among the events that follow, whatever
-- else happens between them, each racer that is still awaited ends, then at one of these events the
-- player is at rest again, so that a call of `play` is not ignored for good.
pub run_player_settles :
    (past : List PlayerEvent) (rs : List Racer) (es : List PlayerEvent)
    → (run_player new_player past).phase ≡ racing rs
    → AllEnd rs es
    → (n : ℕ) × (n ≤ length es)
      × ((run_player (run_player new_player past) (take n es)).phase ≡ at_rest)
run_player_settles past rs es p ends =
    let s = run_player new_player past in
    rest_after s rs es p (racing-PhaseOk s rs p (run_player-IsSound past).phase_ok) ends
