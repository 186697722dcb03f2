-- ===== src/Stream/Player/Failover/Counting.antt =====
-- streamServer.js: the candidates that remain, and those that race.
use swarmproof.Base.{
  Bool-cases, inl, inr, sym, All, List, [], arith, false, length, true, ℕ, ◌+◌, ◌-◌, ◌<◌, ◌∷◌, ◌≡◌,
  ◌≤◌,
}
use swarmproof.Stream.Player.{
  Candidate, Phase, Player, PlayerEvent, aborts, at_rest, has_hash, old_destroyed, on_player, plays,
  racer_ends, racing, remaining, tearing_down, ticks,
}
use swarmproof.Stream.Player.Shortlist.{hashes_of}
use mathlib.Core.Path.{subst}
use swarmproof.Base.Text.{same, same→eq, Text, same_refl}

unfoldable pub remaining_count : Player → ℕ
remaining_count s = length (remaining s.ranked s.excluded)

unfoldable pub busy : Phase → ℕ
busy at_rest = 0
busy (tearing_down cs) = 1
busy (racing rs) = 1

-- The races that begin in a run.
unfoldable pub count_races : Player → List PlayerEvent → ℕ
unfolding busy
count_races s [] = 0
count_races s (e ∷ es) =
    let s' = (on_player s e).0 in (busy s'.phase - busy s.phase) + count_races s' es

-- Nobody calls `play` or `abort`.
abbrev pub IsUndisturbed : PlayerEvent → Type 0
IsUndisturbed (plays cs) = ⊥
IsUndisturbed old_destroyed = Unit
IsUndisturbed (racer_ends i e downloaded now) = Unit
IsUndisturbed aborts = ⊥
IsUndisturbed (ticks r) = Unit

abbrev pub Contends : List Candidate → List Text → Candidate → Type 0
Contends ranked excluded c =
    (has_hash c.info_hash excluded ≡ false) × (has_hash c.info_hash (hashes_of ranked) ≡ true)

abbrev pub PhaseContends : Phase → List Candidate → List Text → Type 0
PhaseContends at_rest ranked excluded = Unit
PhaseContends (tearing_down cs) ranked excluded =
    (0 < length cs) × All (Contends ranked excluded) cs
PhaseContends (racing rs) ranked excluded =
    (0 < length rs) × All (λ r. Contends ranked excluded r.candidate) rs

-- What is excluded stays excluded.
abbrev pub Wider : List Text → List Text → Type 0
Wider excluded excluded' = (h : Text) → has_hash h excluded ≡ true → has_hash h excluded' ≡ true

pub remaining_narrows :
    (ranked : List Candidate) (excluded excluded' : List Text)
    → Wider excluded excluded'
    → length (remaining ranked excluded') ≤ length (remaining ranked excluded)
unfolding remaining
remaining_narrows [] excluded excluded' w = omega arith
remaining_narrows (c ∷ cs) excluded excluded' w =
    ground (arith, w c.info_hash, remaining_narrows cs excluded excluded' w)

pub absent : (h : Text) → has_hash h (hashes_of []) ≡ true → ⊥
unfolding has_hash
absent h e = cc

pub ranked_later :
    (h : Text) (c : Candidate) (cs : List Candidate)
    → same c.info_hash h ≡ false
    → has_hash h (hashes_of (c ∷ cs)) ≡ true
    → has_hash h (hashes_of cs) ≡ true
unfolding has_hash
ranked_later h c cs d e = ground (arith, d, e)

-- Where a hash that stands among the ranked is excluded, fewer remain.
pub remaining_retires :
    (h : Text) (ranked : List Candidate) (excluded excluded' : List Text)
    → Wider excluded excluded'
    → has_hash h excluded ≡ false
    → has_hash h excluded' ≡ true
    → has_hash h (hashes_of ranked) ≡ true
    → length (remaining ranked excluded') < length (remaining ranked excluded)
unfolding remaining
remaining_retires h [] excluded excluded' w out into e =
    let nowhere : ⊥ = absent h e in elim nowhere [ ]
remaining_retires h (c ∷ cs) excluded excluded' w out into e =
    elim (Bool-cases (same c.info_hash h)) [
      | inl k ↦
          let q = sym (same→eq c.info_hash h k) in
          let out' = subst (λ (t : Text). has_hash t excluded ≡ false) q out in
          let into' = subst (λ (t : Text). has_hash t excluded' ≡ true) q into in
          ground (arith, out', into', remaining_narrows cs excluded excluded' w)
      | inr k ↦
          let fewer =
            remaining_retires h cs excluded excluded' w out into (ranked_later h c cs k e) in
          ground (arith, w c.info_hash, fewer)
    ]

-- Those that remain may contend.
pub remaining-Contends :
    (cs ranked : List Candidate) (excluded : List Text)
    → All (λ c. has_hash c.info_hash (hashes_of ranked) ≡ true) cs
    → All (Contends ranked excluded) (remaining cs excluded)
unfolding remaining
remaining-Contends [] ranked excluded h = tt
remaining-Contends (c ∷ cs) ranked excluded (a, h) =
    ground (arith, remaining-Contends cs ranked excluded h, a)

pub in_ranked_cons :
    (d : Candidate) (ranked cs : List Candidate)
    → All (λ c. has_hash c.info_hash (hashes_of ranked) ≡ true) cs
    → All (λ c. has_hash c.info_hash (hashes_of (d ∷ ranked)) ≡ true) cs
unfolding has_hash
in_ranked_cons d ranked [] h = tt
in_ranked_cons d ranked (c ∷ cs) (a, h) = (ground (arith, a), in_ranked_cons d ranked cs h)

pub in_ranked :
    (ranked : List Candidate) → All (λ c. has_hash c.info_hash (hashes_of ranked) ≡ true) ranked
unfolding has_hash
in_ranked [] = tt
in_ranked (c ∷ cs) = (ground (arith, same_refl c.info_hash), in_ranked_cons c cs cs (in_ranked cs))
