-- ===== src/PeerSources/Picked.antt =====
-- peerSources.js, `_pick`: a sample without replacement.
use mathlib.Core.List.{Perm}
use mathlib.Core.Path.{ap₂}
use swarmproof.Base.{
  List, Option, [], ap, arith, length, map, min, refl, some, suc, zero, ℕ, ◌++◌, ◌<◌, ◌∷◌, ◌≡◌,
}
use swarmproof.PeerSources.{pick, splice}
use swarmproof.PeerTable.{Peer}
use mathlib.Core.List.Perm

splice_lem :
    (i : ℕ) (pool : List Peer)
    → i < length pool
    → (p : Peer) × ((splice i pool).0 ≡ some p) × Perm (p ∷ (splice i pool).1) pool
unfolding splice
splice_lem i [] h = elim h [ ]
splice_lem zero (p ∷ ps) h = (p, refl, Perm.refl (p ∷ ps))
splice_lem (suc i) (p ∷ ps) h =
    let (q, e, π) = splice_lem i ps (omega (arith, h)) in
    (q, e, Perm.trans (Perm.swap p q (splice i ps).1) (Perm.cons p π))

length-splice :
    (i : ℕ) (pool : List Peer) → i < length pool → suc (length (splice i pool).1) ≡ length pool
unfolding splice
length-splice i [] h = elim h [ ]
length-splice zero (p ∷ ps) h = refl
length-splice (suc i) (p ∷ ps) h = ap suc (length-splice i ps (omega (arith, h)))

-- Where each draw is an index of the pool that it is made from: `_pick` gives `n` members, or all of a
-- smaller pool; they and what is left are the pool, so that no place of the roster is picked twice.
pub pick_lem :
    (draw : ℕ → ℕ → ℕ) (n : ℕ) (pool : List Peer)
    → ((round size : ℕ) → 0 < size → draw round size < size)
    → (picked : List Peer) × ((pick draw n pool).0 ≡ map some picked)
      × (length picked ≡ min n (length pool))
      × Perm (picked ++ (pick draw n pool).1) pool
unfolding pick
pick_lem draw zero pool h = ([], refl, omega arith, Perm.refl pool)
pick_lem draw (suc n) [] h = ([], refl, omega arith, Perm.refl [])
pick_lem draw (suc n) (p ∷ ps) h =
    let i = draw n (length (p ∷ ps)) in
    let b : i < length (p ∷ ps) = h n (length (p ∷ ps)) (omega arith) in
    let (q, e, π) = splice_lem i (p ∷ ps) b in
    let (picked, es, size, ρ) = pick_lem draw n (splice i (p ∷ ps)).1 h in
    (
      q ∷ picked,
      ap₂ (λ (x : Option Peer) (xs : List (Option Peer)). x ∷ xs) e es,
      omega (arith, size, length-splice i (p ∷ ps) b),
      Perm.trans (Perm.cons q ρ) π,
    )
