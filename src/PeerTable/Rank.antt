-- ===== src/PeerTable/Rank.antt =====
-- peerTable.js, `rank`: the order of the candidates, against what the table knows of each.
use swarmproof.Base.{
  suc, zero, ltb, sym, ◌∙◌, length-append, length-map, take_of_length-le, ◌+◌, All, All-mono, Bool,
  Bool-cases, List, Option, [], arith, drop, false, filter, if◌then◌else◌, inl, inr, length,
  length-take, map, none, not, refl, some, true, ℕ, ◌++◌, ◌∷◌, ◌≡◌, ◌≤◌,
}
use swarmproof.Base.Sort.{
  length-sort, All-sort, AllPairs, AllPairs-take-drop, Sorted, Sorted-append, Sorted-take, sort,
  sort-Sorted, sort-perm,
}
use mathlib.Core.List.Perm
use mathlib.Core.List.{Perm, perm_middle}
use swarmproof.PeerTable.{
  Peer, PeerTable, faster, is_dead, is_good, key, order, peer_of, rank, rtt_le, rtt_of, split,
}

pub alive : ℕ → PeerTable → Peer → Bool
alive now t p = not (is_dead now t (key p))

-- A connect time is no slower than another that is unknown, or that it does not exceed.
pub no_slower : Option ℕ → Option ℕ → Bool
no_slower a none = true
no_slower none (some s) = false
no_slower (some r) (some s) = not (ltb s r)

rtt_le-no_slower : (a b : Option ℕ) → rtt_le a b ≡ no_slower a b
unfolding rtt_le no_slower
rtt_le-no_slower a none = refl
rtt_le-no_slower none (some s) = refl
rtt_le-no_slower (some r) (some s) = ground arith

-- The peer `a` may stand in front of `b`: known-good before unknown, and the faster one of two good.
pub no_worse : PeerTable → Peer → Peer → Bool
no_worse t a b =
    if is_good t (key a)
    then (if is_good t (key b) then no_slower (rtt_of t (key a)) (rtt_of t (key b)) else true)
    else not (is_good t (key b))

abbrev IsMeasured : PeerTable → Peer × Option ℕ → Type 0
IsMeasured t g = (is_good t (key g.0) ≡ true) × (g.1 ≡ rtt_of t (key g.0))

abbrev IsUnknown : PeerTable → Peer → Type 0
IsUnknown t p = is_good t (key p) ≡ false

split-IsMeasured :
    (now : ℕ) (t : PeerTable) (ps : List Peer)
    → All (IsMeasured t) (split now t ps).good × All (IsUnknown t) (split now t ps).unknown
unfolding split
split-IsMeasured now t [] = (tt, tt)
split-IsMeasured now t (p ∷ ps) =
    let (good, unknown) = split-IsMeasured now t ps in
    elim (Bool-cases (is_dead now t (key p))) [
      | inl d ↦ rw d (good, unknown)
      | inr d ↦ elim (Bool-cases (is_good t (key p))) [
        | inl g ↦ rw (d, g) (((g, refl), good), unknown)
        | inr g ↦ rw (d, g) (good, (g, unknown))
      ]
    ]

rtt_le_total : (a b : Option ℕ) → rtt_le a b ≡ false → rtt_le b a ≡ true
unfolding rtt_le
rtt_le_total none none h = refl
rtt_le_total none (some b) h = refl
rtt_le_total (some a) none h = cc
rtt_le_total (some a) (some b) h = ground arith

rtt_le_trans : (a b c : Option ℕ) → rtt_le a b ≡ true → rtt_le b c ≡ true → rtt_le a c ≡ true
unfolding rtt_le
rtt_le_trans a b none h k = refl
rtt_le_trans none none (some c) h k = cc
rtt_le_trans none (some b) (some c) h k = cc
rtt_le_trans (some a) none (some c) h k = cc
rtt_le_trans (some a) (some b) (some c) h k = ground arith

sort-good-Sorted : (gs : List (Peer × Option ℕ)) → Sorted faster (sort faster gs)
unfolding faster
sort-good-Sorted =
    sort-Sorted faster (λ a b. rtt_le_total a.1 b.1) (λ a b c. rtt_le_trans a.1 b.1 c.1)

no_worse-faster :
    (t : PeerTable) (a b : Peer × Option ℕ)
    → IsMeasured t a
    → IsMeasured t b
    → faster a b ≡ true
    → no_worse t a.0 b.0 ≡ true
unfolding no_worse faster
no_worse-faster t a b ha hb h = rw (ha.0, hb.0, ← ha.1, ← hb.1) (sym (rtt_le-no_slower a.1 b.1) ∙ h)

All-no_worse :
    (t : PeerTable) (a : Peer × Option ℕ) (gs : List (Peer × Option ℕ))
    → IsMeasured t a
    → All (IsMeasured t) gs
    → All (λ b. faster a b ≡ true) gs
    → All (λ b. no_worse t a.0 b ≡ true) (map peer_of gs)
unfolding peer_of
All-no_worse t a [] m ms h = tt
All-no_worse t a (g ∷ gs) m ms h =
    (no_worse-faster t a g m ms.0 h.0, All-no_worse t a gs m ms.1 h.1)

good-Sorted :
    (t : PeerTable) (gs : List (Peer × Option ℕ))
    → All (IsMeasured t) gs
    → Sorted faster gs
    → Sorted (no_worse t) (map peer_of gs)
unfolding peer_of
good-Sorted t [] m s = tt
good-Sorted t (g ∷ gs) m s = (All-no_worse t g gs m.0 m.1 s.0, good-Sorted t gs m.1 s.1)

no_worse-unknown : (t : PeerTable) (a b : Peer) → IsUnknown t b → no_worse t a b ≡ true
unfolding no_worse
no_worse-unknown t a b h = ground arith

All-unknown :
    (t : PeerTable) (a : Peer) (us : List Peer)
    → All (IsUnknown t) us
    → All (λ b. no_worse t a b ≡ true) us
All-unknown t a us h = All-mono us (λ b. no_worse-unknown t a b) h

unknown-Sorted : (t : PeerTable) (us : List Peer) → All (IsUnknown t) us → Sorted (no_worse t) us
unknown-Sorted t [] h = tt
unknown-Sorted t (u ∷ us) h = (All-unknown t u us h.1, unknown-Sorted t us h.1)

AllPairs-unknown :
    (t : PeerTable) (xs us : List Peer) → All (IsUnknown t) us → AllPairs (no_worse t) xs us
AllPairs-unknown t [] us h = tt
AllPairs-unknown t (x ∷ xs) us h = (All-unknown t x us h, AllPairs-unknown t xs us h)

order-Sorted : (now : ℕ) (t : PeerTable) (ps : List Peer) → Sorted (no_worse t) (order now t ps)
unfolding order
order-Sorted now t ps =
    let (good, unknown) = split-IsMeasured now t ps in
    Sorted-append (no_worse t) _ _
      (good-Sorted t _ (All-sort faster (IsMeasured t) _ good) (sort-good-Sorted _))
      (unknown-Sorted t _ unknown) (AllPairs-unknown t _ _ unknown)

split-perm :
    (now : ℕ) (t : PeerTable) (ps : List Peer)
    → Perm (map peer_of (split now t ps).good ++ (split now t ps).unknown) (filter (alive now t) ps)
unfolding split peer_of alive
split-perm now t [] = Perm.nil
split-perm now t (p ∷ ps) =
    let rest = split-perm now t ps in
    elim (Bool-cases (is_dead now t (key p))) [
      | inl d ↦ rw d rest
      | inr d ↦ elim (Bool-cases (is_good t (key p))) [
        | inl g ↦ rw (d, g) (Perm.cons p rest)
        | inr g ↦ rw (d, g) (Perm.trans (perm_middle _ _) (Perm.cons p rest))
      ]
    ]

-- Each peer offered is counted once: as a hit, as skipped, or among the unknown ones.
pub rank_counts :
    (now : ℕ) (t : PeerTable) (ps : List Peer)
    → (split now t ps).skipped + (split now t ps).hits + length (split now t ps).unknown ≡ length ps
unfolding split
rank_counts now t [] = omega arith
rank_counts now t (p ∷ ps) = ground (arith, rank_counts now t ps)

-- The order of preference holds every offered peer that is not dead, and no other, as often as it
-- was offered.
pub order-perm :
    (now : ℕ) (t : PeerTable) (ps : List Peer) → Perm (order now t ps) (filter (alive now t) ps)
unfolding order
order-perm now t ps =
    Perm.trans
      (Perm.append (Perm.map peer_of (sort-perm faster (split now t ps).good)) (Perm.refl _))
      (split-perm now t ps)

-- `rank` gives at most `limit` peers, the best first: known-good addresses in front of unknown ones,
-- and of two known-good ones the one whose best connect time is shorter; and each peer that is kept
-- may stand in front of each that the limit cuts off.
pub rank_best :
    (now : ℕ) (t : PeerTable) (ps : List Peer) (limit : ℕ)
    → Sorted (no_worse t) (rank now t ps limit).1
      × AllPairs (no_worse t) (rank now t ps limit).1 (drop limit (order now t ps))
      × (length (rank now t ps limit).1 ≤ limit)
unfolding rank
rank_best now t ps limit = (
  Sorted-take (no_worse t) limit _ (order-Sorted now t ps),
  AllPairs-take-drop (no_worse t) limit _ (order-Sorted now t ps),
  omega (arith, length-take {0} limit (order now t ps)),
)

length-split-le :
    (now : ℕ) (t : PeerTable) (ps : List Peer)
    → length (split now t ps).good + length (split now t ps).unknown ≤ length ps
unfolding split
length-split-le now t [] = omega arith
length-split-le now t (p ∷ ps) = ground (arith, length-split-le now t ps)

length-order-le : (now : ℕ) (t : PeerTable) (ps : List Peer) → length (order now t ps) ≤ length ps
unfolding order
length-order-le now t ps =
    let r = split now t ps in
    omega (
      arith,
      length-append (map peer_of (sort faster r.good)) r.unknown,
      length-map (sort faster r.good) peer_of,
      length-sort faster r.good,
      length-split-le now t ps,
    )

-- With room for every candidate, the ranking is a reordering of the candidates that are not dead.
pub rank_all :
    (now : ℕ) (t : PeerTable) (ps : List Peer) (limit : ℕ)
    → length ps ≤ limit
    → Perm (rank now t ps limit).1 (filter (alive now t) ps)
unfolding rank
rank_all now t ps limit h =
    rw (take_of_length-le limit (order now t ps) (omega (arith, length-order-le now t ps)))
      (order-perm now t ps)

split_none_alive :
    (now : ℕ) (t : PeerTable) (ps : List Peer)
    → All (λ p. alive now t p ≡ false) ps
    → ((split now t ps).good ≡ []) × ((split now t ps).unknown ≡ [])
unfolding split alive
split_none_alive now t [] h = (refl, refl)
split_none_alive now t (p ∷ ps) (h, more) =
    let (good, unknown) = split_none_alive now t ps more in
    let dead : is_dead now t (key p) ≡ true = ground (arith, h) in rw (dead) (good, unknown)

-- Of peers that are all dead, none is left.
pub rank_none_alive :
    (now : ℕ) (t : PeerTable) (ps : List Peer) (limit : ℕ)
    → All (λ p. alive now t p ≡ false) ps
    → (rank now t ps limit).1 ≡ []
unfolding rank order sort
rank_none_alive now t ps zero h = refl
rank_none_alive now t ps (suc limit) h =
    let (good, unknown) = split_none_alive now t ps h in rw (good, unknown) refl
