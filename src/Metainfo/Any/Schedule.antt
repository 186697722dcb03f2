-- ===== src/Metainfo/Any/Schedule.antt =====
-- metainfo.js, `fetchFromAny` with a concurrency of two or more, for every order in which the attempts
-- may end.
use swarmproof.Base.{
  sym, ◌∙◌, ◌≤◌, ltb, Bool-cases, inl, inr, Bool, List, Option, [], arith, drop, false,
  if◌then◌else◌, length, length-drop, length-take, min, none, refl, some, suc, take, true, zero, ℕ,
  ◌+◌, ◌<◌, ◌∷◌, ◌≡◌,
}
use swarmproof.Metainfo.Any.{
  fly, land, go_on, land_pulled, landed, learn, put_back, Race, launch, pull,
}
use swarmproof.Metainfo.Any.InTurn.{first_ok}
use swarmproof.Metainfo.Fetch.{Result}
use swarmproof.PeerTable.{Peer, PeerTable}

abbrev count_ok : (Peer → Result) → List Peer → ℕ
count_ok attempt [] = 0
count_ok attempt (p ∷ ps) =
    if (attempt p).ok then suc (count_ok attempt ps) else count_ok attempt ps

unfoldable pub was_found : Option Result → Bool
was_found none = false
was_found (some r) = true

-- What holds of a race with `n` peers that can serve: an open race has all of them still in hand, and
-- nothing waits when nothing is in the air; a decided one has a success.
RaceAt : (Peer → Result) → ℕ → List Peer → List Peer → Option Result → Type 0
RaceAt attempt n flying waiting none =
    (count_ok attempt flying + count_ok attempt waiting ≡ n)
    × (length flying ≡ 0 → length waiting ≡ 0)
RaceAt attempt n flying waiting (some r) = (r.ok ≡ true) × (0 < n)

pub Sound : (Peer → Result) → ℕ → Race → Type 0
unfolding RaceAt
Sound attempt n s = RaceAt attempt n s.flying s.waiting s.winner

-- What pulling one attempt out leaves.
PullAt : (Peer → Result) → List Peer → Option (Peer × List Peer) → Type 0
PullAt attempt ps none = Unit
PullAt attempt ps (some (p, rest)) =
    (length ps ≡ suc (length rest)) × (count_ok attempt ps ≡ count_ok attempt (p ∷ rest))

put_back_lem :
    (attempt : Peer → Result) (p : Peer) (ps : List Peer) (o : Option (Peer × List Peer))
    → PullAt attempt ps o
    → PullAt attempt (p ∷ ps) (put_back p o)
unfolding put_back PullAt
put_back_lem attempt p ps none h = tt
put_back_lem attempt p ps (some (q, rest)) (h, k) = (omega (arith, h), ground (arith, k))

pull_lem : (attempt : Peer → Result) (i : ℕ) (ps : List Peer) → PullAt attempt ps (pull i ps)
unfolding pull PullAt
pull_lem attempt i [] = tt
pull_lem attempt zero (p ∷ ps) = (refl, refl)
pull_lem attempt (suc i) (p ∷ ps) = put_back_lem attempt p ps (pull i ps) (pull_lem attempt i ps)

count_ok-take-drop :
    (attempt : Peer → Result) (k : ℕ) (ps : List Peer)
    → count_ok attempt (take k ps) + count_ok attempt (drop k ps) ≡ count_ok attempt ps
count_ok-take-drop attempt zero ps = omega arith
count_ok-take-drop attempt (suc k) [] = omega arith
count_ok-take-drop attempt (suc k) (p ∷ ps) = ground (arith, count_ok-take-drop attempt k ps)

launch-Sound :
    (attempt : Peer → Result) (t : Option PeerTable) (ps : List Peer) (k : ℕ)
    → 0 < k
    → Sound attempt (count_ok attempt ps) (launch t ps k)
unfolding Sound RaceAt launch
launch-Sound attempt t ps k h = (
  count_ok-take-drop attempt (min k (length ps)) ps,
  λ e. omega (arith, length-take (min k (length ps)) ps, length-drop (min k (length ps)) ps, e),
)

go_on-Sound :
    (attempt : Peer → Result) (n : ℕ) (s : Race) (ws : List Peer)
    → s.waiting ≡ ws
    → s.winner ≡ none
    → count_ok attempt s.flying + count_ok attempt ws ≡ n
    → Sound attempt n (go_on s ws)
unfolding Sound RaceAt go_on
go_on-Sound attempt n s [] w e c = simp (w, e) (c, λ h. refl)
go_on-Sound attempt n s (p ∷ ps) w e c = simp e (ground (arith, c), λ h. omega (arith, h))

landed-Sound :
    (attempt : Peer → Result) (n now : ℕ) (p : Peer) (s : Race) (o : Option Result)
    → s.winner ≡ o
    → RaceAt attempt n (p ∷ s.flying) s.waiting o
    → Sound attempt n (landed now (attempt p) p s o)
unfolding Sound RaceAt landed
landed-Sound attempt n now p s (some w) e h = simp e h
landed-Sound attempt n now p s none e (c, i) = elim (Bool-cases (attempt p).ok) [
  | inl k ↦ simp k (refl, ground (arith, c, k))
  | inr k ↦ simp k (
      go_on-Sound attempt n (record s { table = learn now s.table p (attempt p) }) s.waiting refl e
        (ground (arith, c, k)))
]

RaceAt-pulled :
    (attempt : Peer → Result) (n : ℕ) (flying rest waiting : List Peer) (p : Peer)
    (o : Option Result)
    → length flying ≡ suc (length rest)
    → count_ok attempt flying ≡ count_ok attempt (p ∷ rest)
    → RaceAt attempt n flying waiting o
    → RaceAt attempt n (p ∷ rest) waiting o
unfolding RaceAt
RaceAt-pulled attempt n flying rest waiting p none l c (h, k) =
    (omega (arith, c, h), λ e. omega (arith, e))
RaceAt-pulled attempt n flying rest waiting p (some r) l c h = h

land_pulled-Sound :
    (attempt : Peer → Result) (n now : ℕ) (s : Race) (o : Option (Peer × List Peer))
    → PullAt attempt s.flying o
    → Sound attempt n s
    → Sound attempt n (land_pulled attempt now s o)
unfolding PullAt land_pulled Sound
land_pulled-Sound attempt n now s none h v = v
land_pulled-Sound attempt n now s (some (p, rest)) (l, c) v =
    landed-Sound attempt n now p (record s { flying = rest }) s.winner refl
      (RaceAt-pulled attempt n s.flying rest s.waiting p s.winner l c v)

fly-Sound :
    (attempt : Peer → Result) (n : ℕ) (s : Race) (es : List (ℕ × ℕ))
    → Sound attempt n s
    → Sound attempt n (fly attempt s es)
unfolding fly land
fly-Sound attempt n s [] v = v
fly-Sound attempt n s ((now, i) ∷ es) v =
    fly-Sound attempt n (land_pulled attempt now s (pull i s.flying)) es
      (land_pulled-Sound attempt n now s (pull i s.flying) (pull_lem attempt i s.flying) v)

count_ok-first_ok :
    (attempt : Peer → Result) (ps : List Peer)
    → was_found (first_ok attempt ps) ≡ ltb 0 (count_ok attempt ps)
unfolding first_ok was_found
count_ok-first_ok attempt [] = refl
count_ok-first_ok attempt (p ∷ ps) = ground (arith, count_ok-first_ok attempt ps)

count_ok-length : (attempt : Peer → Result) (ps : List Peer) → count_ok attempt ps ≤ length ps
count_ok-length attempt [] = omega arith
count_ok-length attempt (p ∷ ps) = ground (arith, count_ok-length attempt ps)

was_found-Sound :
    (attempt : Peer → Result) (n : ℕ) (s : Race) (o : Option Result)
    → RaceAt attempt n s.flying s.waiting o
    → length s.flying ≡ 0
    → was_found o ≡ ltb 0 n
unfolding RaceAt was_found
was_found-Sound attempt n s none (c, i) e =
    ground (arith, c, i e, e, count_ok-length attempt s.flying, count_ok-length attempt s.waiting)
was_found-Sound attempt n s (some r) (k, h) e = grind arith

-- A few at a time, in whatever order the attempts end: when nothing is in the air any more, the race
-- has found the metadata just if asking the same peers in turn finds it.
pub fly-first_ok :
    (attempt : Peer → Result) (t : Option PeerTable) (ps : List Peer) (k : ℕ) (es : List (ℕ × ℕ))
    → 0 < k
    → length (fly attempt (launch t ps k) es).flying ≡ 0
    → was_found (fly attempt (launch t ps k) es).winner ≡ was_found (first_ok attempt ps)
unfolding Sound
fly-first_ok attempt t ps k es h e =
    let s = fly attempt (launch t ps k) es in
    was_found-Sound attempt (count_ok attempt ps) s s.winner
      (fly-Sound attempt (count_ok attempt ps) (launch t ps k) es (launch-Sound attempt t ps k h)) e
    ∙ sym (count_ok-first_ok attempt ps)
