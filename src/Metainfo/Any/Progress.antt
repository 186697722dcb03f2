-- ===== src/Metainfo/Any/Progress.antt =====
-- metainfo.js, `fetchFromAny`: how many attempts are in the air, and how many there can be.
use swarmproof.Base.{
  length-drop, length-take, min, Bool, Bool-cases, List, Option, [], arith, false, inl, inr, length,
  none, refl, some, suc, true, zero, ℕ, ◌+◌, ◌<◌, ◌∙◌, ◌∷◌, ◌≡◌, ◌≤◌,
}
use swarmproof.Base.Text.{same}
use swarmproof.Metainfo.Any.{
  fly, land, launch, Race, go_on, land_pulled, landed, learn, pull, put_back,
}
use swarmproof.PeerTable.{PeerTable, Peer}
use swarmproof.Metainfo.Fetch.{Result}

-- The attempts that may still end.
pub work : Race → ℕ
work s = length s.flying + length s.waiting

pulled : Option (Peer × List Peer) → Bool
pulled none = false
pulled (some x) = true

PullLength : List Peer → Option (Peer × List Peer) → Type 0
PullLength ps none = Unit
PullLength ps (some (p, rest)) = length ps ≡ suc (length rest)

put_back-length :
    (p : Peer) (ps : List Peer) (o : Option (Peer × List Peer))
    → PullLength ps o
    → PullLength (p ∷ ps) (put_back p o)
unfolding put_back PullLength
put_back-length p ps none h = tt
put_back-length p ps (some (q, rest)) h = omega (arith, h)

pull-length : (i : ℕ) (ps : List Peer) → PullLength ps (pull i ps)
unfolding pull PullLength
pull-length i [] = tt
pull-length zero (p ∷ ps) = refl
pull-length (suc i) (p ∷ ps) = put_back-length p ps (pull i ps) (pull-length i ps)

pulled-put_back : (p : Peer) (o : Option (Peer × List Peer)) → pulled (put_back p o) ≡ pulled o
unfolding pulled put_back
pulled-put_back p none = refl
pulled-put_back p (some (q, rest)) = refl

pulled-pull : (i : ℕ) (ps : List Peer) → i < length ps → pulled (pull i ps) ≡ true
unfolding pull pulled
pulled-pull i [] h = grind arith
pulled-pull zero (p ∷ ps) h = refl
pulled-pull (suc i) (p ∷ ps) h = pulled-put_back p (pull i ps) ∙ pulled-pull i ps (omega (arith, h))

go_on-length :
    (s : Race) (ws : List Peer)
    → s.waiting ≡ ws
    → (work (go_on s ws) ≡ work s) × (length (go_on s ws).flying ≤ suc (length s.flying))
unfolding go_on work
go_on-length s [] e = (refl, omega arith)
go_on-length s (p ∷ ps) e = (simp e (omega arith), omega arith)

landed-length :
    (now : ℕ) (r : Result) (p : Peer) (s : Race) (o : Option Result)
    → (work (landed now r p s o) ≡ work s)
      × (length (landed now r p s o).flying ≤ suc (length s.flying))
unfolding landed work
landed-length now r p s (some w) = (refl, omega arith)
landed-length now r p s none = elim (Bool-cases r.ok) [
  | inl k ↦ simp k (refl, omega arith)
  | inr k ↦ simp k (go_on-length (record s { table = learn now s.table p r }) s.waiting refl)
]

land_pulled-length :
    (attempt : Peer → Result) (now : ℕ) (s : Race) (o : Option (Peer × List Peer))
    → PullLength s.flying o
    → (length (land_pulled attempt now s o).flying ≤ length s.flying)
      × (pulled o ≡ true → work (land_pulled attempt now s o) < work s)
unfolding land_pulled PullLength pulled work
land_pulled-length attempt now s none h = (omega arith, λ k. grind arith)
land_pulled-length attempt now s (some (p, rest)) h =
    let s' = record s { flying = rest } in
    let (same, few) = landed-length now (attempt p) p s' s.winner in
    (omega (arith, few, h), λ k. omega (arith, same, h))

fly_few :
    (attempt : Peer → Result) (s : Race) (es : List (ℕ × ℕ))
    → length (fly attempt s es).flying ≤ length s.flying
unfolding fly land
fly_few attempt s [] = omega arith
fly_few attempt s ((now, i) ∷ es) =
    let once = land_pulled-length attempt now s (pull i s.flying) (pull-length i s.flying) in
    omega (arith, fly_few attempt (land_pulled attempt now s (pull i s.flying)) es, once.0)

-- Never more than `k` attempts are in the air; and each attempt that ends leaves less work, of which
-- there is at most one unit for each peer.
pub launch-progress :
    (attempt : Peer → Result) (t : Option PeerTable) (ps : List Peer) (k : ℕ) (es : List (ℕ × ℕ))
    (now i : ℕ)
    → let s = fly attempt (launch t ps k) es in
      (length s.flying ≤ k)
      × (work (launch t ps k) ≡ length ps)
      × (i < length s.flying → work (land attempt s (now, i)) < work s)
unfolding land launch work
launch-progress attempt t ps k es now i =
    let s = fly attempt (launch t ps k) es in
    (
      omega (arith, fly_few attempt (launch t ps k) es, length-take (min k (length ps)) ps),
      omega (arith, length-take (min k (length ps)) ps, length-drop (min k (length ps)) ps),
      λ h.
          (land_pulled-length attempt now s (pull i s.flying) (pull-length i s.flying)).1
            (pulled-pull i s.flying h),
    )
