-- ===== src/Metainfo/Any/InTurn.antt =====
-- metainfo.js, `fetchFromAny` with a concurrency of one.
use swarmproof.Base.{
  Bool-cases, List, Option, [], arith, if◌then◌else◌, inl, inr, length, none, refl, some, ℕ, ◌+◌,
  ◌∷◌, ◌≡◌, ◌≤◌,
}
use swarmproof.Metainfo.Any.{in_turn, learn}
use swarmproof.Metainfo.Fetch.{Result}
use swarmproof.PeerTable.{Call, Peer, PeerTable, failed, fails, run, step, succeeds}

-- The first success.
unfoldable pub first_ok : (Peer → Result) → List Peer → Option Result
first_ok attempt [] = none
first_ok attempt (p ∷ ps) = if (attempt p).ok then some (attempt p) else first_ok attempt ps

-- The calls on the table: the attempts in order, up to and with the first success.
unfoldable pub calls : (Peer → Result) → ℕ → List Peer → List Call
calls attempt now [] = []
calls attempt now (p ∷ ps) =
    let r = attempt p in
    let after = now + r.total_ms in
    let rest = calls attempt after ps in
    if r.ok then succeeds after p r.connect_ms ∷ [] else fails after p r.connected ∷ rest

in_turn-answer :
    (attempt : Peer → Result) (now : ℕ) (t : Option PeerTable) (ps : List Peer)
    → (in_turn attempt now t ps).0 ≡ first_ok attempt ps
unfolding in_turn first_ok
in_turn-answer attempt now t [] = refl
in_turn-answer attempt now t (p ∷ ps) = elim (Bool-cases (attempt p).ok) [
  | inl e ↦ simp e refl
  | inr e ↦ simp e (
      in_turn-answer attempt (now + (attempt p).total_ms)
        (learn (now + (attempt p).total_ms) t p (attempt p)) ps)
]

in_turn-connections :
    (attempt : Peer → Result) (now : ℕ) (t : Option PeerTable) (ps : List Peer)
    → (in_turn attempt now t ps).2 ≤ length ps
unfolding in_turn
in_turn-connections attempt now t [] = omega arith
in_turn-connections attempt now t (p ∷ ps) =
    let ih =
      in_turn-connections attempt (now + (attempt p).total_ms)
        (learn (now + (attempt p).total_ms) t p (attempt p)) ps in
    ground arith

in_turn-table :
    (attempt : Peer → Result) (now : ℕ) (t : PeerTable) (ps : List Peer)
    → (in_turn attempt now (some t) ps).1 ≡ some (run t (calls attempt now ps))
unfolding in_turn calls learn run step
in_turn-table attempt now t [] = refl
in_turn-table attempt now t (p ∷ ps) = elim (Bool-cases (attempt p).ok) [
  | inl e ↦ simp e refl
  | inr e ↦ simp e (
      in_turn-table attempt (now + (attempt p).total_ms)
        (failed (now + (attempt p).total_ms) t p (attempt p).connected) ps)
]

-- Asked in turn, the peers give the first success in their order; no more of them are connected to
-- than there are; and the table has learned of each attempt up to the first success, in order.
pub in_turn_lem :
    (attempt : Peer → Result) (now : ℕ) (t : PeerTable) (ps : List Peer)
    → ((in_turn attempt now (some t) ps).0 ≡ first_ok attempt ps)
      × ((in_turn attempt now (some t) ps).1 ≡ some (run t (calls attempt now ps)))
      × ((in_turn attempt now (some t) ps).2 ≤ length ps)
in_turn_lem attempt now t ps = (
  in_turn-answer attempt now (some t) ps,
  in_turn-table attempt now t ps,
  in_turn-connections attempt now (some t) ps,
)
