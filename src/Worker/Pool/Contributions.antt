-- ===== src/Worker/Pool/Contributions.antt =====
-- worker/src/index.js, `postNodes`: only public addresses with a valid port are stored.
use swarmproof.Base.{
  All, Bool-cases, List, Option, [], arith, false, inl, inr, length, length-take, map, min, none,
  refl, some, take, true, ℕ, ◌+◌, ◌∷◌, ◌≡◌, ◌≤◌,
}
use swarmproof.Worker.Pool.{
  Contribution, PoolNode, RawNode, accepted, accepted_at, add_sifted, max_nodes_per_contrib,
  post_nodes, raw, sift, written_nodes,
}
use mathlib.Core.Option.{some-injective}
use mathlib.Core.Path.{subst}
use swarmproof.Base.Text.{Text}
use swarmproof.PeerTable.{Peer}
use swarmproof.Worker.Input.{Number, infinite, is_public_ipv4, is_valid_port, nan, negative, whole}

abbrev pub IsValidPort : ℕ → Type 0
IsValidPort p = (1 ≤ p) × (p ≤ 65535)

abbrev pub IsSafe : Text → ℕ → Type 0
IsSafe host port = (is_public_ipv4 host ≡ true) × IsValidPort port

abbrev pub IsSafePeer : Peer → Type 0
IsSafePeer p = IsSafe p.host p.port

abbrev pub IsSafeNode : PoolNode → Type 0
IsSafeNode n = IsSafe n.host n.port

-- A stored contribution: every node in it is a safe peer, as the store gives it back.
abbrev pub IsSafeRaw : RawNode → Type 0
IsSafeRaw n = (p : Peer) × (n ≡ raw p) × IsSafePeer p

abbrev pub IsSafeContribution : Option Contribution → Type 0
IsSafeContribution none = Unit
IsSafeContribution (some c) = All IsSafeRaw c.nodes

is_valid_port-IsValidPort : (v : Number) (p : ℕ) → is_valid_port v ≡ some p → IsValidPort p
unfolding is_valid_port
is_valid_port-IsValidPort nan p h = cc
is_valid_port-IsValidPort infinite p h = cc
is_valid_port-IsValidPort negative p h = cc
is_valid_port-IsValidPort (whole n true) p h = cc
is_valid_port-IsValidPort (whole n false) p h = ground arith

accepted_at-IsSafe :
    (host : Text) (o : Option ℕ) (p : Peer)
    → ((n : ℕ) → o ≡ some n → IsValidPort n)
    → accepted_at host o ≡ some p
    → IsSafePeer p
unfolding accepted_at
accepted_at-IsSafe host none p v h = cc
accepted_at-IsSafe host (some n) p v h = elim (Bool-cases (is_public_ipv4 host)) [
  | inl q ↦
      let e : record { host = host; port = n } ≡ p = some-injective _ _ (rw q at h) in
      subst (λ (x : Peer). IsSafe x.host x.port) e (q, v n refl)
  | inr q ↦ cc (rw q at h)
]

accepted-IsSafe : (n : RawNode) (p : Peer) → accepted n ≡ some p → IsSafePeer p
unfolding accepted
accepted-IsSafe n p h = go n.host refl
  where
    go : (o : Option Text) → n.host ≡ o → IsSafePeer p
    go none e = cc (rw (e, accepted) at h)
    go (some host) e =
        accepted_at-IsSafe host (is_valid_port n.port) p (is_valid_port-IsValidPort n.port)
          (rw (e, accepted) at h)

sift-IsSafe : (ns : List RawNode) → All IsSafePeer (sift ns).nodes
unfolding sift
sift-IsSafe [] = tt
sift-IsSafe (n ∷ ns) = go (accepted n) refl (sift-IsSafe ns)
  where
    go :
        (o : Option Peer)
        → accepted n ≡ o
        → All IsSafePeer (sift ns).nodes
        → All IsSafePeer (add_sifted o (sift ns)).nodes
    go none e h = h
    go (some p) e h = (accepted-IsSafe n p e, h)

raw-IsSafe : (ps : List Peer) → All IsSafePeer ps → All IsSafeRaw (map raw ps)
raw-IsSafe [] h = tt
raw-IsSafe (p ∷ ps) h = ((p, refl, h.0), raw-IsSafe ps h.1)

written_nodes-IsSafe :
    (now : ℕ) (ps : List Peer) → All IsSafePeer ps → IsSafeContribution (written_nodes now ps)
unfolding written_nodes
written_nodes-IsSafe now [] h = tt
written_nodes-IsSafe now (p ∷ ps) h = raw-IsSafe (p ∷ ps) h

length-sift : (ns : List RawNode) → length (sift ns).nodes + (sift ns).rejected ≡ length ns
unfolding sift add_sifted
length-sift [] = omega arith
length-sift (n ∷ ns) = ground (arith, length-sift ns)

-- Whatever a client sends, only safe nodes are stored, and the accepted and the rejected ones together
-- are the first hundred that it sent.
pub post_nodes_lem :
    (now : ℕ) (nodes : List RawNode)
    → IsSafeContribution (post_nodes now nodes).0
      × ((post_nodes now nodes).1 + (post_nodes now nodes).2
          ≡ min max_nodes_per_contrib (length nodes))
unfolding post_nodes
post_nodes_lem now nodes = (
  written_nodes-IsSafe now _ (sift-IsSafe (take max_nodes_per_contrib nodes)),
  omega (
    arith,
    length-sift (take max_nodes_per_contrib nodes),
    length-take {0} max_nodes_per_contrib nodes,
  ),
)
