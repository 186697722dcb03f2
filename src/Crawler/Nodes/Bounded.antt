-- ===== src/Crawler/Nodes/Bounded.antt =====
-- dhtCrawler.js: the bounds of the queue and of the table of nodes.
use swarmproof.Base.{
  List, Option-cases, [], arith, inl, inr, length, length-append, none, suc, ℕ, ◌*◌, ◌++◌, ◌∷◌, ◌≡◌,
  ◌≤◌,
}
use swarmproof.Base.Table.{length-set, length-set_old, lookup}
use swarmproof.Base.Text.{Text}
use swarmproof.Crawler.Nodes.{
  NodeState, NodeTable, add_state, clear_if_full, enqueue, node_queue_max, node_state, unknown_node,
  write_state,
}
use swarmproof.PeerTable.{Peer, key}

length-add_state :
    (k : Text) (t : NodeTable)
    → lookup k t.entries ≡ none
    → length (add_state k t).entries ≡ suc (length t.entries)
unfolding add_state
length-add_state k t h = length-set k unknown_node t.entries h

-- The table never holds more than one entry above twice the length of the queue.
abbrev pub IsSmall : NodeTable → Type 0
IsSmall t = length t.entries ≤ suc (node_queue_max * 2)

clear_if_full-small : (t : NodeTable) → length (clear_if_full t).entries ≤ node_queue_max * 2
unfolding clear_if_full
clear_if_full-small t = ground arith

clear_if_full-absent :
    (k : Text) (t : NodeTable)
    → lookup k t.entries ≡ none
    → lookup k (clear_if_full t).entries ≡ none
unfolding clear_if_full lookup
clear_if_full-absent k t h = ground arith

pub node_state-IsSmall : (k : Text) (t : NodeTable) → IsSmall t → IsSmall (node_state k t).1
unfolding node_state
node_state-IsSmall k t s = elim (Option-cases (lookup k t.entries)) [
  | inl e ↦ ground (
    arith,
    length-add_state k (clear_if_full t) (clear_if_full-absent k t e),
    clear_if_full-small t,
  )
  | inr (x, e) ↦ ground arith
]

pub write_state-IsSmall :
    (epoch : ℕ) (k : Text) (f : NodeState → NodeState) (t : NodeTable)
    → IsSmall t
    → IsSmall (write_state epoch k f t)
unfolding write_state
write_state-IsSmall epoch k f t s = elim (Option-cases (lookup k t.entries)) [
  | inl e ↦ ground arith
  | inr (x, e) ↦ ground (arith, length-set_old k (f x) x t.entries e)
]

-- Neither the table nor the queue grows past its bound, whatever nodes are offered.
pub enqueue_bounds :
    (now : ℕ) (ns : List Peer) (t : NodeTable) (queue : List Peer)
    → IsSmall t
    → length queue ≤ node_queue_max
    → IsSmall (enqueue now ns t queue).0 × (length (enqueue now ns t queue).1 ≤ node_queue_max)
unfolding enqueue
enqueue_bounds now [] t queue s h = (s, h)
enqueue_bounds now (n ∷ ns) t queue s h =
    let t' = (node_state (key n) t).1 in
    let s' = node_state-IsSmall (key n) t s in
    ground (
      arith,
      s',
      length-append queue (n ∷ []),
      enqueue_bounds now ns t queue s h,
      enqueue_bounds now ns t' queue s' h,
      enqueue_bounds now ns t' (queue ++ n ∷ []) s',
    )
