-- ===== src/Crawler/Nodes.antt =====
-- dhtCrawler.js: what the crawler knows of a node, and the queue of nodes to sample.
--
-- The states are shared objects in a map that is cleared when it is full. A worker keeps the state of
-- its node while it waits; `epoch` counts the clearings, and a state of an earlier epoch is one that
-- the map has forgotten.
pub mod Bounded
use swarmproof.Base.{
  Bool, List, Option, [], false, if◌then◌else◌, leb, length, ltb, none, not, some, ℕ, ◌&&◌, ◌*◌,
  ◌++◌, ◌+◌, ◌==◌, ◌∷◌,
}
use swarmproof.Base.Table.{lookup, set}
use swarmproof.Base.Text.{Text}
use swarmproof.PeerCache.{is_usable}
use swarmproof.PeerTable.{Peer, key}

abbrev pub node_queue_max : ℕ
node_queue_max = 20_000

pub record NodeState : Type 0 where
  pub supports : Option Bool
  pub next_at : ℕ
  pub failures : ℕ

pub record NodeTable : Type 0 where
  pub entries : List (Text × NodeState)
  pub epoch : ℕ

unfoldable pub unknown_node : NodeState
unknown_node = record { supports = none; next_at = 0; failures = 0 }

unfoldable pub clear_if_full : NodeTable → NodeTable
clear_if_full t =
    if ltb (node_queue_max * 2) (length t.entries)
    then record { entries = []; epoch = t.epoch + 1 }
    else t

unfoldable pub add_state : Text → NodeTable → NodeTable
unfolding unknown_node
add_state k t = record t { entries = set k unknown_node t.entries }

-- `_nodeState`
unfoldable pub node_state : Text → NodeTable → NodeState × NodeTable
unfolding clear_if_full add_state
node_state k t = elim (lookup k t.entries) [
  | some s ↦ (s, t)
  | none ↦ (unknown_node, add_state k (clear_if_full t))
]

-- A write to a state that was read in an epoch.
unfoldable pub write_state : ℕ → Text → (NodeState → NodeState) → NodeTable → NodeTable
write_state epoch k f t = elim (lookup k t.entries) [
  | none ↦ t
  | some s ↦ if epoch == t.epoch then record t { entries = set k (f s) t.entries } else t
]

unfoldable pub is_false : Option Bool → Bool
is_false none = false
is_false (some b) = not b

-- `_enqueueNodes`, one node behind the test of its host and port.
unfoldable pub is_due : ℕ → NodeState → Bool
unfolding is_false
is_due now s = not (is_false s.supports) && leb s.next_at now

-- `_enqueueNodes`: it returns at the first node for which there is no room.
unfoldable pub enqueue : ℕ → List Peer → NodeTable → List Peer → NodeTable × List Peer
unfolding node_state is_due
enqueue now [] t queue = (t, queue)
enqueue now (n ∷ ns) t queue =
    let (s, t') = node_state (key n) t in
    let skip = enqueue now ns t queue in
    let pass = enqueue now ns t' queue in
    let add = enqueue now ns t' (queue ++ n ∷ []) in
    if is_usable n
    then (if is_due now s
        then (if leb node_queue_max (length queue) then (t', queue) else add)
        else pass)
    else skip
