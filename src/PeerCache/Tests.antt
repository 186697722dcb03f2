-- ===== src/PeerCache/Tests.antt =====
-- Runs of peerCache.js, and the theorems at concrete inputs.
use swarmproof.Base.{List, [], false, none, refl, true, ◌++◌, ◌∷◌, ◌≡◌}
use swarmproof.Base.Decimal.{decimal}
use swarmproof.Base.Table.{lookup, set}
use swarmproof.Base.Text.{same, text}
use swarmproof.PeerCache.{
  NodeRow, PeerCache, cached_nodes, close, default_ttl_ms, delete_swarm, get, hit, is_fresh,
  is_usable, node_of, put_swarm, same_node, set_nodes, upsert_all, upsert_node,
}
use swarmproof.PeerCache.Lifetime.{get-put_swarm}
use swarmproof.PeerTable.{Peer, key}

abbrev cold : PeerCache
cold = record { ttl_ms = default_ttl_ms; closed = false; swarms = []; nodes = [] }

abbrev two_peers : List Peer
two_peers =
    record { host = text "1.1.1.1"; port = 6881 }
    ∷ record { host = text "9.9.9.9"; port = 51413 }
    ∷ []

peer_cache_program : Unit {0}
unfolding get hit put_swarm delete_swarm is_fresh set_nodes upsert_all upsert_node same_node
    is_usable cached_nodes node_of close lookup set same key decimal
peer_cache_program = tt

abbrev as_stored : List NodeRow → List NodeRow
as_stored rows = rows

-- The second of two equal nodes is not taken again.
nodes_run :
    cached_nodes as_stored true 300 (set_nodes as_stored true 50 300 (two_peers ++ two_peers) cold)
    ≡ two_peers
unfolding peer_cache_program
nodes_run = refl

get-put_swarm_example :
    (get true true 700000 (text "aa") (put_swarm true 50000 (text "aa") two_peers 30 cold)).0 ≡ none
unfolding peer_cache_program
get-put_swarm_example = get-put_swarm 50000 700000 (text "aa") two_peers 30 true cold refl
