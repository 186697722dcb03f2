-- ===== src/Worker/Pool/Tests.antt =====
-- Runs of worker/src/index.js, the pool of nodes, and the theorems at concrete inputs.
use swarmproof.Worker.Input.{is_public_ipv4, is_valid_port, whole}
use mathlib.Core.List.{Perm}
use swarmproof.Base.{
  All, List, Option, [], false, length, map, none, refl, some, true, ℕ, ◌++◌, ◌+◌, ◌∷◌, ◌≡◌, ◌≤◌,
}
use swarmproof.Base.Decimal.{decimal, number_from}
use swarmproof.Base.Sort.{insert, sort}
use swarmproof.Base.Table.{lookup, set}
use swarmproof.Base.Text.{Text, same, split_last, text}
use swarmproof.PeerTable.{key}
use swarmproof.Worker.Health.{or_else}
use swarmproof.Worker.Pool.{
  Contribution, Page, Pool, PoolNode, RawNode, accepted, accepted_at, add_batches, add_bodies,
  add_body, add_key, add_keys, add_node_key, add_sifted, aggregate_nodes, carry, carry_from,
  carry_one, corroborates, distinct, distinct_from, max_pool_nodes, new_node, node_key, pool_key,
  pool_nodes, post_nodes, ranks_before, raw, seen_again, sift, sweep, values, written_nodes,
}
use swarmproof.Worker.Pool.Contributions.{IsSafeContribution, IsSafeNode, post_nodes_lem}
use swarmproof.Worker.Pool.Order.{BestFirst, NoBetter, aggregate_order, merged}
use swarmproof.Worker.Pool.Safety.{aggregate-IsSafe}
use swarmproof.Worker.Pool.Sources.{count_listing, old_sources, sources-aggregate, sources_of}

abbrev node_at : Text → ℕ → RawNode
node_at host port = record { host = some host; port = whole port false }

abbrev sent : List RawNode
sent =
    node_at (text "1.1.1.1") 6881
    ∷ node_at (text "192.168.0.4") 6881
    ∷ node_at (text "1.1.1.1") 6881
    ∷ node_at (text "9.9.9.9") 70000
    ∷ []

pool_program : Unit {0}
unfolding is_public_ipv4 is_valid_port post_nodes sift add_sifted accepted accepted_at written_nodes
    aggregate_nodes carry carry_from carry_one pool_key distinct distinct_from add_node_key node_key
    add_key add_batches add_bodies add_body add_keys seen_again new_node sweep values corroborates
    pool_nodes ranks_before raw or_else sort insert key decimal split_last number_from lookup set
    same
pool_program = tt

post_nodes_run : (post_nodes 1000 sent).1 ≡ 2
unfolding pool_program
post_nodes_run = refl

post_nodes_lem_example :
    IsSafeContribution (post_nodes 1000 sent).0
    × ((post_nodes 1000 sent).1 + (post_nodes 1000 sent).2 ≡ 4)
post_nodes_lem_example = post_nodes_lem 1000 sent

abbrev stored : Text → Option Contribution
stored name = (post_nodes 1000 sent).0

abbrev pages : List Page
pages = record { names = text "dht:contrib:1" ∷ []; complete = true } ∷ []

abbrev pool_1 : Pool
pool_1 = aggregate_nodes 2000 none pages stored

abbrev pool_2 : Pool
pool_2 = aggregate_nodes 602000 (some pool_1) pages stored

-- One contribution, which repeats its node, is one source in the first run.
pool_1_run : (map (λ n. n.sources) pool_1.nodes ≡ 1 ∷ []) × (pool_1.corroborated ≡ 0)
unfolding pool_program
pool_1_run = (refl, refl)

-- The next run of the cron counts the same contribution again, and takes the node for corroborated.
pool_2_run : (map (λ n. n.sources) pool_2.nodes ≡ 2 ∷ []) × (pool_2.corroborated ≡ 1)
unfolding pool_program
pool_2_run = (refl, refl)

abbrev node_key_1 : Text
node_key_1 = text "1.1.1.1:6881"

sources-aggregate_example :
    sources_of node_key_1
      (add_batches 602000 stored 1 (text "dht:contrib:1" ∷ []) (carry 602000 pool_1.nodes))
    ≡ old_sources node_key_1 602000 pool_1.nodes
      + count_listing node_key_1 (stored (text "dht:contrib:1") ∷ [])
sources-aggregate_example =
    sources-aggregate node_key_1 602000 pool_1.nodes stored (text "dht:contrib:1" ∷ [])

aggregate_order_example :
    (length pool_2.nodes ≤ max_pool_nodes)
    × BestFirst pool_2.nodes
    × ((cut : List PoolNode) × Perm (pool_2.nodes ++ cut) (merged 602000 (some pool_1) pages stored)
        × All (λ x. All (NoBetter x) cut) pool_2.nodes)
aggregate_order_example = aggregate_order 602000 (some pool_1) pages stored

aggregate-IsSafe_example : All IsSafeNode pool_1.nodes
aggregate-IsSafe_example =
    aggregate-IsSafe 2000 none pages stored (unfold pool_nodes in tt)
      (λ name. (post_nodes_lem 1000 sent).0)
