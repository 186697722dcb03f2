-- ===== src/Worker/Pool.antt =====
-- worker/src/index.js: the pool of routing nodes. `postNodes` stores contributions, the cron's
-- `aggregateNodes` merges the live ones into the pool, and `getNodes` serves it.
--
-- The key-value store is a parameter: the pages of its key listing, and what it has under a name. A
-- port in it is never negative, since `postNodes` alone writes contributions.
pub mod Sources
pub mod Order
pub mod Contributions
pub mod Safety
pub mod Batches
mod Tests
use swarmproof.Base.{
  Bool, List, Option, [], all, drop, false, filter, if◌then◌else◌, leb, length, ltb, map, max, none,
  some, suc, take, true, zero, ℕ, ◌*◌, ◌++◌, ◌+◌, ◌==◌, ◌∷◌,
}
use swarmproof.Base.Decimal.{number}
use swarmproof.Base.Sort.{sort}
use swarmproof.Base.Table.{lookup, set}
use swarmproof.Base.Text.{Text, same, split_last, text}
use swarmproof.PeerTable.{Peer, key}
use swarmproof.Worker.Health.{or_else}
use swarmproof.Worker.Input.{Number, is_public_ipv4, is_valid_port, whole}

abbrev pub max_nodes_per_contrib : ℕ
max_nodes_per_contrib = 100

abbrev pub max_pool_nodes : ℕ
max_pool_nodes = 300

abbrev pub max_nodes_served : ℕ
max_nodes_served = 200

abbrev pub max_contrib_keys : ℕ
max_contrib_keys = 20000

abbrev pub contrib_ttl_ms : ℕ
contrib_ttl_ms = 1800 * 1000

abbrev pub min_distinct_sources : ℕ
min_distinct_sources = 2

-- An element of a `nodes` array: its host, if that is a string, and its port.
pub record RawNode : Type 0 where
  pub host : Option Text
  pub port : Number

pub record Contribution : Type 0 where
  pub nodes : List RawNode
  pub ts : ℕ

pub record PoolNode : Type 0 where
  pub host : Text
  pub port : ℕ
  pub sources : ℕ
  pub last_seen : ℕ

pub record Pool : Type 0 where
  pub nodes : List PoolNode
  pub ts : ℕ
  pub contributions : ℕ
  pub corroborated : ℕ
  pub truncated : Bool

-- `!isPublicIPv4(n?.host) || !isValidPort(n?.port)`, with the node where both hold.
pub accepted_at : Text → Option ℕ → Option Peer
accepted_at host none = none
accepted_at host (some p) =
    if is_public_ipv4 host then some (record { host = host; port = p }) else none

pub accepted : RawNode → Option Peer
unfolding accepted_at
accepted n = elim n.host [ none ↦ none | some host ↦ accepted_at host (is_valid_port n.port) ]

pub record Sifted : Type 0 where
  pub nodes : List Peer
  pub rejected : ℕ

pub add_sifted : Option Peer → Sifted → Sifted
add_sifted none s = record s { rejected = s.rejected + 1 }
add_sifted (some p) s = record s { nodes = p ∷ s.nodes }

pub sift : List RawNode → Sifted
unfolding add_sifted accepted
sift [] = record { nodes = []; rejected = 0 }
sift (n ∷ ns) = add_sifted (accepted n) (sift ns)

-- `{ host: n.host, port: n.port }`, as the store gives it back.
pub raw : Peer → RawNode
raw p = record { host = some p.host; port = whole p.port false }

pub written_nodes : ℕ → List Peer → Option Contribution
unfolding raw
written_nodes now [] = none
written_nodes now (p ∷ ps) = some (record { nodes = map raw (p ∷ ps); ts = now })

-- `postNodes` on a well-formed body: what is stored under a fresh key, and the two numbers answered.
pub post_nodes : ℕ → List RawNode → Option Contribution × ℕ × ℕ
unfolding sift written_nodes
post_nodes now nodes =
    let s = sift (take max_nodes_per_contrib nodes) in
    (written_nodes now s.nodes, length s.nodes, s.rejected)

pub pool_key : PoolNode → Text
pool_key n = key (record { host = n.host; port = n.port })

-- The table `seen`.
abbrev pub Seen : Type 0
Seen = List (Text × PoolNode)

-- `seen.set`, unless the node is too old. A key that is there keeps its place.
pub carry_one : ℕ → PoolNode → Seen → Seen
unfolding pool_key
carry_one now n seen =
    if ltb (n.last_seen + contrib_ttl_ms) now
    then seen
    else set (pool_key n) (record n { sources = or_else n.sources 1 }) seen

pub carry_from : ℕ → Seen → List PoolNode → Seen
unfolding carry_one
carry_from now seen [] = seen
carry_from now seen (n ∷ ns) = carry_from now (carry_one now n seen) ns

-- The pool is carried forward, without the nodes that are too old.
pub carry : ℕ → List PoolNode → Seen
unfolding carry_from
carry now nodes = carry_from now [] nodes

-- `new Set().add`
pub add_key : Text → List Text → List Text
add_key k [] = k ∷ []
add_key k (j ∷ ks) = if same j k then j ∷ ks else j ∷ add_key k ks

pub node_key : RawNode → Option Text
node_key n = elim n.host [
  | none ↦ none
  | some host ↦ elim n.port [
    | whole p false ↦ some (key (record { host = host; port = p }))
    | _ ↦ none
  ]
]

pub add_node_key : Option Text → List Text → List Text
unfolding add_key
add_node_key none ks = ks
add_node_key (some k) ks = add_key k ks

pub distinct_from : List Text → List RawNode → List Text
unfolding add_node_key
distinct_from ks [] = ks
distinct_from ks (n ∷ ns) = distinct_from (add_node_key (node_key n) ks) ns

-- The addresses of one contribution, each once.
pub distinct : List RawNode → List Text
unfolding distinct_from node_key
distinct nodes = distinct_from [] nodes

-- `key.slice(0, key.lastIndexOf(':'))` and the number behind it. Every key has a colon.
pub new_node : Text → ℕ → PoolNode
new_node k ts = elim (split_last b':' k) [
  | none ↦ record { host = []; port = number k; sources = 1; last_seen = ts }
  | some (host, port) ↦ record { host = host; port = number port; sources = 1; last_seen = ts }
]

pub seen_again : Text → ℕ → Option PoolNode → PoolNode
unfolding new_node
seen_again k ts none = new_node k ts
seen_again k ts (some prior) = record prior {
  sources = prior.sources + 1;
  last_seen = max prior.last_seen ts;
}

pub add_keys : ℕ → List Text → Seen → Seen
unfolding seen_again
add_keys ts [] seen = seen
add_keys ts (k ∷ ks) seen = add_keys ts ks (set k (seen_again k ts (lookup k seen)) seen)

-- One contribution, or a body that could not be read.
pub add_body : ℕ → Option Contribution → Seen → Seen
unfolding add_keys
add_body now none seen = seen
add_body now (some c) seen = add_keys (or_else c.ts now) (distinct c.nodes) seen

pub add_bodies : ℕ → List (Option Contribution) → Seen → Seen
unfolding add_body
add_bodies now [] seen = seen
add_bodies now (b ∷ bs) seen = add_bodies now bs (add_body now b seen)

abbrev pub batch : ℕ
batch = 50

-- The loop over `names` in steps of `BATCH`; the fuel is the number of names.
pub add_batches : ℕ → (Text → Option Contribution) → ℕ → List Text → Seen → Seen
add_batches now get zero names seen = seen
add_batches now get (suc f) [] seen = seen
add_batches now get (suc f) (n ∷ ns) seen =
    add_batches now get f (drop batch (n ∷ ns))
      (add_bodies now (map get (take batch (n ∷ ns))) seen)

-- A page of the key listing.
pub record Page : Type 0 where
  pub names : List Text
  pub complete : Bool

-- The names of all pages, and whether the sweep was cut short.
pub sweep : List Text → List Page → List Text × Bool
sweep names [] = (names, false)
sweep names (p ∷ ps) =
    let names' = names ++ p.names in
    let rest = sweep names' ps in
    if leb max_contrib_keys (length names')
    then (names', true)
    else (if p.complete then (names', false) else rest)

-- `b.sources - a.sources || b.lastSeen - a.lastSeen`
pub ranks_before : PoolNode → PoolNode → Bool
ranks_before a b =
    if a.sources == b.sources then leb b.last_seen a.last_seen else ltb b.sources a.sources

pub values : Seen → List PoolNode
values = map (λ e. e.1)

pub corroborates : PoolNode → Bool
corroborates n = leb min_distinct_sources n.sources

pub pool_nodes : Option Pool → List PoolNode
pool_nodes none = []
pool_nodes (some p) = p.nodes

pub aggregate_nodes : ℕ → Option Pool → List Page → (Text → Option Contribution) → Pool
unfolding values corroborates pool_nodes
aggregate_nodes now existing pages get =
    let (names, truncated) = sweep [] pages in
    let all = values (add_batches now get (length names) names (carry now (pool_nodes existing))) in
    record {
      nodes = take max_pool_nodes (sort ranks_before all);
      ts = now;
      contributions = length names;
      corroborated = length (filter corroborates all);
      truncated = truncated;
    }

-- What `getNodes` answers, where the edge cache has nothing.
pub public_floor : List Peer
public_floor =
    record { host = text "dht.libtorrent.org"; port = 25401 }
    ∷ record { host = text "dht.transmissionbt.com"; port = 6881 }
    ∷ []

pub peer_of_node : PoolNode → Peer
peer_of_node n = record { host = n.host; port = n.port }

pub served : Option Pool → List Peer
unfolding peer_of_node pool_nodes
served pool = map peer_of_node (take max_nodes_served (pool_nodes pool)) ++ public_floor
