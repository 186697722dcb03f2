-- ===== src/Crawler/Stages.antt =====
-- dhtCrawler.js: the crawler's state, and the steps of its four kinds of workers.
--
-- A worker runs without interruption from one wait to the next: a step is what it does in between.
-- What it waits for (a reply, the metadata, the clock, the routing table) is an argument of the step.
use swarmproof.Base.{
  Bool, List, Option, [], drop, false, if◌then◌else◌, leb, length, ltb, none, some, suc, take, true,
  zero, ℕ, ◌%◌, ◌&&◌, ◌*◌, ◌++◌, ◌+◌, ◌-◌, ◌/◌, ◌∷◌,
}
use swarmproof.Base.Text.{Text}
use swarmproof.ContentFilter.{ContentFilter}
use swarmproof.Crawler.Compact.{decode_nodes}
use swarmproof.Crawler.Index.{Index, is_resolved, note_seen}
use swarmproof.Crawler.Nodes.{
  NodeState, NodeTable, enqueue, node_queue_max, node_state, write_state,
}
use swarmproof.PeerTable.{Peer, PeerTable, key}

abbrev pub lead_queue_max : ℕ
lead_queue_max = 5000

abbrev pub meta_queue_max : ℕ
meta_queue_max = 2000

abbrev pub sample_interval_fallback_s : ℕ
sample_interval_fallback_s = 21_600

abbrev pub busy_node_interval_s : ℕ
busy_node_interval_s = 60

abbrev pub interval_honour_threshold_s : ℕ
interval_honour_threshold_s = 300

-- A hash, and a node that is known to hold it.
pub record Lead : Type 0 where
  pub hash : Text
  pub node : Peer

pub record Job : Type 0 where
  pub hash : Text
  pub peers : List Peer

-- A node that a sample worker waits for, and the epoch of its state.
pub record Asked : Type 0 where
  pub node : Peer
  pub epoch : ℕ

pub record CrawlStats : Type 0 where
  pub queried : ℕ
  pub sampled : ℕ
  pub stored : ℕ
  pub leads : ℕ
  pub peer_hits : ℕ
  pub peer_misses : ℕ
  pub meta_attempts : ℕ
  pub named : ℕ
  pub dropped : ℕ
  pub blocked : ℕ
  pub errors : ℕ
  pub find_node : ℕ
  pub discovered : ℕ

unfoldable pub no_stats : CrawlStats
no_stats = record {
  queried = 0;
  sampled = 0;
  stored = 0;
  leads = 0;
  peer_hits = 0;
  peer_misses = 0;
  meta_attempts = 0;
  named = 0;
  dropped = 0;
  blocked = 0;
  errors = 0;
  find_node = 0;
  discovered = 0;
}

-- The workers of a kind: how many stand at the head of their loop, or pause before it.
pub record Idle : Type 0 where
  pub samplers : ℕ
  pub finders : ℕ
  pub lookups : ℕ
  pub fetchers : ℕ

pub record Crawler : Type 0 where
  pub running : Bool
  pub queue : List Peer
  pub discovery_queue : List Peer
  pub leads : List Lead
  pub pending_meta : List Job
  pub nodes : NodeTable
  pub peer_table : PeerTable
  pub filter : ContentFilter
  pub index : Index
  pub stats : CrawlStats
  pub sweep : ℕ
  pub idle : Idle
  -- what the busy workers of each kind wait for
  pub sampling : List Asked
  pub finding : List Peer
  pub asking : List Lead
  pub holding : List Job
  pub naming : List Job

-- The work of a busy worker leaves its list.
unfoldable pub nth {ℓ} : {A : Type ℓ} → ℕ → List A → Option A
nth i [] = none
nth zero (x ∷ xs) = some x
nth (suc i) (x ∷ xs) = nth i xs

unfoldable pub remove_at {ℓ} : {A : Type ℓ} → ℕ → List A → List A
remove_at i [] = []
remove_at zero (x ∷ xs) = xs
remove_at (suc i) (x ∷ xs) = x ∷ remove_at i xs

unfoldable pub enqueue_nodes : ℕ → List Peer → Crawler → Crawler
enqueue_nodes now ns c =
    let (t, q) = enqueue now ns c.nodes c.queue in record c { nodes = t; queue = q }

-- `_sampleWorker`, from the head of the loop to the query: the queue is empty, or a node is asked.
unfoldable pub ask_sample : ℕ → List Peer → List Peer → Crawler → Crawler
unfolding enqueue_nodes
ask_sample now routing [] c = enqueue_nodes now routing c
ask_sample now routing (n ∷ ns) c =
    let (s, t) = node_state (key n) c.nodes in
    record c {
      queue = ns;
      nodes = t;
      sweep = c.sweep + 1;
      stats = record (c.stats) { queried = c.stats.queried + 1 };
      idle = record (c.idle) { samplers = c.idle.samplers - 1 };
      sampling = record { node = n; epoch = t.epoch } ∷ c.sampling;
    }

unfoldable pub take_sample : ℕ → List Peer → Crawler → Crawler
unfolding ask_sample
take_sample now routing c =
    if c.running
    then ask_sample now routing c.queue c
    else record c { idle = record (c.idle) { samplers = c.idle.samplers - 1 } }

-- The interval of a reply in seconds, which a node may also give as a negative number.
pub data Seconds : Type 0 where
  ahead : ℕ → Seconds
  behind : ℕ → Seconds

-- The fields of a reply that the worker reads; `none` is an interval that is no number, or zero.
pub record SampleReply : Type 0 where
  pub samples : Option (List ℕ)
  pub interval : Option Seconds
  pub nodes : Option (List ℕ)

unfoldable pub hex_digit : ℕ → ℕ
hex_digit d = if ltb d 10 then b'0' + d else b'a' + (d - 10)

unfoldable pub hex : List ℕ → Text
unfolding hex_digit
hex [] = []
hex (b ∷ bs) = hex_digit (b / 16) ∷ hex_digit (b % 16) ∷ hex bs

-- What the loop over the samples changes.
pub record Harvest : Type 0 where
  pub index : Index
  pub leads : List Lead
  pub sampled : ℕ
  pub stored : ℕ
  pub queued : ℕ
  pub fresh : ℕ

unfoldable pub add_lead : ℕ → Lead → Harvest → Harvest
add_lead hits l h =
    if ltb (length h.leads) lead_queue_max
    then record h {
      leads = if ltb 1 hits then l ∷ h.leads else h.leads ++ l ∷ [];
      queued = h.queued + 1;
    }
    else h

unfoldable pub harvest_one : ℕ → Peer → Text → Harvest → Harvest
unfolding add_lead
harvest_one now node hash h =
    let (hits, index) = note_seen now hash h.index in
    let h' = record h { index = index; sampled = h.sampled + 1; stored = h.stored + 1 } in
    if is_resolved hash index
    then h'
    else add_lead hits (record { hash = hash; node = node }) (record h' { fresh = h.fresh + 1 })

-- The loop, with the rounds that `i + 20 <= samples.length` allows.
unfoldable pub harvest_from : ℕ → ℕ → Peer → List ℕ → Harvest → Harvest
unfolding harvest_one hex
harvest_from zero now node bytes h = h
harvest_from (suc rounds) now node bytes h =
    harvest_from rounds now node (drop 20 bytes) (harvest_one now node (hex (take 20 bytes)) h)

unfoldable pub harvest : ℕ → Peer → Option (List ℕ) → Harvest → Harvest
unfolding harvest_from
harvest now node none h = h
harvest now node (some bytes) h = harvest_from (length bytes / 20) now node bytes h

unfoldable pub interval_or_fallback : Option Seconds → Seconds
interval_or_fallback none = ahead sample_interval_fallback_s
interval_or_fallback (some s) = s

-- `state.nextAt`, where a time before the clock's zero is zero.
unfoldable pub next_time : ℕ → ℕ → Seconds → ℕ
next_time now found_new (behind s) = now - s * 1000
next_time now found_new (ahead s) =
    if ltb 0 found_new && ltb interval_honour_threshold_s s
    then now + busy_node_interval_s * 1000
    else now + s * 1000

unfoldable pub strike : NodeState → NodeState
strike s = record s {
  failures = s.failures + 1;
  supports = if leb 2 (s.failures + 1) then some false else s.supports;
}

unfoldable pub answered_at : ℕ → NodeState → NodeState
answered_at next s = record s { supports = some true; failures = 0; next_at = next }

-- `_sampleWorker` after the query.
unfoldable pub use_sample : ℕ → Asked → Option SampleReply → Crawler → Crawler
unfolding strike
use_sample now a none c = record c {
  nodes = write_state a.epoch (key a.node) strike c.nodes;
  stats = record (c.stats) { errors = c.stats.errors + 1 };
}
use_sample now a (some r) c =
    let h = harvest now a.node r.samples (record {
      index = c.index;
      leads = c.leads;
      sampled = 0;
      stored = 0;
      queued = 0;
      fresh = 0;
    }) in
    let next = next_time now h.fresh (interval_or_fallback r.interval) in
    enqueue_nodes now (decode_nodes r.nodes) (record c {
      index = h.index;
      leads = h.leads;
      nodes = write_state a.epoch (key a.node) (answered_at next) c.nodes;
      stats = record (c.stats) {
        sampled = c.stats.sampled + h.sampled;
        stored = c.stats.stored + h.stored;
        leads = c.stats.leads + h.queued;
      };
    })

unfoldable pub sampler_back : ℕ → Crawler → Crawler
sampler_back i c = record c {
  sampling = remove_at i c.sampling;
  idle = record (c.idle) { samplers = c.idle.samplers + 1 };
}

unfoldable pub sampled_at : ℕ → Option Asked → Option SampleReply → ℕ → Crawler → Crawler
unfolding use_sample sampler_back
sampled_at i none r now c = c
sampled_at i (some a) r now c = use_sample now a r (record c {
  sampling = remove_at i c.sampling;
  idle = record (c.idle) { samplers = c.idle.samplers + 1 };
})

-- `if (this.discoveryQueue.length < NODE_QUEUE_MAX) this.discoveryQueue.push(n)`, for each.
unfoldable pub offer_all : List Peer → List Peer → List Peer
offer_all [] queue = queue
offer_all (n ∷ ns) queue =
    offer_all ns (if ltb (length queue) node_queue_max then queue ++ n ∷ [] else queue)

-- `_discoveryWorker`, from the head of the loop to the query.
unfoldable pub ask_neighbours : List Peer → List Peer → Crawler → Crawler
unfolding offer_all
ask_neighbours routing [] c = record c {
  discovery_queue = offer_all (routing ++ take 200 c.queue) c.discovery_queue;
}
ask_neighbours routing (n ∷ ns) c = record c {
  discovery_queue = ns;
  sweep = c.sweep + 1;
  stats = record (c.stats) { find_node = c.stats.find_node + 1 };
  idle = record (c.idle) { finders = c.idle.finders - 1 };
  finding = n ∷ c.finding;
}

unfoldable pub take_discovery : List Peer → Crawler → Crawler
unfolding ask_neighbours
take_discovery routing c =
    if c.running
    then ask_neighbours routing c.discovery_queue c
    else record c { idle = record (c.idle) { finders = c.idle.finders - 1 } }

-- `_discoveryWorker` after the query: the `nodes` of the reply, if there is one.
unfoldable pub use_neighbours : ℕ → Option (Option (List ℕ)) → Crawler → Crawler
use_neighbours now none c = c
use_neighbours now (some raw) c =
    let found = decode_nodes raw in
    let c' = enqueue_nodes now found c in
    record c' {
      discovery_queue = offer_all found c'.discovery_queue;
      stats = record (c'.stats) { discovered = c'.stats.discovered + length found };
    }

unfoldable pub finder_back : ℕ → Crawler → Crawler
finder_back i c = record c {
  finding = remove_at i c.finding;
  idle = record (c.idle) { finders = c.idle.finders + 1 };
}

unfoldable pub found_at : ℕ → Option Peer → Option (Option (List ℕ)) → ℕ → Crawler → Crawler
unfolding use_neighbours finder_back
found_at i none r now c = c
found_at i (some n) r now c = use_neighbours now r (record c {
  finding = remove_at i c.finding;
  idle = record (c.idle) { finders = c.idle.finders + 1 };
})
