-- ===== src/Crawler/Run.antt =====
-- dhtCrawler.js: construction, `start` and `stop`, and a run as any sequence of steps.
pub mod Bounded
pub mod Gate
pub mod Running
pub mod Accounts
pub mod Workers
mod Tests
use swarmproof.Base.{
  Bool, List, Option, [], false, filter, if◌then◌else◌, length, ltb, true, ℕ, ◌&&◌, ◌*◌, ◌+◌, ◌∷◌,
}
use swarmproof.Base.Text.{Text}
use swarmproof.ContentFilter.{ContentFilter}
use swarmproof.Crawler.Index.{Index}
use swarmproof.Crawler.Naming.{asked_at, held_at, named_at, take_job, take_lead}
use swarmproof.Crawler.Stages.{
  Crawler, Idle, SampleReply, enqueue_nodes, found_at, no_stats, nth, sampled_at, take_discovery,
  take_sample,
}
use swarmproof.Metainfo.{Meta}
use swarmproof.PeerTable.{Call, Peer, PeerTable, step}
use swarmproof.Worker.Pool.{sweep, values}

-- How many workers of each kind `start` sets going.
pub record Concurrency : Type 0 where
  pub discovery : ℕ
  pub sample : ℕ
  pub peer : ℕ
  pub metadata : ℕ

pub default_concurrency : Concurrency
default_concurrency = record { discovery = 20; sample = 40; peer = 100; metadata = 300 }

pub no_one : Idle
no_one = record { samplers = 0; finders = 0; lookups = 0; fetchers = 0 }

-- The constructor, over the tables that it is given.
pub new_crawler : PeerTable → ContentFilter → Index → Crawler
unfolding no_one
new_crawler peer_table filter index = record {
  running = false;
  queue = [];
  discovery_queue = [];
  leads = [];
  pending_meta = [];
  nodes = record { entries = []; epoch = 0 };
  peer_table = peer_table;
  filter = filter;
  index = index;
  stats = no_stats;
  sweep = 0;
  idle = no_one;
  sampling = [];
  finding = [];
  asking = [];
  holding = [];
  naming = [];
}

-- `start`, without the timer that it sets. The new workers stand at the heads of their loops.
pub start_crawl : Concurrency → ℕ → List Peer → Crawler → Crawler
start_crawl k now routing c =
    if c.running
    then c
    else (let c' = enqueue_nodes now routing (record c { running = true }) in
        record c' {
          idle = record {
            samplers = c.idle.samplers + k.sample;
            finders = c.idle.finders + k.discovery;
            lookups = c.idle.lookups + k.peer;
            fetchers = c.idle.fetchers + k.metadata;
          };
        })

pub stop : Crawler → Crawler
stop c = record c { running = false }

-- The timer's call: the queue is topped up from the routing table when it runs low. `stop` clears it.
pub reseed_tick : Concurrency → ℕ → List Peer → Crawler → Crawler
reseed_tick k now routing c =
    if c.running && ltb (length c.queue) (k.sample * 4) then enqueue_nodes now routing c else c

pub data CrawlEvent : Type 0 where
  starts : ℕ → List Peer → CrawlEvent
  stops : CrawlEvent
  reseeds : ℕ → List Peer → CrawlEvent
  -- a worker of a kind goes round its loop
  sample_turn : ℕ → List Peer → CrawlEvent
  discovery_turn : List Peer → CrawlEvent
  lookup_turn : CrawlEvent
  fetch_turn : CrawlEvent
  -- what a busy worker waits for has come, by its place
  sample_ends : ℕ → Option SampleReply → ℕ → CrawlEvent
  discovery_ends : ℕ → Option (Option (List ℕ)) → ℕ → CrawlEvent
  lookup_ends : ℕ → Option (List (Option (List ℕ))) → ℕ → CrawlEvent
  wait_ends : ℕ → CrawlEvent
  fetch_ends : ℕ → Option Meta → CrawlEvent
  -- a call that an attempt in the air makes on the peer table
  learns : Call → CrawlEvent

module _ (k : Concurrency) (matches : Text → Text → Bool) where
  pub on_crawl : Crawler → CrawlEvent → Crawler
  unfolding start_crawl stop reseed_tick
  on_crawl c (starts now routing) = start_crawl k now routing c
  on_crawl c stops = stop c
  on_crawl c (reseeds now routing) = reseed_tick k now routing c
  on_crawl c (sample_turn now routing) =
      if ltb 0 c.idle.samplers then take_sample now routing c else c
  on_crawl c (discovery_turn routing) = if ltb 0 c.idle.finders then take_discovery routing c else c
  on_crawl c lookup_turn = if ltb 0 c.idle.lookups then take_lead c else c
  on_crawl c fetch_turn = if ltb 0 c.idle.fetchers then take_job c else c
  on_crawl c (sample_ends i r now) = sampled_at i (nth i c.sampling) r now c
  on_crawl c (discovery_ends i r now) = found_at i (nth i c.finding) r now c
  on_crawl c (lookup_ends i values now) = asked_at i (nth i c.asking) values now c
  on_crawl c (wait_ends i) = held_at i (nth i c.holding) c
  on_crawl c (fetch_ends i fetched) = named_at matches i (nth i c.naming) fetched c
  on_crawl c (learns call) = record c { peer_table = step c.peer_table call }

  pub crawl : Crawler → List CrawlEvent → Crawler
  unfolding on_crawl
  crawl c [] = c
  crawl c (e ∷ es) = crawl (on_crawl c e) es
