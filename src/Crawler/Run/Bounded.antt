-- ===== src/Crawler/Run/Bounded.antt =====
-- dhtCrawler.js: no queue and no table grows past its bound.
pub mod Queues
pub mod Steps
use swarmproof.Crawler.Run.Bounded.Steps.{
  named_at-Within, held_at-Within, asked_at-Within, found_at-Within, sampled_at-Within,
  ask_metadata-Within, ask_peers-Within, ask_neighbours-Within, ask_sample-Within,
  enqueue_nodes-Within, Within,
}
use swarmproof.Crawler.Naming.{
  fetcher_back, hold_ended, lead_taken, ask_metadata, ask_peers, asked_at, gate, held_at, named_at,
  take_job, take_lead, use_metadata, use_peers, admit,
}
use swarmproof.Crawler.Nodes.{NodeTable, node_queue_max}
use swarmproof.Crawler.Stages.{
  finder_back, sampler_back, found_at, no_stats, nth, sampled_at, take_discovery, take_sample,
  Asked, Crawler, Harvest, Job, Lead, SampleReply, add_lead, ask_neighbours, ask_sample,
  enqueue_nodes, harvest, harvest_from, harvest_one, hex, lead_queue_max, meta_queue_max, offer_all,
  strike, use_neighbours, use_sample,
}
use swarmproof.Base.{
  Bool, ap, false, refl, true, Bool-cases, List, Option, [], arith, drop, if◌then◌else◌, inl, inr,
  length, length-append, ltb, none, some, suc, take, zero, ℕ, ◌*◌, ◌++◌, ◌/◌, ◌∷◌, ◌≡◌, ◌≤◌,
}
use swarmproof.ContentFilter.{ContentFilter, Reason, check}
use swarmproof.Crawler.Compact.{decode_peers, decode_nodes}
use swarmproof.Crawler.Index.{Index, is_resolved, note_seen}
use swarmproof.Crawler.Run.{
  Concurrency, CrawlEvent, crawl, discovery_ends, discovery_turn, fetch_ends, fetch_turn, learns,
  lookup_ends, lookup_turn, new_crawler, on_crawl, reseeds, sample_ends, sample_turn, starts, stops,
  wait_ends,
}
use swarmproof.Metainfo.{Meta, is_empty}
use swarmproof.PeerTable.{PeerTable, Peer, key}
use swarmproof.Worker.Pool.{values}
use swarmproof.Base.Text.{Text}
use swarmproof.Crawler.Nodes.Bounded.{enqueue_bounds, node_state-IsSmall, write_state-IsSmall}

guarded-Within : (b : Bool) (c d : Crawler) → Within c → Within d → Within (if b then c else d)
guarded-Within true c d v w = v
guarded-Within false c d v w = w

module _ (k : Concurrency) (matches : Text → Text → Bool) where
  on_crawl-Within : (c : Crawler) (e : CrawlEvent) → Within c → Within (on_crawl k matches c e)
  unfolding on_crawl take_sample take_discovery take_lead take_job
  on_crawl-Within c (starts now routing) w =
      guarded-Within c.running c _ w
        (enqueue_nodes-Within now routing (record c { running = true }) w)
  on_crawl-Within c stops w = w
  on_crawl-Within c (reseeds now routing) w =
      guarded-Within _ _ c (enqueue_nodes-Within now routing c w) w
  on_crawl-Within c (sample_turn now routing) w =
      guarded-Within _ _ c
        (guarded-Within c.running _ _ (ask_sample-Within now routing c.queue c refl w) w) w
  on_crawl-Within c (discovery_turn routing) w =
      guarded-Within _ _ c
        (guarded-Within c.running _ _ (ask_neighbours-Within routing c.discovery_queue c refl w) w)
        w
  on_crawl-Within c lookup_turn w =
      guarded-Within _ _ c (guarded-Within c.running _ _ (ask_peers-Within c.leads c refl w) w) w
  on_crawl-Within c fetch_turn w =
      guarded-Within _ _ c
        (guarded-Within c.running _ _ (ask_metadata-Within c.pending_meta c refl w) w) w
  on_crawl-Within c (sample_ends i r now) w = sampled_at-Within i (nth i c.sampling) r now c w
  on_crawl-Within c (discovery_ends i r now) w = found_at-Within i (nth i c.finding) r now c w
  on_crawl-Within c (lookup_ends i values now) w = asked_at-Within i (nth i c.asking) values now c w
  on_crawl-Within c (wait_ends i) w = held_at-Within i (nth i c.holding) c w
  on_crawl-Within c (fetch_ends i fetched) w =
      named_at-Within matches i (nth i c.naming) fetched c w
  on_crawl-Within c (learns call) w = w

  crawl-Within_from :
      (c : Crawler) (es : List CrawlEvent) → Within c → Within (crawl k matches c es)
  unfolding crawl
  crawl-Within_from c [] w = w
  crawl-Within_from c (e ∷ es) w =
      crawl-Within_from (on_crawl k matches c e) es (on_crawl-Within c e w)

  -- In any run of a new crawler, whatever the nodes and peers answer and in whatever order the workers
  -- go on: both queues of nodes, the leads and the queue of the naming stage stay within their bounds,
  -- and so does the table of nodes; and the counter of dropped hashes stays at zero.
  pub crawl-Within :
      (t : PeerTable) (f : ContentFilter) (index : Index) (es : List CrawlEvent)
      → Within (crawl k matches (new_crawler t f index) es)
  unfolding new_crawler no_stats
  crawl-Within t f index es = crawl-Within_from (new_crawler t f index) es (record {
    queue_fits = omega arith;
    discovery_fits = omega arith;
    leads_fit = omega arith;
    pending_fits = omega arith;
    nodes_fit = omega arith;
    kept = refl;
  })
