-- ===== src/Crawler/Run/Workers.antt =====
-- dhtCrawler.js: how many workers there are, and so how much is in the air.
pub mod Turns
pub mod Ends
use swarmproof.Crawler.Run.Workers.Ends.{
  named_at-CrewOf, held_at-CrewOf, asked_at-CrewOf, found_at-CrewOf, sampled_at-CrewOf,
  start_crawl-CrewOf,
}
use swarmproof.Crawler.Run.Workers.Turns.{
  ask_metadata-CrewOf, ask_peers-CrewOf, ask_neighbours-CrewOf, ask_sample-CrewOf, guarded-CrewOf,
  count_begun, add_start, CrewOf,
}
use mathlib.Core.Path.{subst}
use swarmproof.Crawler.Run.Running.{running-on_crawl, runs_after}
use swarmproof.Crawler.Index.{Index}
use swarmproof.Crawler.Run.{
  crawl, new_crawler, no_one, discovery_ends, discovery_turn, fetch_ends, fetch_turn, learns,
  lookup_ends, lookup_turn, on_crawl, reseeds, sample_ends, sample_turn, stops, wait_ends,
  Concurrency, CrawlEvent, start_crawl, starts,
}
use swarmproof.PeerTable.{PeerTable, Peer}
use swarmproof.Base.{
  ltb, ◌∙◌, Bool, List, Option, [], ap, arith, false, if◌then◌else◌, length, none, refl, some, suc,
  true, zero, ℕ, ◌*◌, ◌+◌, ◌<◌, ◌∷◌, ◌≡◌, ◌≤◌,
}
use swarmproof.Crawler.Naming.{
  take_job, take_lead, admit, ask_metadata, ask_peers, asked_at, fetcher_back, gate, held_at,
  hold_ended, lead_taken, named_at, peers_found, use_metadata, use_peers,
}
use swarmproof.Crawler.Stages.{
  take_discovery, take_sample, Asked, Crawler, Idle, Job, Lead, SampleReply, ask_neighbours,
  ask_sample, enqueue_nodes, finder_back, found_at, nth, remove_at, sampled_at, sampler_back,
  use_neighbours, use_sample,
}
use swarmproof.Base.Text.{Text}
use swarmproof.ContentFilter.{ContentFilter, Reason, check}
use swarmproof.Crawler.Compact.{decode_peers}
use swarmproof.Metainfo.{Meta}
use swarmproof.Worker.Pool.{values}

begun_once :
    (now : ℕ) (routing : List Peer) (b : Bool) (n : ℕ)
    → (if b then n else suc n) ≡ add_start (starts now routing) b n
unfolding add_start
begun_once now routing true n = refl
begun_once now routing false n = refl

module _ (k : Concurrency) where
  pos_of_ltb : (n : ℕ) → ltb 0 n ≡ true → 0 < n
  pos_of_ltb n h = ground arith

  turn-CrewOf :
      (n idle : ℕ) (c d e : Crawler)
      → (0 < idle → CrewOf k n d)
      → (0 < idle → CrewOf k n e)
      → CrewOf k n c
      → CrewOf k n (if ltb 0 idle then (if c.running then d else e) else c)
  turn-CrewOf n idle c d e v u w =
      guarded-CrewOf k n _ _ c
        (λ b. guarded-CrewOf k n c.running d e (λ r. v (pos_of_ltb idle b)) (u (pos_of_ltb idle b)))
        w

  module _ (matches : Text → Text → Bool) where
    on_crawl-CrewOf :
        (n : ℕ) (c : Crawler) (e : CrawlEvent)
        → CrewOf k n c
        → CrewOf k (add_start e c.running n) (on_crawl k matches c e)
    unfolding on_crawl take_sample take_discovery take_lead take_job enqueue_nodes add_start
    on_crawl-CrewOf n c (starts now routing) w =
        subst (λ (m : ℕ). CrewOf k m (start_crawl k now routing c))
          (begun_once now routing c.running n) (start_crawl-CrewOf k n now routing c w)
    on_crawl-CrewOf n c stops w = w
    on_crawl-CrewOf n c (reseeds now routing) w = guarded-CrewOf k n _ _ c (λ b. w) w
    on_crawl-CrewOf n c (sample_turn now routing) w =
        turn-CrewOf n c.idle.samplers c _ _ (λ p. ask_sample-CrewOf k n now routing c.queue c p w)
          (λ p. record {
            samplers_fit = omega (arith, w.samplers_fit, p);
            finders_fit = w.finders_fit;
            lookups_fit = w.lookups_fit;
            fetchers_fit = w.fetchers_fit;
          })
          w
    on_crawl-CrewOf n c (discovery_turn routing) w =
        turn-CrewOf n c.idle.finders c _ _
          (λ p. ask_neighbours-CrewOf k n routing c.discovery_queue c p w)
          (λ p. record {
            samplers_fit = w.samplers_fit;
            finders_fit = omega (arith, w.finders_fit, p);
            lookups_fit = w.lookups_fit;
            fetchers_fit = w.fetchers_fit;
          })
          w
    on_crawl-CrewOf n c lookup_turn w =
        turn-CrewOf n c.idle.lookups c _ _ (λ p. ask_peers-CrewOf k n c.leads c p w)
          (λ p. record {
            samplers_fit = w.samplers_fit;
            finders_fit = w.finders_fit;
            lookups_fit = omega (arith, w.lookups_fit, p);
            fetchers_fit = w.fetchers_fit;
          })
          w
    on_crawl-CrewOf n c fetch_turn w =
        turn-CrewOf n c.idle.fetchers c _ _ (λ p. ask_metadata-CrewOf k n c.pending_meta c p w)
          (λ p. record {
            samplers_fit = w.samplers_fit;
            finders_fit = w.finders_fit;
            lookups_fit = w.lookups_fit;
            fetchers_fit = omega (arith, w.fetchers_fit, p);
          })
          w
    on_crawl-CrewOf n c (sample_ends i r now) w =
        sampled_at-CrewOf k n i (nth i c.sampling) r now c refl w
    on_crawl-CrewOf n c (discovery_ends i r now) w =
        found_at-CrewOf k n i (nth i c.finding) r now c refl w
    on_crawl-CrewOf n c (lookup_ends i values now) w =
        asked_at-CrewOf k n i (nth i c.asking) values now c refl w
    on_crawl-CrewOf n c (wait_ends i) w = held_at-CrewOf k n i (nth i c.holding) c refl w
    on_crawl-CrewOf n c (fetch_ends i fetched) w =
        named_at-CrewOf k n matches i (nth i c.naming) fetched c refl w
    on_crawl-CrewOf n c (learns call) w = w

    crawl-CrewOf_from :
        (n : ℕ) (c : Crawler) (es : List CrawlEvent) (b : Bool)
        → c.running ≡ b
        → CrewOf k n c
        → CrewOf k (count_begun es b n) (crawl k matches c es)
    unfolding crawl count_begun
    crawl-CrewOf_from n c [] b r w = w
    crawl-CrewOf_from n c (e ∷ es) b r w =
        crawl-CrewOf_from (add_start e b n) (on_crawl k matches c e) es (runs_after e b)
          (running-on_crawl k matches c e ∙ ap (runs_after e) r)
          (subst (λ (d : Bool). CrewOf k (add_start e d n) (on_crawl k matches c e)) r
            (on_crawl-CrewOf n c e w))

    -- In any run of a new crawler, the workers of each kind, idle or busy, are at most as many as those
    -- starts have set going that find the crawler stopped. By the events alone, these are the first start
    -- and each one that is the first behind a stop.
    pub crawl-CrewOf :
        (t : PeerTable) (f : ContentFilter) (index : Index) (es : List CrawlEvent)
        → CrewOf k (count_begun es false 0) (crawl k matches (new_crawler t f index) es)
    unfolding new_crawler no_one
    crawl-CrewOf t f index es = crawl-CrewOf_from 0 (new_crawler t f index) es false refl (record {
      samplers_fit = omega arith;
      finders_fit = omega arith;
      lookups_fit = omega arith;
      fetchers_fit = omega arith;
    })
