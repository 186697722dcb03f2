-- ===== src/Crawler/Run/Workers/Ends.antt =====
-- dhtCrawler.js: the workers of each kind, when what a busy one waits for has come.
use swarmproof.Crawler.Run.Workers.Turns.{length-remove_at, guarded-CrewOf, CrewOf}
use swarmproof.Crawler.Run.{Concurrency, start_crawl}
use swarmproof.PeerTable.{Peer}
use swarmproof.Base.{
  if◌then◌else◌, Bool-cases, inl, inr, Bool, List, Option, [], arith, length, none, some, suc, ℕ,
  ◌*◌, ◌+◌, ◌<◌, ◌∷◌, ◌≡◌,
}
use swarmproof.Crawler.Naming.{
  admit, asked_at, fetcher_back, gate, held_at, hold_ended, lead_taken, named_at, peers_found,
  use_metadata, use_peers,
}
use swarmproof.Crawler.Stages.{
  Asked, Crawler, Job, Lead, SampleReply, enqueue_nodes, finder_back, found_at, nth, sampled_at,
  sampler_back, use_neighbours, use_sample,
}
use swarmproof.Base.Text.{Text}
use swarmproof.ContentFilter.{ContentFilter, Reason, check}
use swarmproof.Crawler.Compact.{decode_peers}
use swarmproof.Metainfo.{Meta}
use swarmproof.Worker.Pool.{values}

module _ (k : Concurrency) where
  pub use_sample-CrewOf :
      (n now : ℕ) (a : Asked) (r : Option SampleReply) (c : Crawler)
      → CrewOf k n c
      → CrewOf k n (use_sample now a r c)
  unfolding use_sample enqueue_nodes
  use_sample-CrewOf n now a none c w = w
  use_sample-CrewOf n now a (some r) c w = w

  pub sampled_at-CrewOf :
      (n i : ℕ) (o : Option Asked) (r : Option SampleReply) (now : ℕ) (c : Crawler)
      → nth i c.sampling ≡ o
      → CrewOf k n c
      → CrewOf k n (sampled_at i o r now c)
  unfolding sampled_at
  sampled_at-CrewOf n i none r now c e w = w
  sampled_at-CrewOf n i (some a) r now c e w =
      use_sample-CrewOf n now a r (sampler_back i c) (record {
        samplers_fit = omega (arith, w.samplers_fit, length-remove_at i c.sampling a e);
        finders_fit = w.finders_fit;
        lookups_fit = w.lookups_fit;
        fetchers_fit = w.fetchers_fit;
      })

  pub use_neighbours-CrewOf :
      (n now : ℕ) (r : Option (Option (List ℕ))) (c : Crawler)
      → CrewOf k n c
      → CrewOf k n (use_neighbours now r c)
  unfolding use_neighbours enqueue_nodes
  use_neighbours-CrewOf n now none c w = w
  use_neighbours-CrewOf n now (some raw) c w = w

  pub found_at-CrewOf :
      (n i : ℕ) (o : Option Peer) (r : Option (Option (List ℕ))) (now : ℕ) (c : Crawler)
      → nth i c.finding ≡ o
      → CrewOf k n c
      → CrewOf k n (found_at i o r now c)
  unfolding found_at
  found_at-CrewOf n i none r now c e w = w
  found_at-CrewOf n i (some p) r now c e w =
      use_neighbours-CrewOf n now r (finder_back i c) (record {
        samplers_fit = w.samplers_fit;
        finders_fit = omega (arith, w.finders_fit, length-remove_at i c.finding p e);
        lookups_fit = w.lookups_fit;
        fetchers_fit = w.fetchers_fit;
      })

  -- A worker that is about to be admitted is counted neither as idle nor as busy.
  pub admit-CrewOf :
      (n : ℕ) (j : Job) (c : Crawler)
      → CrewOf k n c
      → c.idle.lookups + length c.asking + length c.holding < n * k.peer
      → CrewOf k n (admit j c)
  unfolding admit
  admit-CrewOf n j c w p = ground arith

  pub use_peers-CrewOf :
      (n now : ℕ) (l : Lead) (ps : List Peer) (c : Crawler)
      → CrewOf k n c
      → c.idle.lookups + length c.asking + length c.holding < n * k.peer
      → CrewOf k n (use_peers now l ps c)
  unfolding use_peers
  use_peers-CrewOf n now l [] c w p = record {
    samplers_fit = w.samplers_fit;
    finders_fit = w.finders_fit;
    lookups_fit = omega (arith, p);
    fetchers_fit = w.fetchers_fit;
  }
  use_peers-CrewOf n now l (x ∷ xs) c w p = admit-CrewOf n _ (peers_found now (x ∷ xs) c) w p

  pub asked_at-CrewOf :
      (n i : ℕ) (o : Option Lead) (values : Option (List (Option (List ℕ)))) (now : ℕ) (c : Crawler)
      → nth i c.asking ≡ o
      → CrewOf k n c
      → CrewOf k n (asked_at i o values now c)
  unfolding asked_at
  asked_at-CrewOf n i none values now c e w = w
  asked_at-CrewOf n i (some l) values now c e w =
      let shorter = length-remove_at i c.asking l e in
      use_peers-CrewOf n now l (decode_peers values) (lead_taken i c)
        (record {
          samplers_fit = w.samplers_fit;
          finders_fit = w.finders_fit;
          lookups_fit = omega (arith, w.lookups_fit, shorter);
          fetchers_fit = w.fetchers_fit;
        })
        (omega (arith, w.lookups_fit, shorter))

  pub held_at-CrewOf :
      (n i : ℕ) (o : Option Job) (c : Crawler)
      → nth i c.holding ≡ o
      → CrewOf k n c
      → CrewOf k n (held_at i o c)
  unfolding held_at
  held_at-CrewOf n i none c e w = w
  held_at-CrewOf n i (some j) c e w =
      let shorter = length-remove_at i c.holding j e in
      admit-CrewOf n j (hold_ended i c)
        (record {
          samplers_fit = w.samplers_fit;
          finders_fit = w.finders_fit;
          lookups_fit = omega (arith, w.lookups_fit, shorter);
          fetchers_fit = w.fetchers_fit;
        })
        (omega (arith, w.lookups_fit, shorter))

  pub gate-CrewOf :
      (n : ℕ) (hash : Text) (m : Meta) (v : Option Reason × ContentFilter) (c : Crawler)
      → CrewOf k n c
      → CrewOf k n (gate hash m v c)
  unfolding gate
  gate-CrewOf n hash m (some reason, f) c w = w
  gate-CrewOf n hash m (none, f) c w = w

  pub use_metadata-CrewOf :
      (n : ℕ) (matches : Text → Text → Bool) (hash : Text) (o : Option Meta) (c : Crawler)
      → CrewOf k n c
      → CrewOf k n (use_metadata matches hash o c)
  unfolding use_metadata
  use_metadata-CrewOf n matches hash none c w = w
  use_metadata-CrewOf n matches hash (some m) c w =
      guarded-CrewOf k n _ _ _ (λ e. w) (gate-CrewOf n hash m (check matches c.filter m) c w)

  pub named_at-CrewOf :
      (n : ℕ) (matches : Text → Text → Bool) (i : ℕ) (o : Option Job) (fetched : Option Meta)
      (c : Crawler)
      → nth i c.naming ≡ o
      → CrewOf k n c
      → CrewOf k n (named_at matches i o fetched c)
  unfolding named_at
  named_at-CrewOf n matches i none fetched c e w = w
  named_at-CrewOf n matches i (some j) fetched c e w =
      use_metadata-CrewOf n matches j.hash fetched (fetcher_back i c) (record {
        samplers_fit = w.samplers_fit;
        finders_fit = w.finders_fit;
        lookups_fit = w.lookups_fit;
        fetchers_fit = omega (arith, w.fetchers_fit, length-remove_at i c.naming j e);
      })

  pub start_crawl-CrewOf :
      (n now : ℕ) (routing : List Peer) (c : Crawler)
      → CrewOf k n c
      → CrewOf k (if c.running then n else suc n) (start_crawl k now routing c)
  unfolding start_crawl enqueue_nodes
  start_crawl-CrewOf n now routing c w = elim (Bool-cases c.running) [
    | inl e ↦ rw (e) w
    | inr e ↦ rw (e) (record {
      samplers_fit = grind (arith, w.samplers_fit);
      finders_fit = grind (arith, w.finders_fit);
      lookups_fit = grind (arith, w.lookups_fit);
      fetchers_fit = grind (arith, w.fetchers_fit);
    })
  ]
