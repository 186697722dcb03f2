-- ===== src/Crawler/Run/Running.antt =====
-- dhtCrawler.js: only `start` and `stop` change whether the crawler runs.
use swarmproof.Base.{
  Bool, Option, List, [], none, some, false, true, refl, arith, if◌then◌else◌, ℕ, ◌∷◌, ◌≡◌,
}
use swarmproof.Base.Text.{Text}
use swarmproof.ContentFilter.{ContentFilter, Reason, check}
use swarmproof.Crawler.Compact.{decode_peers}
use swarmproof.Crawler.Naming.{
  admit, ask_metadata, ask_peers, asked_at, gate, held_at, hold_ended, lead_taken, named_at,
  peers_found, take_job, take_lead, use_metadata, use_peers, fetcher_back,
}
use swarmproof.Crawler.Run.{
  Concurrency, CrawlEvent, discovery_ends, discovery_turn, fetch_ends, fetch_turn, learns,
  lookup_ends, lookup_turn, on_crawl, reseeds, sample_ends, sample_turn, starts, stops, wait_ends,
}
use swarmproof.Crawler.Stages.{
  Asked, Crawler, Job, Lead, SampleReply, ask_neighbours, ask_sample, enqueue_nodes, finder_back,
  found_at, nth, sampled_at, sampler_back, take_discovery, take_sample, use_neighbours, use_sample,
}
use swarmproof.Metainfo.{Meta, is_empty}
use swarmproof.PeerTable.{Peer}

-- Whether a crawler runs behind an event, by the event alone.
unfoldable pub runs_after : CrawlEvent → Bool → Bool
runs_after (starts now routing) b = true
runs_after stops b = false
runs_after e b = b

running_if :
    (b : Bool) (c d : Crawler) (r : Bool)
    → c.running ≡ r
    → d.running ≡ r
    → (if b then c else d).running ≡ r
running_if true c d r h k = h
running_if false c d r h k = k

start_running :
    (b : Bool) (c d : Crawler)
    → c.running ≡ b
    → d.running ≡ true
    → (if b then c else d).running ≡ true
start_running true c d h k = h
start_running false c d h k = k

running-ask_sample :
    (now : ℕ) (routing queue : List Peer) (c : Crawler)
    → (ask_sample now routing queue c).running ≡ c.running
unfolding ask_sample enqueue_nodes
running-ask_sample now routing [] c = refl
running-ask_sample now routing (n ∷ ns) c = refl

running-sampled_at :
    (i : ℕ) (o : Option Asked) (r : Option SampleReply) (now : ℕ) (c : Crawler)
    → (sampled_at i o r now c).running ≡ c.running
unfolding sampled_at use_sample enqueue_nodes sampler_back
running-sampled_at i none r now c = refl
running-sampled_at i (some a) none now c = refl
running-sampled_at i (some a) (some r) now c = refl

running-ask_neighbours :
    (routing queue : List Peer) (c : Crawler) → (ask_neighbours routing queue c).running ≡ c.running
unfolding ask_neighbours
running-ask_neighbours routing [] c = refl
running-ask_neighbours routing (n ∷ ns) c = refl

running-found_at :
    (i : ℕ) (o : Option Peer) (r : Option (Option (List ℕ))) (now : ℕ) (c : Crawler)
    → (found_at i o r now c).running ≡ c.running
unfolding found_at use_neighbours enqueue_nodes finder_back
running-found_at i none r now c = refl
running-found_at i (some n) none now c = refl
running-found_at i (some n) (some raw) now c = refl

running-ask_peers : (ls : List Lead) (c : Crawler) → (ask_peers ls c).running ≡ c.running
unfolding ask_peers
running-ask_peers [] c = refl
running-ask_peers (l ∷ ls) c = refl

running-ask_metadata : (js : List Job) (c : Crawler) → (ask_metadata js c).running ≡ c.running
unfolding ask_metadata
running-ask_metadata [] c = refl
running-ask_metadata (j ∷ js) c = refl

running-admit : (j : Job) (c : Crawler) → (admit j c).running ≡ c.running
unfolding admit
running-admit j c = ground arith

running-use_peers :
    (now : ℕ) (l : Lead) (ps : List Peer) (c : Crawler) → (use_peers now l ps c).running ≡ c.running
unfolding use_peers peers_found
running-use_peers now l [] c = refl
running-use_peers now l (p ∷ ps) c = running-admit _ (peers_found now (p ∷ ps) c)

running-asked_at :
    (i : ℕ) (o : Option Lead) (values : Option (List (Option (List ℕ)))) (now : ℕ) (c : Crawler)
    → (asked_at i o values now c).running ≡ c.running
unfolding asked_at lead_taken
running-asked_at i none values now c = refl
running-asked_at i (some l) values now c =
    running-use_peers now l (decode_peers values) (lead_taken i c)

running-held_at : (i : ℕ) (o : Option Job) (c : Crawler) → (held_at i o c).running ≡ c.running
unfolding held_at hold_ended
running-held_at i none c = refl
running-held_at i (some j) c = running-admit j (hold_ended i c)

running-gate :
    (hash : Text) (m : Meta) (v : Option Reason × ContentFilter) (c : Crawler)
    → (gate hash m v c).running ≡ c.running
unfolding gate
running-gate hash m (some reason, f) c = refl
running-gate hash m (none, f) c = refl

running-named_at :
    (matches : Text → Text → Bool) (i : ℕ) (o : Option Job) (fetched : Option Meta) (c : Crawler)
    → (named_at matches i o fetched c).running ≡ c.running
unfolding named_at use_metadata
running-named_at matches i none fetched c = refl
running-named_at matches i (some j) none c = refl
running-named_at matches i (some j) (some m) c =
    running_if (is_empty m.name) _ _ c.running refl
      (running-gate j.hash m (check matches c.filter m) (fetcher_back i c))

pub running-on_crawl :
    (k : Concurrency) (matches : Text → Text → Bool) (c : Crawler) (e : CrawlEvent)
    → (on_crawl k matches c e).running ≡ runs_after e c.running
unfolding on_crawl take_sample take_discovery take_lead take_job enqueue_nodes runs_after
running-on_crawl k matches c (starts now routing) = start_running c.running c _ refl refl
running-on_crawl k matches c stops = refl
running-on_crawl k matches c (reseeds now routing) = running_if _ _ c c.running refl refl
running-on_crawl k matches c (sample_turn now routing) =
    running_if _ _ c c.running
      (running_if c.running _ _ c.running (running-ask_sample now routing c.queue c) refl) refl
running-on_crawl k matches c (discovery_turn routing) =
    running_if _ _ c c.running
      (running_if c.running _ _ c.running (running-ask_neighbours routing c.discovery_queue c) refl)
      refl
running-on_crawl k matches c lookup_turn =
    running_if _ _ c c.running
      (running_if c.running _ _ c.running (running-ask_peers c.leads c) refl) refl
running-on_crawl k matches c fetch_turn =
    running_if _ _ c c.running
      (running_if c.running _ _ c.running (running-ask_metadata c.pending_meta c) refl) refl
running-on_crawl k matches c (sample_ends i r now) = running-sampled_at i (nth i c.sampling) r now c
running-on_crawl k matches c (discovery_ends i r now) = running-found_at i (nth i c.finding) r now c
running-on_crawl k matches c (lookup_ends i values now) =
    running-asked_at i (nth i c.asking) values now c
running-on_crawl k matches c (wait_ends i) = running-held_at i (nth i c.holding) c
running-on_crawl k matches c (fetch_ends i fetched) =
    running-named_at matches i (nth i c.naming) fetched c
running-on_crawl k matches c (learns call) = refl
