-- ===== src/Crawler/Run/Gate.antt =====
-- dhtCrawler.js: what the filter blocks has no name in the index.
pub mod Upheld
use swarmproof.Crawler.Run.Gate.Upheld.{
  named_as-Gated, failed_once-Gated, withheld-Gated, check-SameFilter, SameFilter, harvest-Gated,
  Gated, check-verdict, GatedRows, IsGated, verdict,
}
use swarmproof.Base.{
  Bool-cases, [], false, inl, inr, ◌∷◌, List, arith, drop, length, suc, sym, take, zero, ◌/◌, ◌∙◌,
  Bool, Option, if◌then◌else◌, none, refl, some, true, ℕ, ◌≡◌, ◌≢◌,
}
use swarmproof.Crawler.Compact.{decode_peers}
use swarmproof.Crawler.Index.{
  is_resolved, note_seen, Index, counted_again, write_block, write_failure, write_name, Torrent,
  failed_once, named_as, new_torrent, withheld,
}
use swarmproof.Crawler.Index.Clean.{Rows-note_seen, Rows, Rows-update}
use swarmproof.Crawler.Naming.{
  admit, ask_metadata, ask_peers, asked_at, fetcher_back, held_at, hold_ended, lead_taken, named_at,
  peers_found, take_job, take_lead, use_metadata, use_peers, gate,
}
use swarmproof.Crawler.Run.{
  Concurrency, CrawlEvent, crawl, discovery_ends, discovery_turn, fetch_ends, fetch_turn, learns,
  lookup_ends, lookup_turn, new_crawler, on_crawl, reseeds, sample_ends, sample_turn, starts, stops,
  wait_ends,
}
use swarmproof.Crawler.Stages.{
  Asked, Job, Lead, SampleReply, ask_neighbours, ask_sample, enqueue_nodes, finder_back, found_at,
  nth, sampled_at, sampler_back, take_discovery, take_sample, use_neighbours, use_sample, Crawler,
  Harvest, add_lead, harvest, harvest_from, harvest_one, hex,
}
use swarmproof.PeerTable.{PeerTable, Peer}
use swarmproof.Worker.Pool.{values}
use mathlib.Core.Option.{some-ne-none, some-injective}
use mathlib.Core.Path.{subst}
use swarmproof.ContentFilter.{ContentFilter, check, Reason, banned, junk_reason, subject}
use swarmproof.Base.Text.{Text}
use swarmproof.Metainfo.{Meta}

-- What the fetches bring: nothing, or the metadata of the hash.
abbrev pub IsServed : (Text → Option Meta) → Text → Option Meta → Type 0
IsServed metadata hash none = Unit
IsServed metadata hash (some m) = metadata hash ≡ some m

abbrev pub Serves : (Text → Option Meta) → Option Job → Option Meta → Type 0
Serves metadata none fetched = Unit
Serves metadata (some j) fetched = IsServed metadata j.hash fetched

abbrev pub ServesAt : (Text → Option Meta) → Crawler → CrawlEvent → Type 0
ServesAt metadata c (fetch_ends i fetched) = Serves metadata (nth i c.naming) fetched
ServesAt metadata c e = Unit

-- Each fetch of a run, by the state in which it ends.
abbrev pub AllServed :
    Concurrency → (Text → Text → Bool) → (Text → Option Meta) → Crawler → List CrawlEvent → Type 0
AllServed k matches metadata c [] = Unit
AllServed k matches metadata c (e ∷ es) =
    ServesAt metadata c e × AllServed k matches metadata (on_crawl k matches c e) es

module _ (matches : Text → Text → Bool) (metadata : Text → Option Meta) (junk : Bool)
    (pattern : Text) where
  gate-IsGated :
      (hash : Text) (m : Meta) (v : Option Reason × ContentFilter) (c : Crawler)
      → metadata hash ≡ some m
      → v.0 ≡ verdict matches metadata junk pattern m
      → SameFilter matches metadata junk pattern v.1
      → IsGated matches metadata junk pattern c
      → IsGated matches metadata junk pattern (gate hash m v c)
  unfolding gate write_block write_name
  gate-IsGated hash m (some reason, f) c e v s (g, h) = (
    Rows-update (Gated matches metadata junk pattern) withheld hash c.index
        (λ t r.
          withheld-Gated matches metadata junk pattern hash m t e
            (λ n. some-ne-none reason (v ∙ n)))
        g,
    s,
  )
  gate-IsGated hash m (none, f) c e v s (g, h) = (
    Rows-update (Gated matches metadata junk pattern) (named_as m) hash c.index
        (λ t. named_as-Gated matches metadata junk pattern hash m t e (sym v)) g,
    s,
  )

  write_failure-GatedRows :
      (hash : Text) (index : Index)
      → GatedRows matches metadata junk pattern index
      → GatedRows matches metadata junk pattern (write_failure hash index)
  unfolding write_failure
  write_failure-GatedRows hash index g =
      Rows-update (Gated matches metadata junk pattern) failed_once hash index
        (failed_once-Gated matches metadata junk pattern hash) g

  use_sample-IsGated :
      (now : ℕ) (a : Asked) (r : Option SampleReply) (c : Crawler)
      → IsGated matches metadata junk pattern c
      → IsGated matches metadata junk pattern (use_sample now a r c)
  unfolding use_sample enqueue_nodes
  use_sample-IsGated now a none c g = g
  use_sample-IsGated now a (some r) c (g, s) =
      (harvest-Gated matches metadata junk pattern now a.node r.samples _ g, s)

  sampled_at-IsGated :
      (i : ℕ) (o : Option Asked) (r : Option SampleReply) (now : ℕ) (c : Crawler)
      → IsGated matches metadata junk pattern c
      → IsGated matches metadata junk pattern (sampled_at i o r now c)
  unfolding sampled_at
  sampled_at-IsGated i none r now c g = g
  sampled_at-IsGated i (some a) r now c g = use_sample-IsGated now a r (sampler_back i c) g

  use_neighbours-IsGated :
      (now : ℕ) (r : Option (Option (List ℕ))) (c : Crawler)
      → IsGated matches metadata junk pattern c
      → IsGated matches metadata junk pattern (use_neighbours now r c)
  unfolding use_neighbours enqueue_nodes
  use_neighbours-IsGated now none c g = g
  use_neighbours-IsGated now (some raw) c g = g

  found_at-IsGated :
      (i : ℕ) (o : Option Peer) (r : Option (Option (List ℕ))) (now : ℕ) (c : Crawler)
      → IsGated matches metadata junk pattern c
      → IsGated matches metadata junk pattern (found_at i o r now c)
  unfolding found_at
  found_at-IsGated i none r now c g = g
  found_at-IsGated i (some n) r now c g = use_neighbours-IsGated now r (finder_back i c) g

  guarded-IsGated :
      (b : Bool) (c d : Crawler)
      → IsGated matches metadata junk pattern c
      → IsGated matches metadata junk pattern d
      → IsGated matches metadata junk pattern (if b then c else d)
  guarded-IsGated true c d g h = g
  guarded-IsGated false c d g h = h

  admit-index :
      (j : Job) (c : Crawler) → ((admit j c).index ≡ c.index) × ((admit j c).filter ≡ c.filter)
  unfolding admit
  admit-index j c = ground arith

  admit-IsGated :
      (j : Job) (c : Crawler)
      → IsGated matches metadata junk pattern c
      → IsGated matches metadata junk pattern (admit j c)
  admit-IsGated j c (g, s) =
      let (same_index, same_filter) = admit-index j c in
      (
        subst (GatedRows matches metadata junk pattern) (sym same_index) g,
        subst (SameFilter matches metadata junk pattern) (sym same_filter) s,
      )

  use_peers-IsGated :
      (now : ℕ) (l : Lead) (ps : List Peer) (c : Crawler)
      → IsGated matches metadata junk pattern c
      → IsGated matches metadata junk pattern (use_peers now l ps c)
  unfolding use_peers
  use_peers-IsGated now l [] c (g, s) = (write_failure-GatedRows l.hash c.index g, s)
  use_peers-IsGated now l (p ∷ ps) c g = admit-IsGated _ (peers_found now (p ∷ ps) c) g

  asked_at-IsGated :
      (i : ℕ) (o : Option Lead) (values : Option (List (Option (List ℕ)))) (now : ℕ) (c : Crawler)
      → IsGated matches metadata junk pattern c
      → IsGated matches metadata junk pattern (asked_at i o values now c)
  unfolding asked_at
  asked_at-IsGated i none values now c g = g
  asked_at-IsGated i (some l) values now c g =
      use_peers-IsGated now l (decode_peers values) (lead_taken i c) g

  held_at-IsGated :
      (i : ℕ) (o : Option Job) (c : Crawler)
      → IsGated matches metadata junk pattern c
      → IsGated matches metadata junk pattern (held_at i o c)
  unfolding held_at
  held_at-IsGated i none c g = g
  held_at-IsGated i (some j) c g = admit-IsGated j (hold_ended i c) g

  use_metadata-IsGated :
      (hash : Text) (o : Option Meta) (c : Crawler)
      → IsServed metadata hash o
      → IsGated matches metadata junk pattern c
      → IsGated matches metadata junk pattern (use_metadata matches hash o c)
  unfolding use_metadata
  use_metadata-IsGated hash none c e (g, s) = (write_failure-GatedRows hash c.index g, s)
  use_metadata-IsGated hash (some m) c e (g, s) =
      guarded-IsGated _ _ _ (write_failure-GatedRows hash c.index g, s)
        (gate-IsGated hash m (check matches c.filter m) c e
          (check-verdict matches metadata junk pattern c.filter m s)
          (check-SameFilter matches metadata junk pattern c.filter m s) (g, s))

  named_at-IsGated :
      (i : ℕ) (o : Option Job) (fetched : Option Meta) (c : Crawler)
      → Serves metadata o fetched
      → IsGated matches metadata junk pattern c
      → IsGated matches metadata junk pattern (named_at matches i o fetched c)
  unfolding named_at
  named_at-IsGated i none fetched c h g = g
  named_at-IsGated i (some j) none c h g = use_metadata-IsGated j.hash none (fetcher_back i c) tt g
  named_at-IsGated i (some j) (some m) c h g =
      use_metadata-IsGated j.hash (some m) (fetcher_back i c) h g

  ask_sample-IsGated :
      (now : ℕ) (routing queue : List Peer) (c : Crawler)
      → IsGated matches metadata junk pattern c
      → IsGated matches metadata junk pattern (ask_sample now routing queue c)
  unfolding ask_sample enqueue_nodes
  ask_sample-IsGated now routing [] c g = g
  ask_sample-IsGated now routing (n ∷ ns) c g = g

  ask_neighbours-IsGated :
      (routing queue : List Peer) (c : Crawler)
      → IsGated matches metadata junk pattern c
      → IsGated matches metadata junk pattern (ask_neighbours routing queue c)
  unfolding ask_neighbours
  ask_neighbours-IsGated routing [] c g = g
  ask_neighbours-IsGated routing (n ∷ ns) c g = g

  ask_peers-IsGated :
      (ls : List Lead) (c : Crawler)
      → IsGated matches metadata junk pattern c
      → IsGated matches metadata junk pattern (ask_peers ls c)
  unfolding ask_peers
  ask_peers-IsGated [] c g = g
  ask_peers-IsGated (l ∷ ls) c g = g

  ask_metadata-IsGated :
      (js : List Job) (c : Crawler)
      → IsGated matches metadata junk pattern c
      → IsGated matches metadata junk pattern (ask_metadata js c)
  unfolding ask_metadata
  ask_metadata-IsGated [] c g = g
  ask_metadata-IsGated (j ∷ js) c g = g

  module _ (k : Concurrency) where
    on_crawl-IsGated :
        (c : Crawler) (e : CrawlEvent)
        → ServesAt metadata c e
        → IsGated matches metadata junk pattern c
        → IsGated matches metadata junk pattern (on_crawl k matches c e)
    unfolding on_crawl take_sample take_discovery take_lead take_job enqueue_nodes
    on_crawl-IsGated c (starts now routing) h g = guarded-IsGated c.running c _ g g
    on_crawl-IsGated c stops h g = g
    on_crawl-IsGated c (reseeds now routing) h g = guarded-IsGated _ _ c g g
    on_crawl-IsGated c (sample_turn now routing) h g =
        guarded-IsGated _ _ c
          (guarded-IsGated c.running _ _ (ask_sample-IsGated now routing c.queue c g) g) g
    on_crawl-IsGated c (discovery_turn routing) h g =
        guarded-IsGated _ _ c
          (guarded-IsGated c.running _ _ (ask_neighbours-IsGated routing c.discovery_queue c g) g) g
    on_crawl-IsGated c lookup_turn h g =
        guarded-IsGated _ _ c (guarded-IsGated c.running _ _ (ask_peers-IsGated c.leads c g) g) g
    on_crawl-IsGated c fetch_turn h g =
        guarded-IsGated _ _ c
          (guarded-IsGated c.running _ _ (ask_metadata-IsGated c.pending_meta c g) g) g
    on_crawl-IsGated c (sample_ends i r now) h g = sampled_at-IsGated i (nth i c.sampling) r now c g
    on_crawl-IsGated c (discovery_ends i r now) h g = found_at-IsGated i (nth i c.finding) r now c g
    on_crawl-IsGated c (lookup_ends i values now) h g =
        asked_at-IsGated i (nth i c.asking) values now c g
    on_crawl-IsGated c (wait_ends i) h g = held_at-IsGated i (nth i c.holding) c g
    on_crawl-IsGated c (fetch_ends i fetched) h g =
        named_at-IsGated i (nth i c.naming) fetched c h g
    on_crawl-IsGated c (learns call) h g = g

    crawl-IsGated_from :
        (c : Crawler) (es : List CrawlEvent)
        → AllServed k matches metadata c es
        → IsGated matches metadata junk pattern c
        → IsGated matches metadata junk pattern (crawl k matches c es)
    unfolding crawl
    crawl-IsGated_from c [] h g = g
    crawl-IsGated_from c (e ∷ es) (h, hs) g =
        crawl-IsGated_from (on_crawl k matches c e) es hs (on_crawl-IsGated c e h g)

-- In any run of a new crawler over an index in which this holds, where the fetches for a hash may fail
-- or not, one like another, but all that bring metadata bring the same: no row that the filter blocked
-- has a name, and every name in the index is that of metadata which the filter lets through.
pub crawl-Gated :
    (k : Concurrency) (matches : Text → Text → Bool) (metadata : Text → Option Meta) (t : PeerTable)
    (f : ContentFilter) (index : Index) (es : List CrawlEvent)
    → AllServed k matches metadata (new_crawler t f index) es
    → GatedRows matches metadata f.junk f.pattern index
    → GatedRows matches metadata f.junk f.pattern (crawl k matches (new_crawler t f index) es).index
unfolding new_crawler
crawl-Gated k matches metadata t f index es h g =
    (crawl-IsGated_from matches metadata f.junk f.pattern k (new_crawler t f index) es h
      (g, record { same_junk = refl; same_pattern = refl })).0
