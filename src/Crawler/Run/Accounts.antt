-- ===== src/Crawler/Run/Accounts.antt =====
-- dhtCrawler.js: what becomes of the hashes for which live peers were found.
use swarmproof.Base.{
  All, Bool, Bool-cases, inl, inr, ap, length, length-append, Option, List, [], none, some, false,
  true, refl, arith, if◌then◌else◌, ℕ, ◌∷◌, ◌≡◌, ◌≤◌, ◌+◌,
}
use swarmproof.Base.Text.{Text}
use swarmproof.ContentFilter.{ContentFilter, Reason, check}
use swarmproof.Crawler.Compact.{decode_peers}
use swarmproof.Crawler.Index.{Index}
use swarmproof.Crawler.Naming.{
  admit, ask_metadata, ask_peers, asked_at, gate, held_at, hold_ended, lead_taken, named_at,
  peers_found, take_job, take_lead, use_metadata, use_peers, fetcher_back,
}
use swarmproof.Crawler.Run.{
  Concurrency, CrawlEvent, crawl, discovery_ends, discovery_turn, fetch_ends, fetch_turn, learns,
  lookup_ends, lookup_turn, on_crawl, reseeds, sample_ends, sample_turn, starts, stops, wait_ends,
  new_crawler,
}
use swarmproof.Crawler.Run.Workers.Turns.{length-remove_at}
use swarmproof.Crawler.Stages.{
  Asked, Crawler, Job, Lead, SampleReply, ask_neighbours, ask_sample, enqueue_nodes, finder_back,
  found_at, nth, sampled_at, sampler_back, take_discovery, take_sample, use_neighbours, use_sample,
  no_stats,
}
use swarmproof.Metainfo.{Meta, is_empty}
use swarmproof.PeerTable.{Peer, PeerTable}

abbrev pub IsNoStop : CrawlEvent → Type 0
IsNoStop stops = ⊥
IsNoStop e = Unit

-- The hashes with live peers that the naming stage has taken up, that wait in its queue, and that a
-- worker holds until the queue has room.
abbrev pub accounted_for : Crawler → ℕ
accounted_for c = c.stats.meta_attempts + length c.pending_meta + length c.holding

-- No more are accounted for than were found; where nothing stops the crawler, no fewer either.
record Account (is_strict running : Bool) (hits attempts : ℕ) (pending holding : List Job)
    (asking : List Lead) : Type 0 where
  covered : attempts + length pending + length holding ≤ hits
  none_lost : is_strict ≡ true → hits ≤ attempts + length pending + length holding
  at_work : is_strict ≡ true → running ≡ false → (length asking ≡ 0) × (length holding ≡ 0)

abbrev AccountOf : Bool → Crawler → Type 0
AccountOf is_strict c =
    Account is_strict c.running c.stats.peer_hits c.stats.meta_attempts c.pending_meta c.holding
      c.asking

guarded-AccountOf :
    (is_strict b : Bool) (c d : Crawler)
    → AccountOf is_strict c
    → AccountOf is_strict d
    → AccountOf is_strict (if b then c else d)
guarded-AccountOf is_strict true c d v w = v
guarded-AccountOf is_strict false c d v w = w

-- A job that is not yet accounted for, while the crawler runs.
admit-AccountOf :
    (is_strict : Bool) (j : Job) (c : Crawler)
    → accounted_for c + 1 ≤ c.stats.peer_hits
    → (is_strict ≡ true → c.stats.peer_hits ≤ accounted_for c + 1)
    → (is_strict ≡ true → c.running ≡ true)
    → AccountOf is_strict (admit j c)
unfolding admit
admit-AccountOf is_strict j c h k r = record {
  covered = ground (arith, h, length-append c.pending_meta (j ∷ []));
  none_lost = λ s. ground (arith, k s, r s, length-append c.pending_meta (j ∷ []));
  at_work = λ s q. ground (arith, q, r s);
}

sampled_at-AccountOf :
    (is_strict : Bool) (i : ℕ) (o : Option Asked) (r : Option SampleReply) (now : ℕ) (c : Crawler)
    → AccountOf is_strict c
    → AccountOf is_strict (sampled_at i o r now c)
unfolding sampled_at use_sample enqueue_nodes sampler_back
sampled_at-AccountOf is_strict i none r now c w = w
sampled_at-AccountOf is_strict i (some a) none now c w = w
sampled_at-AccountOf is_strict i (some a) (some r) now c w = w

found_at-AccountOf :
    (is_strict : Bool) (i : ℕ) (o : Option Peer) (r : Option (Option (List ℕ))) (now : ℕ)
    (c : Crawler)
    → AccountOf is_strict c
    → AccountOf is_strict (found_at i o r now c)
unfolding found_at use_neighbours enqueue_nodes finder_back
found_at-AccountOf is_strict i none r now c w = w
found_at-AccountOf is_strict i (some n) none now c w = w
found_at-AccountOf is_strict i (some n) (some raw) now c w = w

use_peers-AccountOf :
    (is_strict : Bool) (now : ℕ) (l : Lead) (ps : List Peer) (c : Crawler)
    → AccountOf is_strict c
    → (is_strict ≡ true → c.running ≡ true)
    → AccountOf is_strict (use_peers now l ps c)
unfolding use_peers peers_found
use_peers-AccountOf is_strict now l [] c w r = w
use_peers-AccountOf is_strict now l (p ∷ ps) c w r =
    admit-AccountOf is_strict (record { hash = l.hash; peers = p ∷ ps })
      (peers_found now (p ∷ ps) c) (omega (arith, w.covered)) (λ s. omega (arith, w.none_lost s)) r

-- Where nothing stops the crawler, a worker that is busy works for a crawler that runs.
busy_runs :
    (is_strict : Bool) (c : Crawler) (n : ℕ)
    → (is_strict ≡ true → c.running ≡ false → n ≡ 0)
    → 1 ≤ n
    → is_strict ≡ true
    → c.running ≡ true
busy_runs is_strict c n h k s = elim (Bool-cases c.running) [
  | inl e ↦ e
  | inr e ↦ let off : ⊥ = omega (arith, h s e, k) in elim off [ ]
]

asked_at-AccountOf :
    (is_strict : Bool) (i : ℕ) (o : Option Lead) (values : Option (List (Option (List ℕ))))
    (now : ℕ) (c : Crawler)
    → nth i c.asking ≡ o
    → AccountOf is_strict c
    → AccountOf is_strict (asked_at i o values now c)
unfolding asked_at lead_taken
asked_at-AccountOf is_strict i none values now c e w = w
asked_at-AccountOf is_strict i (some l) values now c e w =
    let fewer = length-remove_at i c.asking l e in
    let runs =
      busy_runs is_strict c (length c.asking) (λ s q. (w.at_work s q).0) (omega (arith, fewer)) in
    use_peers-AccountOf is_strict now l (decode_peers values) (lead_taken i c)
      (record {
        covered = w.covered;
        none_lost = w.none_lost;
        at_work = λ s q. (omega (arith, fewer, (w.at_work s q).0), (w.at_work s q).1);
      })
      runs

held_at-AccountOf :
    (is_strict : Bool) (i : ℕ) (o : Option Job) (c : Crawler)
    → nth i c.holding ≡ o
    → AccountOf is_strict c
    → AccountOf is_strict (held_at i o c)
unfolding held_at hold_ended
held_at-AccountOf is_strict i none c e w = w
held_at-AccountOf is_strict i (some j) c e w =
    let fewer = length-remove_at i c.holding j e in
    admit-AccountOf is_strict j (hold_ended i c) (omega (arith, fewer, w.covered))
      (λ s. omega (arith, fewer, w.none_lost s))
      (busy_runs is_strict c (length c.holding) (λ s q. (w.at_work s q).1) (omega (arith, fewer)))

gate-AccountOf :
    (is_strict : Bool) (hash : Text) (m : Meta) (v : Option Reason × ContentFilter) (c : Crawler)
    → AccountOf is_strict c
    → AccountOf is_strict (gate hash m v c)
unfolding gate
gate-AccountOf is_strict hash m (some reason, f) c w = w
gate-AccountOf is_strict hash m (none, f) c w = w

named_at-AccountOf :
    (is_strict : Bool) (matches : Text → Text → Bool) (i : ℕ) (o : Option Job)
    (fetched : Option Meta) (c : Crawler)
    → AccountOf is_strict c
    → AccountOf is_strict (named_at matches i o fetched c)
unfolding named_at use_metadata
named_at-AccountOf is_strict matches i none fetched c w = w
named_at-AccountOf is_strict matches i (some j) none c w = w
named_at-AccountOf is_strict matches i (some j) (some m) c w =
    guarded-AccountOf is_strict (is_empty m.name) _ _ w
      (gate-AccountOf is_strict j.hash m (check matches c.filter m) (fetcher_back i c) w)

ask_sample-AccountOf :
    (is_strict : Bool) (now : ℕ) (routing queue : List Peer) (c : Crawler)
    → AccountOf is_strict c
    → AccountOf is_strict (ask_sample now routing queue c)
unfolding ask_sample enqueue_nodes
ask_sample-AccountOf is_strict now routing [] c w = w
ask_sample-AccountOf is_strict now routing (n ∷ ns) c w = w

ask_neighbours-AccountOf :
    (is_strict : Bool) (routing queue : List Peer) (c : Crawler)
    → AccountOf is_strict c
    → AccountOf is_strict (ask_neighbours routing queue c)
unfolding ask_neighbours
ask_neighbours-AccountOf is_strict routing [] c w = w
ask_neighbours-AccountOf is_strict routing (n ∷ ns) c w = w

turn-AccountOf :
    (is_strict b : Bool) (c d e : Crawler)
    → (c.running ≡ true → AccountOf is_strict d)
    → AccountOf is_strict e
    → AccountOf is_strict c
    → AccountOf is_strict (if b then (if c.running then d else e) else c)
turn-AccountOf is_strict false c d e v u w = w
turn-AccountOf is_strict true c d e v u w = elim (Bool-cases c.running) [
  | inl q ↦ rw (q) (v q)
  | inr q ↦ rw (q) u
]

ask_peers-AccountOf :
    (is_strict : Bool) (ls : List Lead) (c : Crawler)
    → c.running ≡ true
    → AccountOf is_strict c
    → AccountOf is_strict (ask_peers ls c)
unfolding ask_peers
ask_peers-AccountOf is_strict [] c e w = w
ask_peers-AccountOf is_strict (l ∷ ls) c e w = record {
  covered = w.covered;
  none_lost = w.none_lost;
  at_work = λ s q. let off : ⊥ = cc in elim off [ ];
}

ask_metadata-AccountOf :
    (is_strict : Bool) (js : List Job) (c : Crawler)
    → c.pending_meta ≡ js
    → AccountOf is_strict c
    → AccountOf is_strict (ask_metadata js c)
unfolding ask_metadata
ask_metadata-AccountOf is_strict [] c e w = w
ask_metadata-AccountOf is_strict (j ∷ js) c e w = record {
  covered = omega (arith, ap length e, w.covered);
  none_lost = λ s. omega (arith, ap length e, w.none_lost s);
  at_work = w.at_work;
}

module _ (k : Concurrency) (matches : Text → Text → Bool) (is_strict : Bool) where
  on_crawl-AccountOf :
      (c : Crawler) (e : CrawlEvent)
      → (is_strict ≡ true → IsNoStop e)
      → AccountOf is_strict c
      → AccountOf is_strict (on_crawl k matches c e)
  unfolding on_crawl take_sample take_discovery take_lead take_job enqueue_nodes
  on_crawl-AccountOf c (starts now routing) h w =
      guarded-AccountOf is_strict c.running c _ w (record {
        covered = w.covered;
        none_lost = w.none_lost;
        at_work = λ s q. let off : ⊥ = cc in elim off [ ];
      })
  on_crawl-AccountOf c stops h w = record {
    covered = w.covered;
    none_lost = w.none_lost;
    at_work = λ s q. elim (h s) [ ];
  }
  on_crawl-AccountOf c (reseeds now routing) h w = guarded-AccountOf is_strict _ _ c w w
  on_crawl-AccountOf c (sample_turn now routing) h w =
      turn-AccountOf is_strict _ c _ _ (λ q. ask_sample-AccountOf is_strict now routing c.queue c w)
        w w
  on_crawl-AccountOf c (discovery_turn routing) h w =
      turn-AccountOf is_strict _ c _ _
        (λ q. ask_neighbours-AccountOf is_strict routing c.discovery_queue c w) w w
  on_crawl-AccountOf c lookup_turn h w =
      turn-AccountOf is_strict _ c _ _ (λ q. ask_peers-AccountOf is_strict c.leads c q w) w w
  on_crawl-AccountOf c fetch_turn h w =
      turn-AccountOf is_strict _ c _ _
        (λ q. ask_metadata-AccountOf is_strict c.pending_meta c refl w) w w
  on_crawl-AccountOf c (sample_ends i r now) h w =
      sampled_at-AccountOf is_strict i (nth i c.sampling) r now c w
  on_crawl-AccountOf c (discovery_ends i r now) h w =
      found_at-AccountOf is_strict i (nth i c.finding) r now c w
  on_crawl-AccountOf c (lookup_ends i values now) h w =
      asked_at-AccountOf is_strict i (nth i c.asking) values now c refl w
  on_crawl-AccountOf c (wait_ends i) h w = held_at-AccountOf is_strict i (nth i c.holding) c refl w
  on_crawl-AccountOf c (fetch_ends i fetched) h w =
      named_at-AccountOf is_strict matches i (nth i c.naming) fetched c w
  on_crawl-AccountOf c (learns call) h w = w

  crawl-AccountOf :
      (c : Crawler) (es : List CrawlEvent)
      → (is_strict ≡ true → All IsNoStop es)
      → AccountOf is_strict c
      → AccountOf is_strict (crawl k matches c es)
  unfolding crawl
  crawl-AccountOf c [] h w = w
  crawl-AccountOf c (e ∷ es) h w =
      crawl-AccountOf (on_crawl k matches c e) es (λ s. (h s).1)
        (on_crawl-AccountOf c e (λ s. (h s).0) w)

  new_crawler-AccountOf :
      (t : PeerTable) (f : ContentFilter) (index : Index)
      → AccountOf is_strict (new_crawler t f index)
  unfolding new_crawler no_stats
  new_crawler-AccountOf t f index = record {
    covered = omega arith;
    none_lost = λ s. omega arith;
    at_work = λ s q. (refl, refl);
  }

-- In any run of a new crawler, the hashes that the naming stage has taken up, that wait in its queue and
-- that a worker holds are at most those for which live peers were found, each as often as they were
-- found. If nothing stops the crawler they are as many: none is dropped on the way.
pub crawl-accounted_for :
    (k : Concurrency) (matches : Text → Text → Bool) (t : PeerTable) (f : ContentFilter)
    (index : Index) (es : List CrawlEvent)
    → let c = crawl k matches (new_crawler t f index) es in
      (accounted_for c ≤ c.stats.peer_hits)
      × (All IsNoStop es → accounted_for c ≡ c.stats.peer_hits)
crawl-accounted_for k matches t f index es =
    let any_run =
      crawl-AccountOf k matches false (new_crawler t f index) es (λ s. cc)
        (new_crawler-AccountOf k matches false t f index) in
    (
      any_run.covered,
      λ h.
          let run =
            crawl-AccountOf k matches true (new_crawler t f index) es (λ s. h)
              (new_crawler-AccountOf k matches true t f index) in
          omega (arith, run.covered, run.none_lost refl),
    )
