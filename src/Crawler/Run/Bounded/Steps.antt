-- ===== src/Crawler/Run/Bounded/Steps.antt =====
-- dhtCrawler.js: each step of a worker keeps the bounds.
use swarmproof.Crawler.Run.Bounded.Queues.{length-harvest, length-offer_all}
use swarmproof.Crawler.Naming.{
  fetcher_back, hold_ended, lead_taken, ask_metadata, ask_peers, asked_at, gate, held_at, named_at,
  use_metadata, use_peers, admit,
}
use swarmproof.Crawler.Nodes.{NodeTable, node_queue_max}
use swarmproof.Crawler.Stages.{
  finder_back, sampler_back, found_at, sampled_at, Asked, Crawler, Job, Lead, SampleReply,
  ask_neighbours, ask_sample, enqueue_nodes, lead_queue_max, meta_queue_max, strike, use_neighbours,
  use_sample,
}
use swarmproof.Base.{
  Bool, ap, Bool-cases, List, Option, [], arith, inl, inr, length, length-append, none, some, suc,
  take, ℕ, ◌*◌, ◌++◌, ◌∷◌, ◌≡◌, ◌≤◌,
}
use swarmproof.ContentFilter.{ContentFilter, Reason, check}
use swarmproof.Crawler.Compact.{decode_peers, decode_nodes}
use swarmproof.Metainfo.{Meta, is_empty}
use swarmproof.PeerTable.{Peer, key}
use swarmproof.Worker.Pool.{values}
use swarmproof.Base.Text.{Text}
use swarmproof.Crawler.Nodes.Bounded.{enqueue_bounds, node_state-IsSmall, write_state-IsSmall}

-- The queues and the table of nodes are within their bounds, and the counter of dropped hashes is zero.
pub record Limits (queue discovery : List Peer) (leads : List Lead) (pending : List Job)
    (nodes : NodeTable) (dropped : ℕ) : Type 0 where
  pub queue_fits : length queue ≤ node_queue_max
  pub discovery_fits : length discovery ≤ node_queue_max
  pub leads_fit : length leads ≤ lead_queue_max
  pub pending_fits : length pending ≤ meta_queue_max
  pub nodes_fit : length nodes.entries ≤ suc (node_queue_max * 2)
  pub kept : dropped ≡ 0

abbrev pub Within : Crawler → Type 0
Within c = Limits c.queue c.discovery_queue c.leads c.pending_meta c.nodes c.stats.dropped

pub enqueue_nodes-Within :
    (now : ℕ) (ns : List Peer) (c : Crawler) → Within c → Within (enqueue_nodes now ns c)
unfolding enqueue_nodes
enqueue_nodes-Within now ns c w =
    let b = enqueue_bounds now ns c.nodes c.queue w.nodes_fit w.queue_fits in
    record {
      queue_fits = b.1;
      discovery_fits = w.discovery_fits;
      leads_fit = w.leads_fit;
      pending_fits = w.pending_fits;
      nodes_fit = b.0;
      kept = w.kept;
    }

pub ask_sample-Within :
    (now : ℕ) (routing queue : List Peer) (c : Crawler)
    → c.queue ≡ queue
    → Within c
    → Within (ask_sample now routing queue c)
unfolding ask_sample
ask_sample-Within now routing [] c e w = enqueue_nodes-Within now routing c w
ask_sample-Within now routing (n ∷ ns) c e w = record {
  queue_fits = omega (arith, ap length e, w.queue_fits);
  discovery_fits = w.discovery_fits;
  leads_fit = w.leads_fit;
  pending_fits = w.pending_fits;
  nodes_fit = node_state-IsSmall (key n) c.nodes w.nodes_fit;
  kept = w.kept;
}

pub use_sample-Within :
    (now : ℕ) (a : Asked) (r : Option SampleReply) (c : Crawler)
    → Within c
    → Within (use_sample now a r c)
unfolding use_sample
use_sample-Within now a none c w = record {
  queue_fits = w.queue_fits;
  discovery_fits = w.discovery_fits;
  leads_fit = w.leads_fit;
  pending_fits = w.pending_fits;
  nodes_fit = write_state-IsSmall a.epoch (key a.node) strike c.nodes w.nodes_fit;
  kept = w.kept;
}
use_sample-Within now a (some r) c w = enqueue_nodes-Within now (decode_nodes r.nodes) _ (record {
  queue_fits = w.queue_fits;
  discovery_fits = w.discovery_fits;
  leads_fit = length-harvest now a.node r.samples _ w.leads_fit;
  pending_fits = w.pending_fits;
  nodes_fit = write_state-IsSmall a.epoch (key a.node) _ c.nodes w.nodes_fit;
  kept = w.kept;
})

pub ask_neighbours-Within :
    (routing queue : List Peer) (c : Crawler)
    → c.discovery_queue ≡ queue
    → Within c
    → Within (ask_neighbours routing queue c)
unfolding ask_neighbours
ask_neighbours-Within routing [] c e w = record {
  queue_fits = w.queue_fits;
  discovery_fits =
      length-offer_all (routing ++ take 200 c.queue) c.discovery_queue w.discovery_fits;
  leads_fit = w.leads_fit;
  pending_fits = w.pending_fits;
  nodes_fit = w.nodes_fit;
  kept = w.kept;
}
ask_neighbours-Within routing (n ∷ ns) c e w = record {
  queue_fits = w.queue_fits;
  discovery_fits = omega (arith, ap length e, w.discovery_fits);
  leads_fit = w.leads_fit;
  pending_fits = w.pending_fits;
  nodes_fit = w.nodes_fit;
  kept = w.kept;
}

pub use_neighbours-Within :
    (now : ℕ) (r : Option (Option (List ℕ))) (c : Crawler)
    → Within c
    → Within (use_neighbours now r c)
unfolding use_neighbours
use_neighbours-Within now none c w = w
use_neighbours-Within now (some raw) c w =
    let w' = enqueue_nodes-Within now (decode_nodes raw) c w in
    record {
      queue_fits = w'.queue_fits;
      discovery_fits = length-offer_all (decode_nodes raw) _ w'.discovery_fits;
      leads_fit = w'.leads_fit;
      pending_fits = w'.pending_fits;
      nodes_fit = w'.nodes_fit;
      kept = w'.kept;
    }

pub admit-Within : (j : Job) (c : Crawler) → Within c → Within (admit j c)
unfolding admit
admit-Within j c w = ground (arith, length-append c.pending_meta (j ∷ []))

-- What a busy worker does is at a place of its list, or nothing.
pub sampled_at-Within :
    (i : ℕ) (o : Option Asked) (r : Option SampleReply) (now : ℕ) (c : Crawler)
    → Within c
    → Within (sampled_at i o r now c)
unfolding sampled_at
sampled_at-Within i none r now c w = w
sampled_at-Within i (some a) r now c w = use_sample-Within now a r (sampler_back i c) w

pub found_at-Within :
    (i : ℕ) (o : Option Peer) (r : Option (Option (List ℕ))) (now : ℕ) (c : Crawler)
    → Within c
    → Within (found_at i o r now c)
unfolding found_at
found_at-Within i none r now c w = w
found_at-Within i (some n) r now c w = use_neighbours-Within now r (finder_back i c) w

pub use_peers-Within :
    (now : ℕ) (l : Lead) (ps : List Peer) (c : Crawler) → Within c → Within (use_peers now l ps c)
unfolding use_peers
use_peers-Within now l [] c w = w
use_peers-Within now l (p ∷ ps) c w = admit-Within (record { hash = l.hash; peers = p ∷ ps }) _ w

pub asked_at-Within :
    (i : ℕ) (o : Option Lead) (values : Option (List (Option (List ℕ)))) (now : ℕ) (c : Crawler)
    → Within c
    → Within (asked_at i o values now c)
unfolding asked_at
asked_at-Within i none values now c w = w
asked_at-Within i (some l) values now c w =
    use_peers-Within now l (decode_peers values) (lead_taken i c) w

pub held_at-Within : (i : ℕ) (o : Option Job) (c : Crawler) → Within c → Within (held_at i o c)
unfolding held_at
held_at-Within i none c w = w
held_at-Within i (some j) c w = admit-Within j (hold_ended i c) w

pub gate-Within :
    (hash : Text) (m : Meta) (v : Option Reason × ContentFilter) (c : Crawler)
    → Within c
    → Within (gate hash m v c)
unfolding gate
gate-Within hash m (some reason, f) c w = w
gate-Within hash m (none, f) c w = w

pub use_metadata-Within :
    (matches : Text → Text → Bool) (hash : Text) (o : Option Meta) (c : Crawler)
    → Within c
    → Within (use_metadata matches hash o c)
unfolding use_metadata
use_metadata-Within matches hash none c w = w
use_metadata-Within matches hash (some m) c w = elim (Bool-cases (is_empty m.name)) [
  | inl e ↦ simp e w
  | inr e ↦ simp e (gate-Within hash m (check matches c.filter m) c w)
]

pub named_at-Within :
    (matches : Text → Text → Bool) (i : ℕ) (o : Option Job) (fetched : Option Meta) (c : Crawler)
    → Within c
    → Within (named_at matches i o fetched c)
unfolding named_at
named_at-Within matches i none fetched c w = w
named_at-Within matches i (some j) fetched c w =
    use_metadata-Within matches j.hash fetched (fetcher_back i c) w

pub ask_peers-Within :
    (ls : List Lead) (c : Crawler) → c.leads ≡ ls → Within c → Within (ask_peers ls c)
unfolding ask_peers
ask_peers-Within [] c e w = w
ask_peers-Within (l ∷ ls) c e w = record {
  queue_fits = w.queue_fits;
  discovery_fits = w.discovery_fits;
  leads_fit = omega (arith, ap length e, w.leads_fit);
  pending_fits = w.pending_fits;
  nodes_fit = w.nodes_fit;
  kept = w.kept;
}

pub ask_metadata-Within :
    (js : List Job) (c : Crawler) → c.pending_meta ≡ js → Within c → Within (ask_metadata js c)
unfolding ask_metadata
ask_metadata-Within [] c e w = w
ask_metadata-Within (j ∷ js) c e w = record {
  queue_fits = w.queue_fits;
  discovery_fits = w.discovery_fits;
  leads_fit = w.leads_fit;
  pending_fits = omega (arith, ap length e, w.pending_fits);
  nodes_fit = w.nodes_fit;
  kept = w.kept;
}
