-- ===== src/Crawler/Run/Bounded/Queues.antt =====
-- dhtCrawler.js: the bounds of the queues that the workers fill.
use swarmproof.Crawler.Nodes.{node_queue_max}
use swarmproof.Crawler.Stages.{
  Harvest, Lead, add_lead, harvest, harvest_from, harvest_one, hex, lead_queue_max, offer_all,
}
use swarmproof.Base.{
  Bool-cases, List, Option, [], arith, drop, if◌then◌else◌, inl, inr, length, length-append, ltb,
  none, some, suc, take, zero, ℕ, ◌++◌, ◌/◌, ◌∷◌, ◌≤◌,
}
use swarmproof.Crawler.Index.{is_resolved, note_seen}
use swarmproof.PeerTable.{Peer}
use swarmproof.Base.Text.{Text}

pub length-add_lead :
    (hits : ℕ) (l : Lead) (h : Harvest)
    → length h.leads ≤ lead_queue_max
    → length (add_lead hits l h).leads ≤ lead_queue_max
unfolding add_lead
length-add_lead hits l h b = ground (arith, length-append h.leads (l ∷ []))

pub length-harvest_one :
    (now : ℕ) (node : Peer) (hash : Text) (h : Harvest)
    → length h.leads ≤ lead_queue_max
    → length (harvest_one now node hash h).leads ≤ lead_queue_max
unfolding harvest_one
length-harvest_one now node hash h b =
    elim (Bool-cases (is_resolved hash (note_seen now hash h.index).1)) [
      | inl e ↦ simp e b
      | inr e ↦ simp e (length-add_lead _ _ _ b)
    ]

pub length-harvest_from :
    (rounds now : ℕ) (node : Peer) (bytes : List ℕ) (h : Harvest)
    → length h.leads ≤ lead_queue_max
    → length (harvest_from rounds now node bytes h).leads ≤ lead_queue_max
unfolding harvest_from
length-harvest_from zero now node bytes h b = b
length-harvest_from (suc rounds) now node bytes h b =
    length-harvest_from rounds now node (drop 20 bytes) _
      (length-harvest_one now node (hex (take 20 bytes)) h b)

pub length-harvest :
    (now : ℕ) (node : Peer) (samples : Option (List ℕ)) (h : Harvest)
    → length h.leads ≤ lead_queue_max
    → length (harvest now node samples h).leads ≤ lead_queue_max
unfolding harvest
length-harvest now node none h b = b
length-harvest now node (some bytes) h b =
    length-harvest_from (length bytes / 20) now node bytes h b

pub length-offer_all :
    (ns queue : List Peer)
    → length queue ≤ node_queue_max
    → length (offer_all ns queue) ≤ node_queue_max
unfolding offer_all
length-offer_all [] queue b = b
length-offer_all (n ∷ ns) queue b =
    length-offer_all ns (if ltb (length queue) node_queue_max then queue ++ n ∷ [] else queue)
      (ground (arith, length-append queue (n ∷ [])))
