-- ===== src/Crawler/Naming.antt =====
-- dhtCrawler.js: the workers that ask who has a hash, and those that name it.
use swarmproof.Base.{
  Bool, List, Option, [], if◌then◌else◌, length, ltb, none, not, some, ℕ, ◌&&◌, ◌++◌, ◌+◌, ◌-◌, ◌∷◌,
}
use swarmproof.Base.Text.{Text}
use swarmproof.ContentFilter.{ContentFilter, Reason, check}
use swarmproof.Crawler.Compact.{decode_peers}
use swarmproof.Crawler.Index.{write_block, write_failure, write_name}
use swarmproof.Crawler.Stages.{Crawler, Job, Lead, meta_queue_max, remove_at}
use swarmproof.Metainfo.{Meta, is_empty}
use swarmproof.PeerTable.{Peer, observe}
use swarmproof.Worker.Pool.{values}

-- `_peerWorker`, from the head of the loop to the query.
unfoldable pub ask_peers : List Lead → Crawler → Crawler
ask_peers [] c = c
ask_peers (l ∷ ls) c = record c {
  leads = ls;
  idle = record (c.idle) { lookups = c.idle.lookups - 1 };
  asking = l ∷ c.asking;
}

unfoldable pub take_lead : Crawler → Crawler
unfolding ask_peers
take_lead c =
    if c.running
    then ask_peers c.leads c
    else record c { idle = record (c.idle) { lookups = c.idle.lookups - 1 } }

-- The wait for room, and what follows it. A worker that is stopped in its wait returns, and is not
-- idle any more.
unfoldable pub admit : Job → Crawler → Crawler
admit j c =
    let full = not (ltb (length c.pending_meta) meta_queue_max) in
    let back = record c { idle = record (c.idle) { lookups = c.idle.lookups + 1 } } in
    if c.running && full
    then record c { holding = j ∷ c.holding }
    else (if not c.running
        then c
        else (if ltb (length c.pending_meta) meta_queue_max
            then record back { pending_meta = c.pending_meta ++ j ∷ [] }
            else record back { stats = record (c.stats) { dropped = c.stats.dropped + 1 } }))

-- `_peerWorker` after the query.
unfoldable pub peers_found : ℕ → List Peer → Crawler → Crawler
peers_found now ps c = record c {
  stats = record (c.stats) { peer_hits = c.stats.peer_hits + 1 };
  peer_table = observe now c.peer_table ps;
}

unfoldable pub use_peers : ℕ → Lead → List Peer → Crawler → Crawler
unfolding admit peers_found
use_peers now l [] c = record c {
  stats = record (c.stats) { peer_misses = c.stats.peer_misses + 1 };
  index = write_failure l.hash c.index;
  idle = record (c.idle) { lookups = c.idle.lookups + 1 };
}
use_peers now l (p ∷ ps) c =
    admit (record { hash = l.hash; peers = p ∷ ps }) (peers_found now (p ∷ ps) c)

unfoldable pub lead_taken : ℕ → Crawler → Crawler
lead_taken i c = record c { asking = remove_at i c.asking }

-- The `values` of the reply: `none` where there is no reply, or no array in it.
unfoldable pub asked_at : ℕ → Option Lead → Option (List (Option (List ℕ))) → ℕ → Crawler → Crawler
unfolding use_peers lead_taken
asked_at i none values now c = c
asked_at i (some l) values now c = use_peers now l (decode_peers values) (lead_taken i c)

unfoldable pub hold_ended : ℕ → Crawler → Crawler
hold_ended i c = record c { holding = remove_at i c.holding }

-- A worker that holds a job looks again whether there is room.
unfoldable pub held_at : ℕ → Option Job → Crawler → Crawler
unfolding admit hold_ended
held_at i none c = c
held_at i (some j) c = admit j (hold_ended i c)

-- `_metaWorker`, from the head of the loop to the connections.
unfoldable pub ask_metadata : List Job → Crawler → Crawler
ask_metadata [] c = c
ask_metadata (j ∷ js) c = record c {
  pending_meta = js;
  stats = record (c.stats) { meta_attempts = c.stats.meta_attempts + 1 };
  idle = record (c.idle) { fetchers = c.idle.fetchers - 1 };
  naming = j ∷ c.naming;
}

unfoldable pub take_job : Crawler → Crawler
unfolding ask_metadata
take_job c =
    if c.running
    then ask_metadata c.pending_meta c
    else record c { idle = record (c.idle) { fetchers = c.idle.fetchers - 1 } }

-- The gate: what the filter blocks is not named.
unfoldable pub gate : Text → Meta → Option Reason × ContentFilter → Crawler → Crawler
gate hash m (some reason, f) c = record c {
  filter = f;
  index = write_block hash c.index;
  stats = record (c.stats) { blocked = c.stats.blocked + 1 };
}
gate hash m (none, f) c = record c {
  filter = f;
  index = write_name m hash c.index;
  stats = record (c.stats) { named = c.stats.named + 1 };
}

-- `_metaWorker` after the connections, with the metadata that `fetchFromAny` gives.
unfoldable pub use_metadata : (Text → Text → Bool) → Text → Option Meta → Crawler → Crawler
unfolding gate
use_metadata matches hash none c = record c { index = write_failure hash c.index }
use_metadata matches hash (some m) c =
    if is_empty m.name
    then record c { index = write_failure hash c.index }
    else gate hash m (check matches c.filter m) c

unfoldable pub fetcher_back : ℕ → Crawler → Crawler
fetcher_back i c = record c {
  naming = remove_at i c.naming;
  idle = record (c.idle) { fetchers = c.idle.fetchers + 1 };
}

unfoldable pub named_at : (Text → Text → Bool) → ℕ → Option Job → Option Meta → Crawler → Crawler
unfolding use_metadata fetcher_back
named_at matches i none fetched c = c
named_at matches i (some j) fetched c = use_metadata matches j.hash fetched (record c {
  naming = remove_at i c.naming;
  idle = record (c.idle) { fetchers = c.idle.fetchers + 1 };
})
