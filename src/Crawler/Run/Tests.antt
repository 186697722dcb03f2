-- ===== src/Crawler/Run/Tests.antt =====
-- dhtCrawler.js: runs of the crawler.
use swarmproof.Crawler.Run.Workers.Turns.{count_begun, CrewOf}
use swarmproof.Crawler.Run.Workers.{crawl-CrewOf}
use swarmproof.Crawler.Run.Gate.Upheld.{GatedRows}
use swarmproof.Crawler.Run.Gate.{AllServed, crawl-Gated}
use swarmproof.Crawler.Run.Accounts.{IsNoStop, accounted_for, crawl-accounted_for}
use swarmproof.Crawler.Run.Bounded.{crawl-Within}
use swarmproof.Crawler.Run.Bounded.Steps.{Within}
use swarmproof.Crawler.Stages.{
  nth, remove_at, Crawler, SampleReply, add_lead, answered_at, ask_sample, enqueue_nodes, harvest,
  harvest_from, harvest_one, hex, hex_digit, interval_or_fallback, next_time, no_stats, sampled_at,
  take_sample, use_sample,
}
use swarmproof.Metainfo.{is_empty, Meta}
use swarmproof.PeerCache.{is_usable}
use swarmproof.Base.{
  ◌==◌, ◌++◌, ◌≤◌, All, map, if◌then◌else◌, Bool, List, Option, [], false, none, refl, some, true,
  ℕ, ◌∷◌, ◌≡◌,
}
use swarmproof.Base.Table.{lookup, set}
use swarmproof.Base.Text.{Text, same, text}
use swarmproof.ContentFilter.{ContentFilter, check, subject}
use swarmproof.Crawler.Compact.{
  compact_address, dotted_host, decode_nodes, decode_peers, decode_values, keep, peer_of_bytes,
}
use swarmproof.Crawler.Index.{
  Index, Torrent, write_failure, failed_once, write_block, withheld, counted_again, is_resolved,
  named_as, new_torrent, note_seen, update, write_name,
}
use swarmproof.Crawler.Naming.{
  admit, ask_metadata, ask_peers, asked_at, gate, lead_taken, named_at, peers_found, take_job,
  take_lead, use_metadata, use_peers,
}
use swarmproof.Crawler.Nodes.{
  add_state, clear_if_full, enqueue, is_due, is_false, node_state, unknown_node, write_state,
}
use swarmproof.Crawler.Run.{
  Concurrency, CrawlEvent, crawl, fetch_ends, fetch_turn, lookup_ends, lookup_turn, new_crawler,
  no_one, on_crawl, sample_ends, sample_turn, start_crawl, starts, stops,
}
use swarmproof.PeerTable.{Peer, new_table}

abbrev small : Concurrency
small = record { discovery = 1; sample = 2; peer = 1; metadata = 1 }

abbrev no_filter : ContentFilter
no_filter = record {
  junk = false;
  pattern = [];
  stats = record { checked = 0; banned_count = 0; junk_count = 0 };
}

abbrev never : Text → Text → Bool
never pattern subject = false

abbrev a_film : Meta
a_film = record { name = text "Sintel"; size = 129_000_000; files = 1; paths = [] }

abbrev a_node : Peer
a_node = record { host = text "9.9.9.9"; port = 6881 }

abbrev a_hash : List ℕ
a_hash =
    1 ∷ 2 ∷ 3 ∷ 4 ∷ 5 ∷ 6 ∷ 7 ∷ 8 ∷ 9 ∷ 10 ∷ 11 ∷ 12 ∷ 13 ∷ 14 ∷ 15 ∷ 16 ∷ 17 ∷ 18 ∷ 19 ∷ 20 ∷ []

abbrev a_reply : SampleReply
a_reply = record { samples = some a_hash; interval = none; nodes = none }

abbrev one_name : List CrawlEvent
one_name =
    starts 1000 (a_node ∷ [])
    ∷ sample_turn 1000 []
    ∷ sample_ends 0 (some a_reply) 1200
    ∷ lookup_turn
    ∷ lookup_ends 0 (some (some (8 ∷ 8 ∷ 4 ∷ 4 ∷ 26 ∷ 225 ∷ []) ∷ [])) 1300
    ∷ fetch_turn
    ∷ fetch_ends 0 (some a_film)
    ∷ []

abbrev at_first : Crawler
at_first = new_crawler (new_table 100 3 1000) no_filter []

abbrev with_name : Index
with_name =
    (
      hex a_hash,
      record (new_torrent 1200) {
        name = some (text "Sintel");
        size = 129_000_000;
        files = 1;
        resolved = true;
      },
    )
    ∷ []

crawl_program : Unit {0}
unfolding crawl on_crawl start_crawl enqueue_nodes enqueue node_state clear_if_full add_state
    unknown_node is_due is_false take_sample ask_sample sampled_at use_sample harvest harvest_from
    harvest_one hex hex_digit add_lead note_seen new_torrent is_resolved interval_or_fallback
    next_time write_state answered_at decode_nodes take_lead ask_peers asked_at use_peers lead_taken
    decode_peers decode_values peer_of_bytes keep compact_address dotted_host admit peers_found
    take_job ask_metadata named_at use_metadata gate write_name update named_as new_crawler no_one
    no_stats swarmproof.PeerTable.key write_failure failed_once write_block withheld counted_again
    check lookup set same nth remove_at is_usable is_empty
crawl_program = tt

a_hash_is_named : (crawl small never at_first one_name).index ≡ with_name
unfolding crawl_program
a_hash_is_named = refl

abbrev again : List CrawlEvent
again = starts 0 [] ∷ stops ∷ starts 5 [] ∷ []

-- The workers of the first start are still there when the second one sets new ones going.
twice_the_samplers : (crawl small never at_first again).idle.samplers ≡ 4
unfolding crawl_program
twice_the_samplers = refl

-- A start while the crawler runs sets no worker going.
started_once : (crawl small never at_first (starts 0 [] ∷ starts 5 [] ∷ [])).idle.samplers ≡ 2
unfolding crawl_program
started_once = refl

abbrev other_node : Peer
other_node = record { host = text "9.9.9.8"; port = 6881 }

abbrev b_hash : List ℕ
b_hash =
    9 ∷ 2 ∷ 3 ∷ 4 ∷ 5 ∷ 6 ∷ 7 ∷ 8 ∷ 9 ∷ 10 ∷ 11 ∷ 12 ∷ 13 ∷ 14 ∷ 15 ∷ 16 ∷ 17 ∷ 18 ∷ 19 ∷ 20 ∷ []

abbrev bad_film : Meta
bad_film = record { name = text "Bad"; size = 129_000_000; files = 1; paths = [] }

abbrev starts_with_b : Text → Text → Bool
starts_with_b pattern [] = false
starts_with_b pattern (c ∷ subject) = c == b'B'

abbrev film_of : Text → Option Meta
film_of hash = if same hash (hex a_hash) then some bad_film else some a_film

abbrev some_peers : Option (List (Option (List ℕ)))
some_peers = some (some (8 ∷ 8 ∷ 4 ∷ 4 ∷ 26 ∷ 225 ∷ []) ∷ [])

abbrev both_hashes : SampleReply
both_hashes = record { samples = some (a_hash ++ b_hash); interval = none; nodes = none }

-- The first fetch for a hash fails, and the second brings metadata that the filter blocks; the fetch for
-- another hash brings metadata that it lets through.
abbrev retried : List CrawlEvent
retried =
    starts 1000 (a_node ∷ other_node ∷ [])
    ∷ sample_turn 1000 []
    ∷ sample_ends 0 (some a_reply) 1200
    ∷ lookup_turn
    ∷ lookup_ends 0 some_peers 1300
    ∷ fetch_turn
    ∷ fetch_ends 0 none
    ∷ sample_turn 1400 []
    ∷ sample_ends 0 (some both_hashes) 1500
    ∷ lookup_turn
    ∷ lookup_ends 0 some_peers 1600
    ∷ fetch_turn
    ∷ fetch_ends 0 (film_of (hex a_hash))
    ∷ lookup_turn
    ∷ lookup_ends 0 some_peers 1700
    ∷ fetch_turn
    ∷ fetch_ends 0 (film_of (hex b_hash))
    ∷ []

retried_run :
    (map {B = Bool × Option Text}
        (λ (e : Text × Torrent). (e.1.blocked, e.1.name))
        (crawl small starts_with_b at_first retried).index
      ≡ (true, none) ∷ (false, some (text "Sintel")) ∷ [])
    × ((crawl small starts_with_b at_first retried).stats.peer_hits ≡ 3)
unfolding crawl_program
retried_run = (refl, refl)

retried_is_served : AllServed small starts_with_b film_of at_first retried
unfolding crawl_program
retried_is_served = (
  tt,
  (
    tt,
    (
      tt,
      (tt, (tt, (tt, (tt, (tt, (tt, (tt, (tt, (tt, (refl, (tt, (tt, (tt, (refl, tt)))))))))))))),
    ),
  ),
)

crawl-Within_example : Within (crawl small starts_with_b at_first retried)
crawl-Within_example = crawl-Within small starts_with_b (new_table 100 3 1000) no_filter [] retried

crawl-accounted_for_example :
    let c = crawl small starts_with_b at_first retried in
    (accounted_for c ≤ c.stats.peer_hits)
    × (All IsNoStop retried → accounted_for c ≡ c.stats.peer_hits)
crawl-accounted_for_example =
    crawl-accounted_for small starts_with_b (new_table 100 3 1000) no_filter [] retried

crawl-Gated_example :
    GatedRows starts_with_b film_of false [] (crawl small starts_with_b at_first retried).index
crawl-Gated_example =
    crawl-Gated small starts_with_b film_of (new_table 100 3 1000) no_filter [] retried
      retried_is_served tt

crawl-CrewOf_example : CrewOf small (count_begun again false 0) (crawl small never at_first again)
crawl-CrewOf_example = crawl-CrewOf small never (new_table 100 3 1000) no_filter [] again
