-- ===== src/Lib.antt =====
-- swarmproof ranks torrent candidates by how alive their swarms are, and proves it by asking peers.
--
-- The parts, and the files that model them:
--
-- - peerTable.js: what earlier attempts say about an address. PeerTable has the state and every method;
--   Bound, Liveness and Rank have its properties.
-- - metainfo.js: a torrent's metadata. Metainfo reads the info dictionary (the handler of 'metadata'),
--   Metainfo.Fetch is `fetchMetadata` (one connection: `run_events` over the events of socket, wire and
--   timers, in any order), Metainfo.Any is `fetchFromAny` (`in_turn` for a concurrency of one, and a
--   `Race` for more, in which a schedule says whose attempt ends next). It calls the peer table.
-- - swarmScout.js: Scout.Scrape is `_scrapeTrackers`, Scout.Score the score of `_scoreCandidate` and
--   the test `_coversAll`, Scout.Probe what a probe keeps in the local cache, `_rankFromShared` and
--   `_persistNodes`, Scout.Rank is `rank`, `_reportHealth` and `_backgroundRefresh`, Scout.Verdict is
--   `assess` after the ranking. It calls the files above and below.
-- - peerSources.js: PeerSources, with `_pick`, `_probe` (`run_probe` over the events of a socket, in any
--   order) and `createPeerSource`.
-- - locality.js: Locality, the factor of a peer by its place, and the weighted counts.
-- - cloudCache.js: CloudCache, the client of the control plane, with its circuit breaker.
-- - peerCache.js: PeerCache, the local database of swarms and nodes.
-- - contentFilter.js: ContentFilter, the language of keywords, the junk checks and `check`.
-- - streamServer.js: Stream.Media (`_pickMediaFile`, `_selectByteRange` and its callers), Stream.Range
--   (`_handleRequest`), Stream.Watchdog (one check of `_resetStallWatchdog`) and Stream.Player (`play`,
--   the race of the candidates, `abort`, the timer), which uses these. A race waits for the old torrent
--   and then for its racers, and what happens between is one step; `run_player` runs on any sequence of
--   events. Ranges of bytes and pieces are given with the place behind their last, since the last byte of
--   an empty file would be -1.
-- - dhtCrawler.js: Crawler.Sweep (`_nextTarget`), Crawler.Compact (`_decodeNodes`, `_decodePeers`),
--   Crawler.Index (the statements on the table of torrents, `counts`, `search`), Crawler.Nodes (the
--   states of nodes and `_enqueueNodes`), Crawler.Stages (the state, `_sampleWorker` and
--   `_discoveryWorker`), Crawler.Naming (`_peerWorker`, `_metaWorker`) and Crawler.Run (`start`, `stop`
--   and a run, a sequence of events in any order). A step is what a worker does between two of its waits;
--   what it waits for comes with the step. The state of a node is an object that a worker keeps while it
--   waits, and the map may have been cleared meanwhile: the model counts the clearings, and a write to a
--   state of an earlier count is lost. It calls the peer table, the content filter and the metadata's
--   reader.
-- - catalog.js: Catalog, what is typed and becomes a candidate (`parse_input`).
-- - server.js: Engine, where the service listens, which call a request is, and `toCandidates`.
-- - worker-api/src/index.js: FrontDoor, `tooLarge` and the handler before the engine, with its cache.
--   Engine.Asked and Engine.Reached are about the two together.
-- - worker/src/index.js, the control plane: Worker.Input (`isPublicIPv4`, `isValidPort`, `clampInt`),
--   Worker.Health (`mergeHealth`, `describe`, the coalescer), Worker.Post (`postHealth`) and Worker.Pool
--   (`postNodes`, `aggregateNodes` and what `getNodes` serves).
--
-- Base has what these share: Boolean tests, lists measured by native numbers, a stable sort, texts,
-- tables keyed by text and decimal numerals.
--
-- A text is its UTF-16 units. A number of the source is a natural number where it can be nothing else;
-- where input may be negative, fractional or not a number, it is a `Number` of Worker.Input. Where the
-- source subtracts times to compare them, the model adds on the other side, since times are natural
-- numbers and the source's difference may be negative. The clock is an argument of whatever reads it.
-- Numbers in doubles that a score is made of are exact fractions, in hundredths.
--
-- Loops are recursion on the list that they walk, or on the rounds that the length of the input allows
-- where they step by a fixed number of bytes (20 or 26), and what runs on events recurs on the sequence of
-- events, of any length. Two definitions run on fuel: `add_batches` of Worker.Pool, whose batches are no
-- more than the names that it is given as fuel, and the digits of a number in Base.Decimal, which are no
-- more than the number and one.
--
-- Outside the model are the packages (the DHT, the tracker client, the torrent client, the wire protocol,
-- bencode, base32), the network, SQLite, the key-value store and the edge's cache and limiter: what they
-- give is an argument of the definitions, which assume no law of it, but that the statements on the
-- crawler's index work and that an entry that the edge has stored is there for the next request. Not
-- modelled are: the reading of a roster (peerSources.js), the opening and closing of the stream server,
-- what the calls of server.js answer and the state that its play goes through, the life of the scout,
-- `getHealth` of the client, the migration of an old local cache, and the reads and the administration of
-- the control plane, which mostly drive sockets, databases and packages; and the documentation worker, the
-- tools and the deployment, which hold none of the program's logic.
pub mod Base
pub mod PeerTable
pub mod Worker
pub mod Locality
pub mod Metainfo
pub mod CloudCache
pub mod PeerCache
pub mod ContentFilter
pub mod Scout
pub mod Crawler
pub mod PeerSources
pub mod Stream
pub mod Catalog
pub mod FrontDoor
pub mod Engine
