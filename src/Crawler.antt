-- ===== src/Crawler.antt =====
-- dhtCrawler.js: an index of what the DHT holds, filled by four kinds of workers.
pub mod Sweep
pub mod Compact
pub mod Index
pub mod Nodes
pub mod Stages
pub mod Naming
pub mod Run
