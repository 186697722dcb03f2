-- ===== src/Scout.antt =====
-- swarmScout.js: ranking candidates by the signals, and verifying them by asking peers.
pub mod Scrape
pub mod Score
pub mod Probe
pub mod Verdict
pub mod Rank
