-- ===== src/Stream.antt =====
-- streamServer.js: one torrent at a time, served over HTTP with ranges, with failover.
pub mod Media
pub mod Range
pub mod Player
pub mod Watchdog
