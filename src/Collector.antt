-- ===== src/Collector.antt =====
-- packages/collector/src: fetching the feeds.
pub mod Ssrf
mod Examples
