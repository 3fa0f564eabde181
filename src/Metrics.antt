-- ===== src/Metrics.antt =====
-- internal/metrics: the counts of requests.
pub mod Collector
pub mod Live
mod Tests
