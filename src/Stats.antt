-- ===== src/Stats.antt =====
-- src/core/stats.h and src/core/stats.cpp: samples, latency buckets, the lock-free ring of each
-- writer, and the collector that drains the rings into its counters.
pub mod Sample
pub mod Bucket
pub mod Queue
pub mod Ring
pub mod Floats
pub mod Collector
pub mod Snapshot
pub mod Delivery
pub mod History
pub mod Concurrent
mod Tests
