-- ===== src/Metrics.antt =====
-- src/metrics.rs: the counters of the pool, and the store of its miners, shares and blocks.
pub mod Counters
pub mod Maps
pub mod Store
pub mod Shares
pub mod Blocks
