-- ===== src/Session.antt =====
-- src/stratum.rs: the session of one Stratum V1 miner.
pub mod JobId
pub mod Dedup
pub mod Messages
pub mod Requests
pub mod Subscribe
pub mod Notify
pub mod Submit
pub mod Lines
pub mod State
pub mod Sound
pub mod Steps
