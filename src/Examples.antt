-- ===== src/Examples.antt =====
-- The theorems at concrete inputs, with concrete functions for the crates and numbers for floats.
mod Toys
mod Codecs
mod Blocks
mod Shares
mod Sessions
mod Stats
mod P2p
mod Engine
mod Submits
mod Settings
