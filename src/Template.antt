-- ===== src/Template.antt =====
-- src/template.rs: the parts of a job that are built from a block template.
pub mod Script
pub mod Compact
pub mod Coinbase
pub mod Rules
pub mod Engine
