-- ===== src/Config.antt =====
-- The settings of src/config.rs, with a path as its text.
pub mod Valid
pub mod Accepted
pub mod Sections
pub mod Load
pub mod Loaded
use stratum_bee.Base.{Text, ℕ, Bool, Option, List}
use stratum_bee.Crates.{Network}

pub record Config (F : Type 0) : Type 0 where
  pub network : Network
  pub stratum_bind : Text
  pub stratum_port : ℕ
  pub api_bind : Text
  pub api_port : ℕ
  pub api_enabled : Bool
  pub rpc_url : Text
  pub rpc_user : Text
  pub rpc_pass : Text
  pub zmq_block_urls : List Text
  pub p2p_fast_peer : Option Text
  pub payout_address : Text
  pub payout_script_hex : Option Text
  pub pool_tag : Text
  pub coinbase_message : Text
  pub extranonce1_size : ℕ
  pub extranonce2_size : ℕ
  pub min_difficulty : F
  pub max_difficulty : F
  pub start_difficulty : F
  pub target_share_time_secs : F
  pub vardiff_retarget_time_secs : F
  pub vardiff_enabled : Bool
  pub notify_bucket_capacity : F
  pub notify_bucket_refill_ms : F
  pub auth_token : Option Text
  pub max_line_bytes : ℕ
  pub idle_timeout_secs : ℕ
  pub miner_inactive_timeout_secs : ℕ
  pub max_recent_events : ℕ
  pub max_block_history : ℕ
  pub sv2_enabled : Bool
  pub sv2_bind : Text
  pub sv2_port : ℕ
  pub sv2_max_connections : ℕ
  pub sv2_max_connections_per_ip : ℕ
  pub sv2_max_handshakes : ℕ
  pub sv2_handshake_timeout_secs : ℕ
  pub sv2_idle_timeout_secs : ℕ
  pub sv2_frame_max_bytes : ℕ
  pub sv2_authority_public_key_path : Option Text
  pub sv2_authority_secret_key_path : Option Text
  pub sv2_cert_validity_secs : ℕ
