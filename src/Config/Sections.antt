-- ===== src/Config/Sections.antt =====
-- The sections of a configuration file in src/config.rs with their defaults. A field of them that the
-- file does not set has its default; reading TOML is left to the crate that does it.
use stratum_bee.Base.{Text, codes, ℕ, Bool, true, false, Option, none, List, []}
use stratum_bee.Float.{FloatOps}

pub record BitcoinSection : Type 0 where
  pub network : Text
  pub rpc_url : Text
  pub rpc_user : Text
  pub rpc_pass : Text
  pub zmq_block_urls : List Text
  pub p2p_fast_peer : Option Text

unfoldable pub default_bitcoin : BitcoinSection
default_bitcoin = record {
  network = codes "mainnet";
  rpc_url = [];
  rpc_user = [];
  rpc_pass = [];
  zmq_block_urls = [];
  p2p_fast_peer = none;
}

pub record StratumSection (F : Type 0) : Type 0 where
  pub bind : Text
  pub port : ℕ
  pub extranonce1_size : ℕ
  pub extranonce2_size : ℕ
  pub min_difficulty : F
  pub max_difficulty : F
  pub start_difficulty : F
  pub target_share_time_secs : F
  pub vardiff_retarget_time_secs : F
  pub vardiff_enabled : Bool
  pub auth_token : Option Text
  pub max_line_bytes : ℕ
  pub idle_timeout_secs : ℕ

pub record ApiSection : Type 0 where
  pub bind : Text
  pub port : ℕ
  pub enabled : Bool

unfoldable pub default_api : ApiSection
default_api = record { bind = codes "127.0.0.1"; port = 8080; enabled = true }

pub record MiningSection : Type 0 where
  pub payout_address : Text
  pub payout_script_hex : Option Text
  pub pool_tag : Text
  pub coinbase_message : Text

unfoldable pub default_mining : MiningSection
default_mining = record {
  payout_address = [];
  payout_script_hex = none;
  pool_tag = codes "StratumBee";
  coinbase_message = codes "Solo";
}

pub record RuntimeSection (F : Type 0) : Type 0 where
  pub notify_bucket_capacity : F
  pub notify_bucket_refill_ms : F
  pub miner_inactive_timeout_secs : ℕ
  pub max_recent_events : ℕ
  pub max_block_history : ℕ

pub record Sv2Section : Type 0 where
  pub enabled : Bool
  pub bind : Text
  pub port : ℕ
  pub max_connections : ℕ
  pub max_connections_per_ip : ℕ
  pub max_handshakes : ℕ
  pub handshake_timeout_secs : ℕ
  pub idle_timeout_secs : ℕ
  pub frame_max_bytes : ℕ
  pub authority_public_key_path : Option Text
  pub authority_secret_key_path : Option Text
  pub cert_validity_secs : ℕ

unfoldable pub default_sv2 : Sv2Section
default_sv2 = record {
  enabled = false;
  bind = codes "0.0.0.0";
  port = 3334;
  max_connections = 256;
  max_connections_per_ip = 16;
  max_handshakes = 32;
  handshake_timeout_secs = 5;
  idle_timeout_secs = 600;
  frame_max_bytes = 65536;
  authority_public_key_path = none;
  authority_secret_key_path = none;
  cert_validity_secs = 86400;
}

pub record FileConfig (F : Type 0) : Type 0 where
  pub bitcoin : BitcoinSection
  pub stratum : StratumSection F
  pub api : ApiSection
  pub mining : MiningSection
  pub runtime : RuntimeSection F
  pub sv2 : Sv2Section

module _ {F : Type 0} (f : FloatOps F) where
  unfoldable pub default_stratum : StratumSection F
  default_stratum = record {
    bind = codes "0.0.0.0";
    port = 3333;
    extranonce1_size = 4;
    extranonce2_size = 4;
    min_difficulty = f.of_nat 16384;
    max_difficulty = f.of_nat 4194304;
    start_difficulty = f.of_nat 16384;
    target_share_time_secs = f.of_nat 15;
    vardiff_retarget_time_secs = f.of_nat 90;
    vardiff_enabled = true;
    auth_token = none;
    max_line_bytes = 65536;
    idle_timeout_secs = 300;
  }

  unfoldable pub default_runtime : RuntimeSection F
  default_runtime = record {
    notify_bucket_capacity = f.of_nat 2;
    notify_bucket_refill_ms = f.of_nat 500;
    miner_inactive_timeout_secs = 1800;
    max_recent_events = 1024;
    max_block_history = 32;
  }
