-- ===== src/Config/Load.antt =====
-- `Config::load` of src/config.rs, from the file's sections and the environment on. `clamp` panics
-- where its bounds are not in order, as at a least difficulty that is not-a-number: that is an error
-- here.
use stratum_bee.Base.{
  ◌==◌, if◌then◌else◌, is_empty, Text, codes, ascii_lowercase, text_eq, Result, ok, bail, ensure,
  ◌>>=◌, ℕ, zero, suc, ◌-◌, max, ◌||◌, Option, none, some, [], ◌∷◌, map,
}
use stratum_bee.Crates.{Network, Crates}
use stratum_bee.Float.{FloatOps, float_max, float_clamp}
use stratum_bee.Config.{Config}
use stratum_bee.Config.Valid.{whitespace_size, is_blank, validate}
use stratum_bee.Config.Sections.{MiningSection, FileConfig}

-- `text.trim_start()`, with the bytes that are left of a character.
unfoldable pub trim_start : ℕ → Text → Text
trim_start skipped [] = []
trim_start (suc skipped) (b ∷ text) = trim_start skipped text
trim_start zero (b ∷ text) =
    let size = whitespace_size (b ∷ text) in
    let rest = trim_start (size - 1) text in if size == 0 then b ∷ text else rest

-- A text without the white space at its end: behind what is blank nothing is kept.
unfoldable pub trim_end : Text → Text
trim_end [] = []
trim_end (b ∷ text) = if is_blank 0 (b ∷ text) then [] else b ∷ trim_end text

unfoldable pub trim : Text → Text
trim text = trim_end (trim_start 0 text)

unfoldable pub trim_non_empty : Text → Option Text
trim_non_empty value = let trimmed = trim value in if is_empty trimmed then none else some trimmed

unfoldable pub trimmed_opt : Option Text → Option Text
trimmed_opt none = none
trimmed_opt (some value) = trim_non_empty value

unfoldable pub normalize_opt : Option Text → Option Text → Option Text
normalize_opt primary fallback = elim (trimmed_opt primary) [
  | some value ↦ some value
  | none ↦ trimmed_opt fallback
]

-- The value of a variable of the environment, or what the file has.
unfoldable pub env_or : Option Text → Text → Text
env_or var fallback = elim var [
  | none ↦ trim fallback
  | some v ↦ let trimmed = trim v in if is_empty trimmed then trim fallback else trimmed
]

unfoldable pub required_env_or : Option Text → Text → Result Text
required_env_or var fallback =
    let value = env_or var fallback in if is_empty value then bail "value is required" else ok value

unfoldable pub parse_network : Text → Result Network
parse_network raw =
    let name = map ascii_lowercase (trim raw) in
    if text_eq name (codes "mainnet") || text_eq name (codes "bitcoin")
    then ok Network.bitcoin
    else if text_eq name (codes "testnet")
    then ok Network.testnet
    else if text_eq name (codes "regtest")
    then ok Network.regtest
    else if text_eq name (codes "signet")
    then ok Network.signet
    else bail "unsupported network"

-- The variables of the environment that are read.
pub record Environment : Type 0 where
  pub stratumbee_network : Option Text
  pub stratumbee_rpc_url : Option Text
  pub stratumbee_rpc_user : Option Text
  pub stratumbee_rpc_pass : Option Text
  pub stratumbee_payout_script_hex : Option Text
  pub stratumbee_payout_address : Option Text
  pub stratumbee_p2p_fast_peer : Option Text
  pub stratumbee_auth_token : Option Text

unfoldable pub payout_address_of : Environment → MiningSection → Option Text → Result Text
payout_address_of env mining (some script_hex) =
    ok (env_or env.stratumbee_payout_address mining.payout_address)
payout_address_of env mining none =
    required_env_or env.stratumbee_payout_address mining.payout_address

module _ {F : Type 0} (f : FloatOps F) where
  unfoldable pub merged :
      Environment → FileConfig F → Network → Text → Text → Text → Option Text → Text → Config F
  merged env file network rpc_url rpc_user rpc_pass payout_script_hex payout_address =
      let stratum = file.stratum in
      let min_difficulty = stratum.min_difficulty in
      let max_difficulty = float_max f stratum.max_difficulty min_difficulty in
      record {
        network = network;
        stratum_bind = stratum.bind;
        stratum_port = stratum.port;
        api_bind = file.api.bind;
        api_port = file.api.port;
        api_enabled = file.api.enabled;
        rpc_url = rpc_url;
        rpc_user = rpc_user;
        rpc_pass = rpc_pass;
        zmq_block_urls = file.bitcoin.zmq_block_urls;
        p2p_fast_peer = normalize_opt env.stratumbee_p2p_fast_peer file.bitcoin.p2p_fast_peer;
        payout_address = payout_address;
        payout_script_hex = payout_script_hex;
        pool_tag = file.mining.pool_tag;
        coinbase_message = file.mining.coinbase_message;
        extranonce1_size = stratum.extranonce1_size;
        extranonce2_size = stratum.extranonce2_size;
        min_difficulty = min_difficulty;
        max_difficulty = max_difficulty;
        start_difficulty = float_clamp f stratum.start_difficulty min_difficulty max_difficulty;
        target_share_time_secs = float_max f stratum.target_share_time_secs (f.of_nat 1);
        vardiff_retarget_time_secs = float_max f stratum.vardiff_retarget_time_secs (f.of_nat 5);
        vardiff_enabled = stratum.vardiff_enabled;
        notify_bucket_capacity = float_max f file.runtime.notify_bucket_capacity (f.of_nat 1);
        notify_bucket_refill_ms = float_max f file.runtime.notify_bucket_refill_ms (f.of_nat 10);
        auth_token = normalize_opt env.stratumbee_auth_token stratum.auth_token;
        max_line_bytes = max stratum.max_line_bytes 1024;
        idle_timeout_secs = max stratum.idle_timeout_secs 30;
        miner_inactive_timeout_secs = max file.runtime.miner_inactive_timeout_secs 30;
        max_recent_events = max file.runtime.max_recent_events 128;
        max_block_history = max file.runtime.max_block_history 8;
        sv2_enabled = file.sv2.enabled;
        sv2_bind = file.sv2.bind;
        sv2_port = file.sv2.port;
        sv2_max_connections = max file.sv2.max_connections 1;
        sv2_max_connections_per_ip = max file.sv2.max_connections_per_ip 1;
        sv2_max_handshakes = max file.sv2.max_handshakes 1;
        sv2_handshake_timeout_secs = max file.sv2.handshake_timeout_secs 1;
        sv2_idle_timeout_secs = max file.sv2.idle_timeout_secs 30;
        sv2_frame_max_bytes = max file.sv2.frame_max_bytes 1024;
        sv2_authority_public_key_path = file.sv2.authority_public_key_path;
        sv2_authority_secret_key_path = file.sv2.authority_secret_key_path;
        sv2_cert_validity_secs = max file.sv2.cert_validity_secs 60;
      }

module _ {F : Type 0} (c : Crates) (f : FloatOps F) where
  unfoldable pub load : Environment → FileConfig F → Result (Config F)
  load env file = do
    network ← parse_network (env_or env.stratumbee_network file.bitcoin.network)
    rpc_url ← required_env_or env.stratumbee_rpc_url file.bitcoin.rpc_url
    rpc_user ← required_env_or env.stratumbee_rpc_user file.bitcoin.rpc_user
    rpc_pass ← required_env_or env.stratumbee_rpc_pass file.bitcoin.rpc_pass
    let payout_script_hex =
        normalize_opt env.stratumbee_payout_script_hex file.mining.payout_script_hex
    payout_address ← payout_address_of env file.mining payout_script_hex
    let config =
        merged f env file network rpc_url rpc_user rpc_pass payout_script_hex payout_address
    ordered ←
        ensure (f.le config.min_difficulty config.max_difficulty) "min > max, or either was NaN"
    done ← validate c f config
    ok config
