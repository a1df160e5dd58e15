-- ===== src/Examples/Shares.antt =====
-- A share and a coinbase at concrete values.
use mathlib.Core.Option
use stratum_bee.Base.{
  replicate, Bytes, zeros, codes, Result, ok, err, is_ok, ℕ, ◌+◌, ◌≤◌, ◌≡◌, refl, inl, true, false,
  none, List, [], ◌∷◌, ◌++◌,
}
use stratum_bee.Job.{JobTemplate, empty_template}
use stratum_bee.Merkle.{next_level, merkle_branches_loop, build_merkle_branches, fold_branches}
use stratum_bee.Share.{
  ShareSubmit, ShareResult, leq_loop, leq_le256, build_header, parse_u32_be,
  build_coinbase_with_witness, decode_transactions, build_block_hex, whole_part, fraction,
  hash_to_display_diff, reject, submitted_version, block_texts, score_share, validate_share,
}
use stratum_bee.Encoding.HexText.{
  hex_digit, read_hex_digits, from_str_radix_16, trim_0x, parse_u32_be_hex, hex_char,
}
use stratum_bee.Examples.Toys.{
  checksum, toy_sha256, toy_hex_encode, toy_hex_decode, toy_crates, toy_floats,
}
use stratum_bee.Config.{Config}
use stratum_bee.Crates.{Network}
use stratum_bee.Hash.{double_sha256, merkle_step}
use stratum_bee.Share.Validate.{validate_share-times, Scored, Parsed, validate_share-Scored}
use stratum_bee.Encoding.Varint.{encode_varint}
use stratum_bee.Template.Script.{
  abs_bytes, sign_last, encode_script_num, encode_coinbase_height, encode_script_pushdata,
}
use stratum_bee.Template.Coinbase.{
  CoinbaseParts, coinbase_tag, push_unless_empty, payout_script, coinbase_script_sig,
  decode_commitment, build_coinbase_parts,
}
use stratum_bee.Template.Coinbase.Split.{Splits, build_coinbase_parts-Splits}

abbrev tx_hashes : List Bytes
tx_hashes = replicate 32 1 ∷ replicate 32 2 ∷ []

-- A template of two transactions with the easiest target.
abbrev pub toy_job : JobTemplate ℕ
toy_job = record (empty_template toy_floats 0) {
  ready = true;
  coinbase2_bytes = 5 ∷ 6 ∷ zeros 4;
  target_le = replicate 32 0x0f;
  merkle_branches_le = build_merkle_branches toy_crates (replicate 32 0) tx_hashes;
  version = codes "20000000";
  version_u32 = 0x20000000;
  nbits_u32 = 0x207fffff;
  mintime_u32 = 1000;
}

abbrev pub toy_submit : ShareSubmit
toy_submit = record {
  extranonce2 = codes "00000001";
  ntime = codes "00000400";
  nonce = codes "0000002a";
  version = none;
}

abbrev pub toy_prefix : Bytes
toy_prefix = 2 ∷ 0 ∷ 0 ∷ 0 ∷ 1 ∷ []

abbrev pub toy_target : Bytes
toy_target = replicate 32 0xff

abbrev toy_outcome : Result (ShareResult ℕ)
toy_outcome =
    validate_share toy_crates toy_floats 2000 toy_job toy_prefix toy_submit toy_target none

abbrev toy_result : ShareResult ℕ
toy_result = elim toy_outcome [ ok r ↦ r | err e ↦ reject toy_crates toy_floats ]

pub result-eq :
    (o : Result (ShareResult ℕ)) (d : ShareResult ℕ)
    → is_ok o ≡ true
    → o ≡ ok (elim o [ ok r ↦ r | err e ↦ d ])
result-eq (ok r) d h = refl
result-eq (err e) d h = cc

accepted_run : toy_outcome ≡ ok toy_result
unfolding validate_share trim_0x parse_u32_be_hex from_str_radix_16 read_hex_digits hex_digit
    score_share toy_hex_decode toy_hex_encode block_texts leq_le256 leq_loop double_sha256
    toy_sha256 checksum build_header submitted_version empty_template fold_branches
    build_merkle_branches merkle_branches_loop next_level merkle_step build_block_hex encode_varint
    build_coinbase_with_witness decode_transactions fraction hash_to_display_diff reject whole_part
    hex_char
accepted_run = result-eq toy_outcome (reject toy_crates toy_floats) refl

accepted_share : toy_result.accepted ≡ true
unfolding validate_share trim_0x parse_u32_be_hex from_str_radix_16 read_hex_digits hex_digit
    score_share toy_hex_decode toy_hex_encode block_texts leq_le256 leq_loop double_sha256
    toy_sha256 checksum build_header submitted_version empty_template fold_branches
    build_merkle_branches merkle_branches_loop next_level merkle_step build_block_hex encode_varint
    build_coinbase_with_witness decode_transactions fraction hash_to_display_diff reject whole_part
    hex_char
accepted_share = refl

validate_share-times_example :
    (ntime : ℕ) × (parse_u32_be toy_submit.ntime ≡ ok ntime)
    × (toy_job.mintime_u32 ≤ ntime)
    × (ntime ≤ 2000 + 7200)
validate_share-times_example =
    validate_share-times toy_crates toy_floats 2000 toy_job toy_prefix toy_submit toy_target none
      toy_result accepted_run (inl accepted_share)

validate_share-Scored_example :
    (ntime : ℕ) × (nonce : ℕ) × (en2 : Bytes) × Parsed toy_crates toy_floats toy_submit ntime nonce
      en2
    × Scored toy_crates toy_floats toy_job
        (toy_prefix ++ (en2 ++ Option.get_or none toy_job.coinbase2_bytes))
        tx_hashes
        (submitted_version toy_crates toy_floats toy_submit.version toy_job.version_u32)
        ntime
        nonce
        toy_target
        toy_result
validate_share-Scored_example =
    validate_share-Scored toy_crates toy_floats (replicate 32 0) tx_hashes 2000 toy_job toy_prefix
      toy_submit toy_target none toy_result refl accepted_run (inl accepted_share)

abbrev pub toy_config : Config ℕ
toy_config = record {
  network = Network.regtest;
  stratum_bind = [];
  stratum_port = 0;
  api_bind = [];
  api_port = 0;
  api_enabled = false;
  rpc_url = [];
  rpc_user = [];
  rpc_pass = [];
  zmq_block_urls = [];
  p2p_fast_peer = none;
  payout_address = codes "bcrt1q";
  payout_script_hex = none;
  pool_tag = codes "StratumBee";
  coinbase_message = [];
  extranonce1_size = 4;
  extranonce2_size = 8;
  min_difficulty = 1;
  max_difficulty = 1024;
  start_difficulty = 16;
  target_share_time_secs = 1;
  vardiff_retarget_time_secs = 1;
  vardiff_enabled = false;
  notify_bucket_capacity = 1;
  notify_bucket_refill_ms = 1;
  auth_token = none;
  max_line_bytes = 4096;
  idle_timeout_secs = 0;
  miner_inactive_timeout_secs = 0;
  max_recent_events = 0;
  max_block_history = 0;
  sv2_enabled = false;
  sv2_bind = [];
  sv2_port = 0;
  sv2_max_connections = 0;
  sv2_max_connections_per_ip = 0;
  sv2_max_handshakes = 0;
  sv2_handshake_timeout_secs = 0;
  sv2_idle_timeout_secs = 0;
  sv2_frame_max_bytes = 0;
  sv2_authority_public_key_path = none;
  sv2_authority_secret_key_path = none;
  sv2_cert_validity_secs = 0;
}

abbrev toy_build : Result CoinbaseParts
toy_build = build_coinbase_parts toy_crates toy_config 5_000_000_000 100 none none

abbrev no_parts : CoinbaseParts
no_parts = record {
  coinbase1 = [];
  coinbase2 = [];
  coinbase_tx = [];
  has_witness_commitment = false;
}

abbrev toy_parts : CoinbaseParts
toy_parts = elim toy_build [ ok r ↦ r | err e ↦ no_parts ]

parts-eq :
    (o : Result CoinbaseParts) (d : CoinbaseParts)
    → is_ok o ≡ true
    → o ≡ ok (elim o [ ok r ↦ r | err e ↦ d ])
parts-eq (ok r) d h = refl
parts-eq (err e) d h = cc

built : toy_build ≡ ok toy_parts
unfolding build_coinbase_parts payout_script coinbase_script_sig encode_coinbase_height
    push_unless_empty coinbase_tag decode_commitment encode_script_pushdata encode_script_num
    sign_last abs_bytes
built = parts-eq toy_build no_parts refl

build_coinbase_parts-Splits_example : Splits toy_crates toy_config toy_parts
build_coinbase_parts-Splits_example =
    build_coinbase_parts-Splits toy_crates toy_config 5_000_000_000 100 none none toy_parts built
