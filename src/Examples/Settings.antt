-- ===== src/Examples/Settings.antt =====
-- Settings at concrete values.
use stratum_bee.Base.{codes, text_eq, ok, ℕ, ◌≡◌, refl, none, some, arith}
use stratum_bee.Crates.{Network}
use stratum_bee.Config.{Config}
use stratum_bee.Config.Valid.{
  whitespace_size, is_blank, validate_sizes, validate_difficulties, validate_ports, validate_payout,
  validate_texts, validate_sv2, validate,
}
use stratum_bee.Config.Sections.{
  default_bitcoin, default_api, default_mining, default_sv2, FileConfig, default_stratum,
  default_runtime,
}
use stratum_bee.Config.Load.{
  trim_start, trim_end, trim, trim_non_empty, trimmed_opt, normalize_opt, env_or, required_env_or,
  parse_network, Environment, payout_address_of, merged, load,
}
use stratum_bee.Config.Loaded.{IsLoaded, load-IsLoaded}
use stratum_bee.Template.Coinbase.{CoinbaseParts, build_coinbase_parts}
use stratum_bee.Template.Coinbase.Total.{build_coinbase_parts_total}
use stratum_bee.Examples.Toys.{toy_crates, toy_floats}
use stratum_bee.Examples.Shares.{toy_config}

abbrev good_config : Config ℕ
good_config = record toy_config {
  stratum_port = 3333;
  rpc_url = codes "http://127.0.0.1:8332";
  rpc_user = codes "user";
  rpc_pass = codes "pass";
  coinbase_message = codes "Solo";
}

good_config_valid : validate toy_crates toy_floats good_config ≡ ok tt
unfolding validate validate_sizes validate_difficulties validate_ports validate_payout
    validate_texts is_blank whitespace_size
good_config_valid = refl

build_coinbase_parts_total_example :
    (parts : CoinbaseParts) × (build_coinbase_parts toy_crates good_config 5_000_000_000 900_000
        none none
      ≡ ok parts)
build_coinbase_parts_total_example =
    build_coinbase_parts_total toy_crates toy_floats good_config 5_000_000_000 900_000
      good_config_valid (omega arith)

abbrev good_file : FileConfig ℕ
good_file = record {
  bitcoin = record default_bitcoin {
    network = codes " Regtest ";
    rpc_url = codes "http://127.0.0.1:8332";
    rpc_user = codes "user";
  };
  stratum = default_stratum toy_floats;
  api = default_api;
  mining = record default_mining { payout_address = codes "bcrt1" };
  runtime = record (default_runtime toy_floats) { max_recent_events = 1 };
  sv2 = default_sv2;
}

abbrev good_environment : Environment
good_environment = record {
  stratumbee_network = none;
  stratumbee_rpc_url = none;
  stratumbee_rpc_user = none;
  stratumbee_rpc_pass = some (codes "pass ");
  stratumbee_payout_script_hex = none;
  stratumbee_payout_address = none;
  stratumbee_p2p_fast_peer = none;
  stratumbee_auth_token = none;
}

abbrev loaded_config : Config ℕ
loaded_config =
    merged toy_floats good_environment good_file Network.regtest (codes "http://127.0.0.1:8332")
      (codes "user") (codes "pass") none (codes "bcrt1")

load_good : load toy_crates toy_floats good_environment good_file ≡ ok loaded_config
unfolding load parse_network required_env_or env_or payout_address_of normalize_opt trimmed_opt
    trim_non_empty trim trim_start trim_end is_blank whitespace_size merged default_bitcoin
    default_stratum default_api default_mining default_runtime default_sv2 validate validate_sizes
    validate_difficulties validate_ports validate_payout validate_texts validate_sv2 text_eq
load_good = refl

load-IsLoaded_example : IsLoaded toy_crates toy_floats good_environment good_file loaded_config
load-IsLoaded_example =
    load-IsLoaded toy_crates toy_floats good_environment good_file loaded_config load_good
