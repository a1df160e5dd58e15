-- ===== src/Config/Loaded.antt =====
-- Theorems on `Config::load` of src/config.rs.
use stratum_bee.Base.{
  if◌then◌else◌, is_empty, Text, codes, ascii_lowercase, text_eq, text_eq→eq, Result, ok, ensure,
  >>=-eq-ok, ok-injective, ◌≤◌, ◌≡◌, refl, sym, subst, Bool, true, false, ◌||◌, Option, none, some,
  map, arith,
}
use stratum_bee.Crates.{Network, Crates}
use stratum_bee.Float.{FloatOps}
use stratum_bee.Config.{Config}
use stratum_bee.Config.Accepted.{IsAccepted, validate-IsAccepted}
use stratum_bee.Config.Valid.{validate}
use stratum_bee.Config.Sections.{MiningSection, FileConfig}
use stratum_bee.Config.Load.{
  trim, normalize_opt, env_or, required_env_or, parse_network, Environment, payout_address_of,
  merged, load,
}

-- The text that a setting is taken from: the variable of the environment without the white space
-- around it, if something is left, or else the file's text.
pub data IsChosen : Option Text → Text → Text → Type 0 where
  unset : (fallback : Text) → IsChosen none fallback (trim fallback)
  blank :
      (v fallback : Text) → is_empty (trim v) ≡ true → IsChosen (some v) fallback (trim fallback)
  set : (v fallback : Text) → is_empty (trim v) ≡ false → IsChosen (some v) fallback (trim v)

-- The names of the networks.
pub data NetworkName : Text → Network → Type 0 where
  mainnet : NetworkName (codes "mainnet") Network.bitcoin
  bitcoin : NetworkName (codes "bitcoin") Network.bitcoin
  testnet : NetworkName (codes "testnet") Network.testnet
  regtest : NetworkName (codes "regtest") Network.regtest
  signet : NetworkName (codes "signet") Network.signet

chosen :
    (v fallback : Text) (empty : Bool)
    → is_empty (trim v) ≡ empty
    → IsChosen (some v) fallback (if empty then trim fallback else trim v)
chosen v fallback true e = IsChosen.blank v fallback e
chosen v fallback false e = IsChosen.set v fallback e

env_or-IsChosen :
    (var : Option Text) (fallback : Text) → IsChosen var fallback (env_or var fallback)
unfolding env_or
env_or-IsChosen none fallback = IsChosen.unset fallback
env_or-IsChosen (some v) fallback = chosen v fallback (is_empty (trim v)) refl

required_env_or-IsChosen :
    (var : Option Text) (fallback value : Text)
    → required_env_or var fallback ≡ ok value
    → IsChosen var fallback value
unfolding required_env_or
required_env_or-IsChosen var fallback value e =
    let same : env_or var fallback ≡ value = ground (arith, e) in
    subst (IsChosen var fallback) same (env_or-IsChosen var fallback)

payout_address_of-IsChosen :
    (env : Environment) (mining : MiningSection) (script_hex : Option Text) (value : Text)
    → payout_address_of env mining script_hex ≡ ok value
    → IsChosen env.stratumbee_payout_address mining.payout_address value
unfolding payout_address_of
payout_address_of-IsChosen env mining (some script_hex) value e =
    subst (IsChosen env.stratumbee_payout_address mining.payout_address) (ok-injective e)
      (env_or-IsChosen env.stratumbee_payout_address mining.payout_address)
payout_address_of-IsChosen env mining none value e =
    required_env_or-IsChosen env.stratumbee_payout_address mining.payout_address value e

named_as :
    (name literal : Text) (network : Network)
    → NetworkName literal network
    → text_eq name literal ≡ true
    → NetworkName name network
named_as name literal network named e =
    subst (λ text. NetworkName text network) (sym (text_eq→eq name literal e)) named

named_if :
    (test : Bool) (name : Text) (named network : Network) (others : Result Network)
    → (test ≡ true → NetworkName name named)
    → (others ≡ ok network → NetworkName name network)
    → (if test then ok named else others) ≡ ok network
    → NetworkName name network
named_if true name named network others first rest e =
    subst (NetworkName name) (ok-injective e) (first refl)
named_if false name named network others first rest e = rest e

named_either :
    (name : Text) (test : Bool)
    → text_eq name (codes "mainnet") ≡ test
    → (test || text_eq name (codes "bitcoin")) ≡ true
    → NetworkName name Network.bitcoin
named_either name true h e = named_as name (codes "mainnet") Network.bitcoin NetworkName.mainnet h
named_either name false h e = named_as name (codes "bitcoin") Network.bitcoin NetworkName.bitcoin e

parse_network-NetworkName :
    (raw : Text) (network : Network)
    → parse_network raw ≡ ok network
    → NetworkName (map ascii_lowercase (trim raw)) network
unfolding parse_network
parse_network-NetworkName raw network e =
    let name = map ascii_lowercase (trim raw) in
    named_if (text_eq name (codes "mainnet") || text_eq name (codes "bitcoin")) name _ network _
      (named_either name (text_eq name (codes "mainnet")) refl)
      (named_if (text_eq name (codes "testnet")) name _ network _
        (named_as name (codes "testnet") Network.testnet NetworkName.testnet)
        (named_if (text_eq name (codes "regtest")) name _ network _
          (named_as name (codes "regtest") Network.regtest NetworkName.regtest)
          (named_if (text_eq name (codes "signet")) name _ network _
            (named_as name (codes "signet") Network.signet NetworkName.signet) (λ h. cc))))
      e

module _ {F : Type 0} (c : Crates) (f : FloatOps F) where
  -- Where the settings come from, what is accepted of them, and their least limits.
  pub record IsLoaded (env : Environment) (file : FileConfig F) (config : Config F) : Type 0 where
    pub network_name : Text
    pub network_chosen : IsChosen env.stratumbee_network file.bitcoin.network network_name
    pub network_named : NetworkName (map ascii_lowercase (trim network_name)) config.network
    pub rpc_url_chosen : IsChosen env.stratumbee_rpc_url file.bitcoin.rpc_url config.rpc_url
    pub rpc_user_chosen : IsChosen env.stratumbee_rpc_user file.bitcoin.rpc_user config.rpc_user
    pub rpc_pass_chosen : IsChosen env.stratumbee_rpc_pass file.bitcoin.rpc_pass config.rpc_pass
    pub address_chosen :
        IsChosen env.stratumbee_payout_address file.mining.payout_address config.payout_address
    pub accepted : IsAccepted c f config
    pub line_bound : 1024 ≤ config.max_line_bytes
    pub idle_bound : 30 ≤ config.idle_timeout_secs
    pub events_bound : 128 ≤ config.max_recent_events
    pub blocks_bound : 8 ≤ config.max_block_history
    pub frame_bound : 1024 ≤ config.sv2_frame_max_bytes

  merged-IsLoaded :
      (env : Environment) (file : FileConfig F) (network_name : Text) (network : Network)
      (rpc_url rpc_user rpc_pass : Text) (script : Option Text) (address : Text)
      → IsChosen env.stratumbee_network file.bitcoin.network network_name
      → parse_network network_name ≡ ok network
      → required_env_or env.stratumbee_rpc_url file.bitcoin.rpc_url ≡ ok rpc_url
      → required_env_or env.stratumbee_rpc_user file.bitcoin.rpc_user ≡ ok rpc_user
      → required_env_or env.stratumbee_rpc_pass file.bitcoin.rpc_pass ≡ ok rpc_pass
      → payout_address_of env file.mining script ≡ ok address
      → IsAccepted c f (merged f env file network rpc_url rpc_user rpc_pass script address)
      → IsLoaded env file (merged f env file network rpc_url rpc_user rpc_pass script address)
  merged-IsLoaded env file network_name network rpc_url rpc_user rpc_pass script address chosen_name
        e_network e_url e_user e_pass e_address accepted =
      record {
        network_name = network_name;
        network_chosen = chosen_name;
        network_named = unfold merged in parse_network-NetworkName network_name network e_network;
        rpc_url_chosen = unfold merged in required_env_or-IsChosen _ _ rpc_url e_url;
        rpc_user_chosen = unfold merged in required_env_or-IsChosen _ _ rpc_user e_user;
        rpc_pass_chosen = unfold merged in required_env_or-IsChosen _ _ rpc_pass e_pass;
        address_chosen =
            unfold merged in payout_address_of-IsChosen env file.mining script address e_address;
        accepted = accepted;
        line_bound = unfold merged in omega arith;
        idle_bound = unfold merged in omega arith;
        events_bound = unfold merged in omega arith;
        blocks_bound = unfold merged in omega arith;
        frame_bound = unfold merged in omega arith;
      }

  -- Settings that are loaded have the network that is named by the environment, or else by the
  -- file, in any case of letters; the URL, user and password of the node and the payout address are
  -- those of the environment, where it has one that is not blank, or else of the file, without
  -- white space around them. They are such as the program can run with: the sizes of the
  -- extranonces, the order and the sign of the difficulties, the ports, the payout, the texts and
  -- the settings of Stratum V2 are within their limits, and neither are the limits on lines, idle
  -- time, kept events, kept blocks and Stratum V2 frames below the least ones.
  pub load-IsLoaded :
      (env : Environment) (file : FileConfig F) (config : Config F)
      → load c f env file ≡ ok config
      → IsLoaded env file config
  unfolding load
  load-IsLoaded env file config e =
      let network_name = env_or env.stratumbee_network file.bitcoin.network in
      let (network, e_network, e1) = >>=-eq-ok (parse_network network_name) _ e in
      let (rpc_url, e_url, e2) =
        >>=-eq-ok (required_env_or env.stratumbee_rpc_url file.bitcoin.rpc_url) _ e1 in
      let (rpc_user, e_user, e3) =
        >>=-eq-ok (required_env_or env.stratumbee_rpc_user file.bitcoin.rpc_user) _ e2 in
      let (rpc_pass, e_pass, e4) =
        >>=-eq-ok (required_env_or env.stratumbee_rpc_pass file.bitcoin.rpc_pass) _ e3 in
      let script = normalize_opt env.stratumbee_payout_script_hex file.mining.payout_script_hex in
      let (address, e_address, e5) = >>=-eq-ok (payout_address_of env file.mining script) _ e4 in
      let made = merged f env file network rpc_url rpc_user rpc_pass script address in
      let (_, _, e6) = >>=-eq-ok (ensure (f.le made.min_difficulty made.max_difficulty) _) _ e5 in
      let (_, valid, e7) = >>=-eq-ok (validate c f made) _ e6 in
      subst (IsLoaded env file) (ok-injective e7) (
        merged-IsLoaded env file network_name network rpc_url rpc_user rpc_pass script address
          (env_or-IsChosen env.stratumbee_network file.bitcoin.network) e_network e_url e_user
          e_pass e_address (validate-IsAccepted c f made valid))
