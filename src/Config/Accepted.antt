-- ===== src/Config/Accepted.antt =====
-- What `Config::validate` of src/config.rs makes sure of.
use stratum_bee.Base.{
  if◌then◌else◌, length, is_empty, Bytes, Text, ok, ensure, >>=-eq-ok, ensure-eq-ok, ◌≤◌, ◌≡◌, refl,
  ◌⊎◌, inl, inr, Bool, true, false, not, Option, none, some, [], ◌∷◌, arith,
}
use stratum_bee.Crates.{Crates, context, context-eq-ok}
use stratum_bee.Float.{FloatOps}
use stratum_bee.Config.{Config}
use stratum_bee.Config.Valid.{
  is_blank, bind_overlaps, validate_sizes, validate_difficulties, validate_ports, validate_payout,
  validate_texts, validate_sv2, validate,
}

module _ {F : Type 0} where
  validate_sizes-bounds :
      (config : Config F)
      → validate_sizes config ≡ ok tt
      → (1 ≤ config.extranonce1_size)
        × (config.extranonce1_size ≤ 4)
        × (1 ≤ config.extranonce2_size)
        × (config.extranonce2_size ≤ 16)
  unfolding validate_sizes
  validate_sizes-bounds config e = ground arith

  validate_ports-bounds :
      (config : Config F)
      → validate_ports config ≡ ok tt
      → (1 ≤ config.stratum_port) × ((config.api_enabled ≡ false) ⊎ (1 ≤ config.api_port))
  unfolding validate_ports
  validate_ports-bounds config e = ground arith

  validate_texts-bounds :
      (config : Config F)
      → validate_texts config ≡ ok tt
      → (length config.pool_tag ≤ 32)
        × (length config.coinbase_message ≤ 32)
        × (is_blank 0 config.rpc_url ≡ false)
        × (is_blank 0 config.rpc_user ≡ false)
        × (is_blank 0 config.rpc_pass ≡ false)
  unfolding validate_texts
  validate_texts-bounds config e = ground arith

  validate_difficulties-bounds :
      (f : FloatOps F) (config : Config F)
      → validate_difficulties f config ≡ ok tt
      → (f.is_finite config.min_difficulty ≡ true)
        × (f.le config.min_difficulty (f.of_nat 0) ≡ false)
        × (f.is_finite config.max_difficulty ≡ true)
        × (f.lt config.max_difficulty config.min_difficulty ≡ false)
        × (f.is_finite config.start_difficulty ≡ true)
        × (f.lt config.start_difficulty config.min_difficulty ≡ false)
        × (f.lt config.max_difficulty config.start_difficulty ≡ false)
  unfolding validate_difficulties
  validate_difficulties-bounds f config e = ground arith

  -- What Stratum V2 needs: a port, which no other listener has on an overlapping address, limits, and
  -- the paths of both keys.
  pub record IsSv2Accepted (config : Config F) : Type 0 where
    pub port : 1 ≤ config.sv2_port
    pub stratum_apart : ¬ (
        (config.sv2_port ≡ config.stratum_port)
        × (bind_overlaps config.sv2_bind config.stratum_bind ≡ true))
    pub api_apart : ¬ (
        (config.api_enabled ≡ true)
        × (config.sv2_port ≡ config.api_port)
        × (bind_overlaps config.sv2_bind config.api_bind ≡ true))
    pub frame_bound : config.sv2_frame_max_bytes ≤ 16777216
    pub handshake_bound : config.sv2_handshake_timeout_secs ≤ 60
    pub cert_bound : config.sv2_cert_validity_secs ≤ 31536000
    pub public_key : ¬ (config.sv2_authority_public_key_path ≡ none)
    pub secret_key : ¬ (config.sv2_authority_secret_key_path ≡ none)

  validate_sv2-IsSv2Accepted :
      (config : Config F) → validate_sv2 config ≡ ok tt → IsSv2Accepted config
  unfolding validate_sv2
  validate_sv2-IsSv2Accepted config e = record {
    port = ground arith;
    stratum_apart = λ same. ground (arith, same);
    api_apart = λ same. ground (arith, same);
    frame_bound = ground arith;
    handshake_bound = ground arith;
    cert_bound = ground arith;
    public_key = λ missing. ground (arith, missing);
    secret_key = λ missing. ground (arith, missing);
  }

-- The script that a block pays to: decoded from the settings and not empty, or of the address.
pub data IsPayout {F : Type 0} (c : Crates) (config : Config F) : Type 0 where
  of_script :
      (script_hex : Text) (script : Bytes)
      → config.payout_script_hex ≡ some script_hex
      → c.hex_decode script_hex ≡ ok script
      → 1 ≤ length script
      → IsPayout c config
  of_address :
      (script : Bytes)
      → config.payout_script_hex ≡ none
      → is_blank 0 config.payout_address ≡ false
      → c.address_script config.payout_address config.network ≡ ok script
      → IsPayout c config

module _ {F : Type 0} (c : Crates) (f : FloatOps F) where
  is_empty-length : (bytes : Bytes) → not (is_empty bytes) ≡ true → 1 ≤ length bytes
  is_empty-length [] e = cc
  is_empty-length (b ∷ bytes) e = omega arith

  validate_payout-IsPayout :
      (config : Config F) (payout_script_hex : Option Text)
      → config.payout_script_hex ≡ payout_script_hex
      → validate_payout c config ≡ ok tt
      → IsPayout c config
  unfolding validate_payout
  validate_payout-IsPayout config (some script_hex) h e =
      let (script, decoded, e1) =
        >>=-eq-ok (context (c.hex_decode script_hex) "decode mining.payout_script_hex") _
          (rw h at e) in
      let (_, filled, _) = >>=-eq-ok (ensure (not (is_empty script)) _) _ e1 in
      IsPayout.of_script script_hex script h (context-eq-ok (c.hex_decode script_hex) _ decoded)
        (is_empty-length script (ensure-eq-ok (not (is_empty script)) _ filled))
  validate_payout-IsPayout config none h e =
      let (_, named, e1) =
        >>=-eq-ok (ensure (not (is_blank 0 config.payout_address)) _) _ (rw h at e) in
      let (script, parsed, _) =
        >>=-eq-ok (c.address_script config.payout_address config.network) _ e1 in
      IsPayout.of_address script h
        (ground (arith, ensure-eq-ok (not (is_blank 0 config.payout_address)) _ named)) parsed

  -- What holds of settings that are accepted.
  pub record IsAccepted (config : Config F) : Type 0 where
    pub extranonces :
        (1 ≤ config.extranonce1_size)
        × (config.extranonce1_size ≤ 4)
        × (1 ≤ config.extranonce2_size)
        × (config.extranonce2_size ≤ 16)
    pub difficulties :
        (f.is_finite config.min_difficulty ≡ true)
        × (f.le config.min_difficulty (f.of_nat 0) ≡ false)
        × (f.is_finite config.max_difficulty ≡ true)
        × (f.lt config.max_difficulty config.min_difficulty ≡ false)
        × (f.is_finite config.start_difficulty ≡ true)
        × (f.lt config.start_difficulty config.min_difficulty ≡ false)
        × (f.lt config.max_difficulty config.start_difficulty ≡ false)
    pub ports : (1 ≤ config.stratum_port) × ((config.api_enabled ≡ false) ⊎ (1 ≤ config.api_port))
    pub payout : IsPayout c config
    pub texts :
        (length config.pool_tag ≤ 32)
        × (length config.coinbase_message ≤ 32)
        × (is_blank 0 config.rpc_url ≡ false)
        × (is_blank 0 config.rpc_user ≡ false)
        × (is_blank 0 config.rpc_pass ≡ false)
    pub sv2 : (config.sv2_enabled ≡ false) ⊎ IsSv2Accepted config

  sv2-accepted :
      (config : Config F) (enabled : Bool)
      → config.sv2_enabled ≡ enabled
      → (if enabled then validate_sv2 config else ok tt) ≡ ok tt
      → (config.sv2_enabled ≡ false) ⊎ IsSv2Accepted config
  sv2-accepted config false h e = inl h
  sv2-accepted config true h e = inr (validate_sv2-IsSv2Accepted config e)

  pub validate-IsAccepted : (config : Config F) → validate c f config ≡ ok tt → IsAccepted config
  unfolding validate
  validate-IsAccepted config e =
      let (_, sizes, e1) = >>=-eq-ok (validate_sizes config) _ e in
      let (_, difficulties, e2) = >>=-eq-ok (validate_difficulties f config) _ e1 in
      let (_, ports, e3) = >>=-eq-ok (validate_ports config) _ e2 in
      let (_, payout, e4) = >>=-eq-ok (validate_payout c config) _ e3 in
      let (_, texts, e5) = >>=-eq-ok (validate_texts config) _ e4 in
      record {
        extranonces = validate_sizes-bounds config sizes;
        difficulties = validate_difficulties-bounds f config difficulties;
        ports = validate_ports-bounds config ports;
        payout = validate_payout-IsPayout config config.payout_script_hex refl payout;
        texts = validate_texts-bounds config texts;
        sv2 = sv2-accepted config config.sv2_enabled refl e5;
      }
