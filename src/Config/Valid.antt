-- ===== src/Config/Valid.antt =====
-- `Config::validate` and `bind_overlaps` of src/config.rs.
use stratum_bee.Base.{
  ltb, leb, ◌==◌, if◌then◌else◌, length, is_empty, Text, codes, text_eq, Result, ok, ensure, ◌>>=◌,
  ◌>>◌, ℕ, zero, suc, ◌-◌, ◌*◌, Bool, true, false, not, ◌&&◌, ◌||◌, Option, none, some, [], ◌∷◌,
}
use stratum_bee.Crates.{Crates, context}
use stratum_bee.Float.{FloatOps}
use stratum_bee.Config.{Config}

-- How many bytes the white-space character takes that a text begins with, if it does: the
-- characters of Unicode's property `White_Space` in UTF-8.
unfoldable pub whitespace_size : Text → ℕ
whitespace_size [] = 0
whitespace_size (a ∷ []) = if (leb 9 a && leb a 13) || (a == 32) then 1 else 0
whitespace_size (a ∷ b ∷ []) =
    if (leb 9 a && leb a 13) || (a == 32)
    then 1
    else if (a == 0xc2) && ((b == 0x85) || (b == 0xa0))
    then 2
    else 0
whitespace_size (a ∷ b ∷ d ∷ text) =
    if (leb 9 a && leb a 13) || (a == 32)
    then 1
    else if (a == 0xc2) && ((b == 0x85) || (b == 0xa0))
    then 2
    else if (a == 0xe1) && ((b == 0x9a) && (d == 0x80))
    then 3
    else if (a == 0xe2)
        && (((b == 0x80)
              && ((leb 0x80 d && leb d 0x8a) || ((d == 0xa8) || ((d == 0xa9) || (d == 0xaf)))))
            || ((b == 0x81) && (d == 0x9f)))
    then 3
    else if (a == 0xe3) && ((b == 0x80) && (d == 0x80))
    then 3
    else 0

-- `text.trim().is_empty()`, with the bytes that are left of a character.
unfoldable pub is_blank : ℕ → Text → Bool
is_blank skipped [] = true
is_blank (suc skipped) (b ∷ text) = is_blank skipped text
is_blank zero (b ∷ text) =
    let size = whitespace_size (b ∷ text) in
    let rest = is_blank (size - 1) text in if size == 0 then false else rest

unfoldable pub bind_overlaps : Text → Text → Bool
bind_overlaps a b =
    text_eq a b
    || (text_eq a (codes "0.0.0.0")
        || (text_eq b (codes "0.0.0.0") || (text_eq a (codes "::") || text_eq b (codes "::"))))

-- `path.is_none()`
abbrev is_none : Option Text → Bool
is_none none = true
is_none (some path) = false

module _ {F : Type 0} where
  unfoldable pub validate_sizes : Config F → Result (Unit {0})
  validate_sizes config = do
    ensure (not ((config.extranonce1_size == 0) || ltb 4 config.extranonce1_size))
        "extranonce1_size must be between 1 and 4"
    ensure (not ((config.extranonce2_size == 0) || ltb 16 config.extranonce2_size))
        "extranonce2_size must be between 1 and 16"
    ok tt

  unfoldable pub validate_difficulties : FloatOps F → Config F → Result (Unit {0})
  validate_difficulties f config = do
    ensure
        (not (not (f.is_finite config.min_difficulty) || f.le config.min_difficulty (f.of_nat 0)))
        "stratum.min_difficulty must be finite and > 0"
    ensure
        (not (
          not (f.is_finite config.max_difficulty)
          || f.lt config.max_difficulty config.min_difficulty))
        "stratum.max_difficulty must be finite and >= min_difficulty"
    ensure
        (not (
          not (f.is_finite config.start_difficulty)
          || (f.lt config.start_difficulty config.min_difficulty
              || f.lt config.max_difficulty config.start_difficulty)))
        "stratum.start_difficulty must be finite and within min/max difficulty"
    ok tt

  unfoldable pub validate_ports : Config F → Result (Unit {0})
  validate_ports config = do
    ensure (not (config.stratum_port == 0)) "stratum.port must be > 0"
    ensure (not (config.api_enabled && (config.api_port == 0)))
        "api.port must be > 0 when api.enabled = true"
    ok tt

  unfoldable pub validate_payout : Crates → Config F → Result (Unit {0})
  validate_payout c config = elim config.payout_script_hex [
    | some script_hex ↦ do
      script ← context (c.hex_decode script_hex) "decode mining.payout_script_hex"
      ensure (not (is_empty script)) "mining.payout_script_hex must not decode to an empty script"
      ok tt
    | none ↦ do
      ensure (not (is_blank 0 config.payout_address))
          "mining.payout_address is required when payout_script_hex is empty"
      script ← c.address_script config.payout_address config.network
      ok tt
  ]

  unfoldable pub validate_texts : Config F → Result (Unit {0})
  validate_texts config = do
    ensure (not (ltb 32 (length config.pool_tag)))
        "mining.pool_tag is too long; keep it under 32 bytes"
    ensure (not (ltb 32 (length config.coinbase_message)))
        "mining.coinbase_message is too long; keep it under 32 bytes"
    ensure (not (is_blank 0 config.rpc_url)) "bitcoin.rpc_url is required"
    ensure (not (is_blank 0 config.rpc_user)) "bitcoin.rpc_user is required"
    ensure (not (is_blank 0 config.rpc_pass)) "bitcoin.rpc_pass is required"
    ok tt

  unfoldable pub validate_sv2 : Config F → Result (Unit {0})
  validate_sv2 config = do
    ensure (not (config.sv2_port == 0)) "sv2.port must be > 0 when sv2.enabled = true"
    ensure
        (not (
          (config.sv2_port == config.stratum_port)
          && bind_overlaps config.sv2_bind config.stratum_bind))
        "sv2.port conflicts with stratum.port on overlapping bind addresses"
    ensure
        (not (
          config.api_enabled
          && ((config.sv2_port == config.api_port)
              && bind_overlaps config.sv2_bind config.api_bind)))
        "sv2.port conflicts with api.port on overlapping bind addresses"
    ensure (not (ltb (16 * 1024 * 1024) config.sv2_frame_max_bytes))
        "sv2.frame_max_bytes must be <= 16 MiB"
    ensure (not (ltb 60 config.sv2_handshake_timeout_secs))
        "sv2.handshake_timeout_secs must be <= 60"
    ensure (not (ltb 31536000 config.sv2_cert_validity_secs))
        "sv2.cert_validity_secs must be <= 31536000"
    ensure (not (is_none config.sv2_authority_public_key_path))
        "sv2.authority_public_key_path is required when sv2.enabled = true"
    ensure (not (is_none config.sv2_authority_secret_key_path))
        "sv2.authority_secret_key_path is required when sv2.enabled = true"
    ok tt

  unfoldable pub validate : Crates → FloatOps F → Config F → Result (Unit {0})
  validate c f config =
      validate_sizes config
      >> (validate_difficulties f config
          >> (validate_ports config
              >> (validate_payout c config
                  >> (validate_texts config
                      >> (if config.sv2_enabled then validate_sv2 config else ok tt)))))
