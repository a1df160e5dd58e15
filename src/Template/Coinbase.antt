-- ===== src/Template/Coinbase.antt =====
-- `build_coinbase_parts` of src/template.rs: the coinbase transaction around the extranonces.
pub mod Split
pub mod Total
use stratum_bee.Base.{
  leb, if◌then◌else◌, length, take, drop, is_empty, Bytes, zeros, to_le_bytes, Text, Result, ok,
  ◌>>=◌, ◌>>◌, ensure, ℕ, ◌+◌, ◌-◌, ◌^◌, min, Bool, true, false, Option, none, some, [], ◌∷◌, ◌++◌,
}
use stratum_bee.Crates.{Crates, context}
use stratum_bee.Config.{Config}
use stratum_bee.Encoding.Varint.{encode_varint, varint_len}
use stratum_bee.Template.Script.{encode_coinbase_height, encode_script_pushdata}

-- The two halves in hexadecimal, the transaction with zero extranonces, and whether it carries a
-- witness commitment.
pub record CoinbaseParts : Type 0 where
  pub coinbase1 : Text
  pub coinbase2 : Text
  pub coinbase_tx : Bytes
  pub has_witness_commitment : Bool

-- The tag and the message behind a slash.
unfoldable pub coinbase_tag : Text → Text → Bytes
coinbase_tag pool_tag coinbase_message =
    if is_empty coinbase_message then pool_tag else pool_tag ++ ((b'/' ∷ []) ++ coinbase_message)

unfoldable pub push_unless_empty : Bytes → Bytes → Result Bytes
push_unless_empty bytes script_sig =
    if is_empty bytes then ok script_sig else encode_script_pushdata bytes script_sig

-- The output of the witness commitment, of no value.
unfoldable pub commitment_output : Option Bytes → Bytes
commitment_output none = []
commitment_output (some commitment) =
    to_le_bytes 8 0 ++ (encode_varint (length commitment) [] ++ commitment)

abbrev pub is_some {ℓ} : {A : Type ℓ} → Option A → Bool
is_some none = false
is_some (some a) = true

-- What stands before the script: the version, one input, and its null outpoint.
unfoldable pub coinbase_head : Bytes
unfolding encode_varint
coinbase_head = to_le_bytes 4 2 ++ (encode_varint 1 [] ++ (zeros 32 ++ to_le_bytes 4 0xffff_ffff))

-- What stands behind the script: the sequence, the outputs and the lock time.
unfoldable pub coinbase_tail : ℕ → ℕ → Bytes → Option Bytes → Bytes
coinbase_tail coinbase_value height script_pubkey witness_commitment =
    to_le_bytes 4 0xffff_ffff
    ++ (encode_varint (if is_some witness_commitment then 2 else 1) []
        ++ (to_le_bytes 8 coinbase_value
            ++ (encode_varint (length script_pubkey) []
                ++ (script_pubkey
                    ++ (commitment_output witness_commitment
                        ++ to_le_bytes 4 (min (height - 1) (2 ^ 32 - 1)))))))

module _ {F : Type 0} (c : Crates) (config : Config F) where
  unfoldable pub payout_script : Result Bytes
  payout_script = elim config.payout_script_hex [
    | some script_hex ↦ context (c.hex_decode script_hex) "decode payout script"
    | none ↦ c.address_script config.payout_address config.network
  ]

  unfoldable pub coinbase_script_sig : ℕ → Option Text → Result Bytes
  coinbase_script_sig height none = do
    script_sig ← encode_coinbase_height height
    push_unless_empty (coinbase_tag config.pool_tag config.coinbase_message) script_sig
  coinbase_script_sig height (some flags_hex) = do
    script_sig ← encode_coinbase_height height
    flags ← context (c.hex_decode flags_hex) "decode coinbaseaux flags"
    script_sig' ← push_unless_empty flags script_sig
    push_unless_empty (coinbase_tag config.pool_tag config.coinbase_message) script_sig'

  unfoldable pub decode_commitment : Option Text → Result (Option Bytes)
  decode_commitment none = ok none
  decode_commitment (some value) = do
    commitment ← context (c.hex_decode value) "decode witness commitment"
    ok (some commitment)

  -- The transaction, cut by the positions that `cursor` counts.
  unfoldable pub assemble_coinbase : ℕ → ℕ → Bytes → Bytes → Option Bytes → CoinbaseParts
  assemble_coinbase coinbase_value height script_pubkey script_sig witness_commitment =
      let extranonce1 = zeros config.extranonce1_size in
      let extranonce2 = zeros config.extranonce2_size in
      let script_sig_full = script_sig ++ (extranonce1 ++ extranonce2) in
      let coinbase_tx =
        coinbase_head
        ++ (encode_varint (length script_sig_full) []
            ++ (script_sig_full
                ++ coinbase_tail coinbase_value height script_pubkey witness_commitment)) in
      let extra_start = length script_sig in
      let extra_end = extra_start + config.extranonce1_size + config.extranonce2_size in
      let script_start = 4 + varint_len 1 + (32 + 4) + varint_len (length script_sig_full) in
      record {
        coinbase1 = c.hex_encode (take (script_start + extra_start) coinbase_tx);
        coinbase2 = c.hex_encode (drop (script_start + extra_end) coinbase_tx);
        coinbase_tx = coinbase_tx;
        has_witness_commitment = is_some witness_commitment;
      }

  unfoldable pub build_coinbase_parts : ℕ → ℕ → Option Text → Option Text → Result CoinbaseParts
  build_coinbase_parts coinbase_value height coinbase_flags witness_commitment_hex = do
    script_pubkey ← payout_script
    script_sig ← coinbase_script_sig height coinbase_flags
    ensure (leb (length script_sig + config.extranonce1_size + config.extranonce2_size) 100)
        "coinbase scriptSig too long"
    witness_commitment ← decode_commitment witness_commitment_hex
    ok (assemble_coinbase coinbase_value height script_pubkey script_sig witness_commitment)
