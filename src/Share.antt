-- ===== src/Share.antt =====
-- src/share.rs: the share target, the check of a share and the block that it makes. The system
-- time is an argument, in seconds.
pub mod Compare
pub mod Target
pub mod Header
pub mod Block
pub mod Validate
use mathlib.Core.Option
use stratum_bee.Base.{
  ltb, ◌==◌, if◌then◌else◌, length, get_or, take, drop, replicate, Bytes, to_le_bytes, Text, Result,
  ok, ◌>>=◌, bail, ok_or, ℕ, zero, suc, ◌+◌, ◌-◌, ◌*◌, ◌/◌, ◌%◌, ◌^◌, min, max, Bool, true, false,
  not, ◌&&◌, ◌||◌, Option, none, some, List, [], ◌∷◌, ◌++◌, reverse,
}
use stratum_bee.Crates.{Crates, context}
use stratum_bee.Float.{FloatOps}
use stratum_bee.Hash.{double_sha256}
use stratum_bee.Job.{JobTemplate}
use stratum_bee.Merkle.{fold_branches}
use stratum_bee.Encoding.Varint.{encode_varint}
use stratum_bee.Encoding.HexText.{trim_0x, parse_u32_be_hex}

-- `DIFF1_TARGET_HEX`, read in base 16.
abbrev pub diff1_target : ℕ
diff1_target = 0xffff * 2 ^ 208

abbrev pub scale : ℕ
scale = 1_000_000_000_000

pub record ShareSubmit : Type 0 where
  pub extranonce2 : Text
  pub ntime : Text
  pub nonce : Text
  pub version : Option Text

pub record ShareResult (F : Type 0) : Type 0 where
  pub accepted : Bool
  pub is_block : Bool
  pub hash_hex : Text
  pub block_hex : Option Text
  pub coinbase_hex : Option Text
  pub difficulty : F

-- `for idx in (0..32).rev()`: the rounds that are left are the indices below.
unfoldable pub leq_loop : ℕ → Bytes → Bytes → Bool
leq_loop zero a b = true
leq_loop (suc idx) a b =
    let rest = leq_loop idx a b in
    if ltb (get_or a idx 0) (get_or b idx 0)
    then true
    else if ltb (get_or b idx 0) (get_or a idx 0)
    then false
    else rest

unfoldable pub leq_le256 : Bytes → Bytes → Bool
leq_le256 a b = leq_loop 32 a b

unfoldable pub build_header : ℕ → Bytes → Bytes → ℕ → ℕ → ℕ → Bytes
build_header version prevhash_le merkle_root ntime nbits nonce =
    to_le_bytes 4 version
    ++ (prevhash_le
        ++ (merkle_root ++ (to_le_bytes 4 ntime ++ (to_le_bytes 4 nbits ++ to_le_bytes 4 nonce))))

-- `parse_u32_be`
abbrev pub parse_u32_be : Text → Result ℕ
parse_u32_be s = ok_or (parse_u32_be_hex s) "invalid u32 hex"

unfoldable pub build_coinbase_with_witness : Bytes → Result Bytes
build_coinbase_with_witness legacy =
    if ltb (length legacy) 8
    then bail "coinbase tx too short"
    else (let version = take 4 legacy in
        let rest = drop 4 legacy in
        let core = take (length rest - 4) rest in
        let locktime = drop (length rest - 4) rest in
        ok (
          version
          ++ ((0x00 ∷ 0x01 ∷ [])
              ++ (core ++ ((0x01 ∷ 0x20 ∷ []) ++ (replicate 32 0 ++ locktime))))))

module _ (c : Crates) where
  -- The decoded transactions, one behind the other.
  unfoldable pub decode_transactions : List Text → Result Bytes
  decode_transactions [] = ok []
  decode_transactions (tx_hex ∷ txs_hex) = do
    tx ← context (c.hex_decode tx_hex) "decode transaction"
    txs ← decode_transactions txs_hex
    ok (tx ++ txs)

  unfoldable pub build_block_hex : Bytes → Bytes → List Text → Bool → Result Text
  build_block_hex header coinbase_legacy txs_hex use_witness = do
    let head = encode_varint (length txs_hex + 1) header
    coinbase ←
        (if use_witness then build_coinbase_with_witness coinbase_legacy else ok coinbase_legacy)
    txs ← decode_transactions txs_hex
    ok (c.hex_encode ((head ++ coinbase) ++ txs))

module _ {F : Type 0} (c : Crates) (f : FloatOps F) where
  unfoldable pub share_target_le : F → Result Bytes
  share_target_le diff =
      if not (f.is_finite diff) || f.le diff (f.of_nat 0)
      then bail "diff must be finite and > 0"
      else (let diff_scaled = max (f.round_u128 (f.mul diff (f.of_nat scale))) 1 in
          let target = diff1_target * scale / diff_scaled in
          let be = c.to_bytes_be target in
          if ltb 32 (length be)
          then ok (replicate 32 0xff)
          else ok (reverse (replicate (32 - length be) 0 ++ be)))

  -- The whole part and the fraction of the quotient, where a float can hold them.
  unfoldable pub whole_part : Option F → F
  whole_part none = f.max_value
  whole_part (some q) = q

  unfoldable pub fraction : Option F → Option F → F
  fraction none h = f.of_nat 0
  fraction (some r) none = f.of_nat 0
  fraction (some r) (some h) = if f.lt (f.of_nat 0) h then f.div r h else f.of_nat 0

  unfoldable pub hash_to_display_diff : Bytes → F
  hash_to_display_diff hash_le =
      let hash_val = c.from_bytes_be (reverse hash_le) in
      if hash_val == 0
      then f.infinity
      else f.add (whole_part (f.of_biguint (diff1_target / hash_val)))
          (fraction (f.of_biguint (diff1_target % hash_val)) (f.of_biguint hash_val))

  unfoldable pub reject : ShareResult F
  reject = record {
    accepted = false;
    is_block = false;
    hash_hex = replicate 64 b'0';
    block_hex = none;
    coinbase_hex = none;
    difficulty = f.of_nat 0;
  }

  -- `version.as_deref().and_then(|value| parse_u32_be(value).ok()).unwrap_or(default)`
  unfoldable pub submitted_version : Option Text → ℕ → ℕ
  submitted_version none default = default
  submitted_version (some value) default = Option.get_or (parse_u32_be_hex value) default

  -- `(block_hex, coinbase_hex)`
  unfoldable pub block_texts :
      JobTemplate F → Bool → Bytes → Bytes → Result (Option Text × Option Text)
  block_texts job false header coinbase = ok (none, none)
  block_texts job true header coinbase = do
    block_hex ← build_block_hex c header coinbase job.transactions job.has_witness_commitment
    ok (some block_hex, some (c.hex_encode coinbase))

  -- The share behind the checks of its time: the header, its hash and what they are worth.
  unfoldable pub score_share :
      JobTemplate F → Bytes → ShareSubmit → Bytes → Option Bytes → ℕ → Result (ShareResult F)
  score_share job coinbase_prefix submit share_target coinbase2_override ntime_u32 = do
    en2 ← context (c.hex_decode (trim_0x submit.extranonce2)) "decode extranonce2"
    let coinbase2 = Option.get_or coinbase2_override job.coinbase2_bytes
    let coinbase = coinbase_prefix ++ (en2 ++ coinbase2)
    let merkle_root = fold_branches c (double_sha256 c coinbase) job.merkle_branches_le
    let version_u32 = submitted_version submit.version job.version_u32
    nonce_u32 ← parse_u32_be submit.nonce
    let header =
        build_header version_u32 job.prevhash_le_bytes merkle_root ntime_u32 job.nbits_u32 nonce_u32
    let hash_le = double_sha256 c header
    let accepted = leq_le256 hash_le share_target
    let is_block = leq_le256 hash_le job.target_le
    let hash_hex = c.hex_encode (reverse hash_le)
    let difficulty = hash_to_display_diff hash_le
    block ← block_texts job is_block header coinbase
    ok (record {
      accepted = accepted;
      is_block = is_block;
      hash_hex = hash_hex;
      block_hex = block.0;
      coinbase_hex = block.1;
      difficulty = difficulty;
    })

  -- `saturating_add` at 64 bits.
  unfoldable pub validate_share :
      ℕ → JobTemplate F → Bytes → ShareSubmit → Bytes → Option Bytes → Result (ShareResult F)
  validate_share now_secs job coinbase_prefix submit share_target coinbase2_override = do
    ntime_u32 ← parse_u32_be submit.ntime
    if not (job.mintime_u32 == 0) && ltb ntime_u32 job.mintime_u32
        then ok reject
        else if ltb (min (now_secs + 7200) (2 ^ 64 - 1)) ntime_u32
        then ok reject
        else score_share job coinbase_prefix submit share_target coinbase2_override ntime_u32
