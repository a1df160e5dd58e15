-- ===== src/Template/Engine/Job.antt =====
-- `build_job` and `build_empty_job` of src/template.rs. The present time is an argument, in
-- milliseconds.
pub mod Built
pub mod Shares
use mathlib.Core.Option
use stratum_bee.Base.{
  ltb, leb, ◌==◌, if◌then◌else◌, length, take, drop, replicate, Bytes, zeros, Text, text_eq, Result,
  ok, ok_or, ensure, ◌>>=◌, ◌>>◌, ℤ, ℕ, zero, suc, ◌+◌, ◌-◌, ◌*◌, ◌/◌, ◌%◌, ◌^◌, min, max, true,
  false, Option, none, some, List, [], ◌∷◌, ◌++◌, map, reverse,
}
use stratum_bee.Config.{Config}
use stratum_bee.Crates.{Crates, context}
use stratum_bee.Float.{FloatOps}
use stratum_bee.Hash.{double_sha256}
use stratum_bee.Job.{TemplateSource, JobTemplate}
use stratum_bee.Merkle.{GbtTx, build_merkle_branches, compute_witness_commitment_script_hex}
use stratum_bee.Encoding.HexText.{from_str_radix_16, format_08x}
use stratum_bee.Encoding.Decimal.{to_decimal}
use stratum_bee.Template.Script.{block_subsidy_sat}
use stratum_bee.Template.Coinbase.{build_coinbase_parts}
use stratum_bee.Template.Engine.{GbtResponse, ChainTipState}

-- `gbt.coinbaseaux.as_ref().and_then(|x| x.flags.as_deref())`
unfoldable pub coinbase_flags_of : GbtResponse → Option Text
coinbase_flags_of gbt = elim gbt.coinbaseaux [ none ↦ none | some aux ↦ aux.flags ]

-- The last `count` words of four bytes, from the last one down.
unfoldable pub swap_loop : ℕ → Bytes → Bytes
swap_loop zero bytes = []
swap_loop (suc count) bytes = take 4 (drop (4 * count) bytes) ++ swap_loop count bytes

-- The target of a template, cut to its last 32 bytes or padded, in little-endian order.
unfoldable pub pad_target : Bytes → Bytes
pad_target target_be =
    let cut =
      if ltb 32 (length target_be) then drop (length target_be - 32) target_be else target_be in
    reverse (zeros (32 - length cut) ++ cut)

-- `exponent - 3` as an `i32`.
unfoldable pub exponent_minus_3 : ℕ → ℤ
exponent_minus_3 exponent = if leb 3 exponent then ℤ.pos (exponent - 3) else ℤ.negsuc (2 - exponent)

module _ (c : Crates) where
  unfoldable pub swap_words : Bytes → Result Text
  swap_words bytes = do
    ensure (length bytes == 32) "prevhash must be 32 bytes"
    ok (c.hex_encode (swap_loop 8 bytes))

  unfoldable pub to_little_endian : Bytes → Result Text
  to_little_endian bytes = do
    ensure (length bytes == 32) "prevhash must be 32 bytes"
    ok (c.hex_encode (reverse bytes))

  -- `computed_witness_commitment`: the node's value is used, ours being only compared with it.
  unfoldable pub witness_commitment_of : GbtResponse → Result (Option Text)
  witness_commitment_of gbt = elim gbt.default_witness_commitment [
    | none ↦ ok none
    | some core_commitment ↦ do
      ours ← compute_witness_commitment_script_hex c gbt.transactions
      ok (some (if text_eq ours core_commitment then ours else core_commitment))
  ]

  -- The hashes of the transactions, in the order of the template.
  unfoldable pub tx_hashes_of : List GbtTx → Result (List Bytes)
  tx_hashes_of [] = ok []
  tx_hashes_of (tx ∷ txs) = do
    txid ← ok_or tx.txid "getblocktemplate transaction missing txid"
    hash ← c.hex_decode txid
    ensure (length hash == 32) "invalid txid length"
    hashes ← tx_hashes_of txs
    ok (reverse hash ∷ hashes)

  -- The hash of the previous block as words, as text and as bytes.
  unfoldable pub prevhash_forms : Bytes → Result (Text × Text × Bytes)
  prevhash_forms prevhash_bytes = do
    prevhash ← swap_words prevhash_bytes
    prevhash_le ← to_little_endian prevhash_bytes
    ok (prevhash, prevhash_le, reverse prevhash_bytes)

module _ {F : Type 0} (c : Crates) (f : FloatOps F) (config : Config F) where
  unfoldable pub network_difficulty_of : ℕ → F
  network_difficulty_of nbits_u32 =
      let mantissa = f.of_nat (nbits_u32 % 2 ^ 23) in
      let exponent = nbits_u32 / 2 ^ 24 % 256 in
      let target_value = f.mul mantissa (f.powi (f.of_nat 256) (exponent_minus_3 exponent)) in
      let diff1 = f.mul (f.of_nat 65535) (f.powi (f.of_nat 2) (ℤ.pos 208)) in
      if f.lt (f.of_nat 0) target_value then f.div diff1 target_value else f.of_nat 0

  -- A job for the template, numbered by the counter.
  unfoldable pub build_job :
      ℕ → ℕ → GbtResponse → Text → TemplateSource → Text → Result (JobTemplate F)
  build_job job_counter now gbt template_key template_source txid_partial_root = do
    commitment ← witness_commitment_of c gbt
    parts ←
        build_coinbase_parts c config gbt.coinbasevalue gbt.height (coinbase_flags_of gbt)
          commitment
    tx_hashes ← tx_hashes_of c gbt.transactions
    let merkle_branches_le = build_merkle_branches c (double_sha256 c parts.coinbase_tx) tx_hashes
    prevhash_bytes ← c.hex_decode gbt.previousblockhash
    prevhash ← prevhash_forms c prevhash_bytes
    target_be ← context (c.hex_decode gbt.target) "decode target"
    coinbase1_bytes ← context (c.hex_decode parts.coinbase1) "decode coinbase1"
    coinbase2_bytes ← context (c.hex_decode parts.coinbase2) "decode coinbase2"
    nbits_u32 ← ok_or (from_str_radix_16 gbt.bits) "parse nbits"
    ok (record {
      ready = true;
      job_id = to_decimal job_counter;
      submit_old = Option.get_or gbt.submitold true;
      prevhash = prevhash.0;
      prevhash_le = prevhash.1;
      coinbase1 = parts.coinbase1;
      coinbase2 = parts.coinbase2;
      merkle_branches = map c.hex_encode merkle_branches_le;
      version = format_08x gbt.version;
      nbits = gbt.bits;
      ntime = format_08x (gbt.curtime % 2 ^ 32);
      height = gbt.height;
      transactions = map (λ (tx : GbtTx). tx.tx_data) gbt.transactions;
      has_witness_commitment = parts.has_witness_commitment;
      coinbase_value = gbt.coinbasevalue;
      created_at = now;
      prevhash_le_bytes = prevhash.2;
      target_le = pad_target target_be;
      coinbase1_bytes = coinbase1_bytes;
      coinbase2_bytes = coinbase2_bytes;
      merkle_branches_le = merkle_branches_le;
      version_u32 = gbt.version;
      nbits_u32 = nbits_u32;
      vbrequired = gbt.vbrequired;
      mintime_u32 = Option.get_or gbt.mintime gbt.curtime % 2 ^ 32;
      network_difficulty = network_difficulty_of nbits_u32;
      template_key = template_key;
      template_source = template_source;
      txid_partial_root = txid_partial_root;
      witness_commitment_script = commitment;
    })

  -- A job on an announced block, of the coinbase alone.
  unfoldable pub build_empty_job :
      ℕ → ℕ → ChainTipState F → Text → ℕ → ℕ → Text → Result (JobTemplate F)
  build_empty_job job_counter now tip block_hash_hex next_height estimated_mtp template_key = do
    let subsidy = block_subsidy_sat next_height
    parts ← build_coinbase_parts c config subsidy next_height none none
    block_hash_bytes ← context (c.hex_decode block_hash_hex) "decode fast block announcement hash"
    prevhash ← prevhash_forms c block_hash_bytes
    coinbase1_bytes ← context (c.hex_decode parts.coinbase1) "decode coinbase1"
    coinbase2_bytes ← context (c.hex_decode parts.coinbase2) "decode coinbase2"
    let mintime_u32 = min (estimated_mtp + 1) (2 ^ 32 - 1)
    ok (record {
      ready = true;
      job_id = to_decimal job_counter;
      submit_old = false;
      prevhash = prevhash.0;
      prevhash_le = prevhash.1;
      coinbase1 = parts.coinbase1;
      coinbase2 = parts.coinbase2;
      merkle_branches = [];
      version = format_08x tip.version_u32;
      nbits = tip.nbits;
      ntime = format_08x (max (now / 1000 % 2 ^ 32) mintime_u32);
      height = next_height;
      transactions = [];
      has_witness_commitment = parts.has_witness_commitment;
      coinbase_value = subsidy;
      created_at = now;
      prevhash_le_bytes = prevhash.2;
      target_le = tip.target_le;
      coinbase1_bytes = coinbase1_bytes;
      coinbase2_bytes = coinbase2_bytes;
      merkle_branches_le = [];
      version_u32 = tip.version_u32;
      nbits_u32 = tip.nbits_u32;
      vbrequired = tip.vbrequired;
      mintime_u32 = mintime_u32;
      network_difficulty = tip.network_difficulty;
      template_key = template_key;
      template_source = TemplateSource.p2p_cmpct_fast;
      txid_partial_root = replicate 64 b'0';
      witness_commitment_script = none;
    })
