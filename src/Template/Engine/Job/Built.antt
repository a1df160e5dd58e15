-- ===== src/Template/Engine/Job/Built.antt =====
-- Theorems on the jobs that `build_job` and `build_empty_job` of src/template.rs return.
use stratum_bee.Base.{
  ◌==◌, length, Bytes, Text, ok, ok_or, ensure, >>=-eq-ok, ok-injective, ensure-eq-ok, ℕ, ◌^◌, ◌<◌,
  ◌≡◌, refl, sym, ap, ◌∙◌, subst, true, Option, none, some, List, [], reverse, arith,
}
use stratum_bee.Config.{Config}
use stratum_bee.Crates.{Crates, context, context-eq-ok}
use stratum_bee.Float.{FloatOps}
use stratum_bee.Job.{TemplateSource, JobTemplate}
use stratum_bee.Merkle.{build_merkle_branches}
use stratum_bee.Encoding.HexText.{from_str_radix_16}
use stratum_bee.Template.Script.{encode_coinbase_height, block_subsidy_sat}
use stratum_bee.Template.Coinbase.{
  CoinbaseParts, payout_script, coinbase_script_sig, build_coinbase_parts,
}
use stratum_bee.Template.Engine.{GbtResponse, ChainTipState}
use stratum_bee.Template.Engine.Job.{
  coinbase_flags_of, swap_words, to_little_endian, witness_commitment_of, tx_hashes_of,
  prevhash_forms, build_job, build_empty_job,
}

encode_coinbase_height-eq-ok :
    (height : ℕ) (script : Bytes) → encode_coinbase_height height ≡ ok script → height < 2 ^ 63
unfolding encode_coinbase_height
encode_coinbase_height-eq-ok height script e = ground arith

module _ {F : Type 0} (c : Crates) (config : Config F) where
  coinbase_script_sig-height :
      (height : ℕ) (flags : Option Text) (script : Bytes)
      → coinbase_script_sig c config height flags ≡ ok script
      → height < 2 ^ 63
  unfolding coinbase_script_sig
  coinbase_script_sig-height height none script e =
      let (sig, eh, _) = >>=-eq-ok _ _ e in encode_coinbase_height-eq-ok height sig eh
  coinbase_script_sig-height height (some flags) script e =
      let (sig, eh, _) = >>=-eq-ok _ _ e in encode_coinbase_height-eq-ok height sig eh

  build_coinbase_parts-height :
      (value height : ℕ) (flags commitment : Option Text) (parts : CoinbaseParts)
      → build_coinbase_parts c config value height flags commitment ≡ ok parts
      → height < 2 ^ 63
  unfolding build_coinbase_parts
  build_coinbase_parts-height value height flags commitment parts e =
      let (script_pubkey, _, e1) = >>=-eq-ok (payout_script c config) _ e in
      let (script_sig, es, _) = >>=-eq-ok (coinbase_script_sig c config height flags) _ e1 in
      coinbase_script_sig-height height flags script_sig es

module _ (c : Crates) where
  -- The forms of the previous block's hash, which is displayed with its last byte first.
  pub record IsPrevhash {F : Type 0} (hash_hex : Text) (job : JobTemplate F) : Type 0 where
    pub hash : Bytes
    pub decoded : c.hex_decode hash_hex ≡ ok hash
    pub hash_length : length hash ≡ 32
    pub prevhash_le_bytes_eq : job.prevhash_le_bytes ≡ reverse hash
    pub prevhash_le_eq : job.prevhash_le ≡ c.hex_encode (reverse hash)

  prevhash_forms-eq-ok :
      (hash : Bytes) (prevhash prevhash_le : Text) (bytes : Bytes)
      → prevhash_forms c hash ≡ ok (prevhash, prevhash_le, bytes)
      → (length hash ≡ 32) × (prevhash_le ≡ c.hex_encode (reverse hash)) × (bytes ≡ reverse hash)
  unfolding prevhash_forms to_little_endian
  prevhash_forms-eq-ok hash prevhash prevhash_le bytes e =
      let (p, _, e1) = >>=-eq-ok (swap_words c hash) _ e in
      let (q, el, e2) = >>=-eq-ok (to_little_endian c hash) _ e1 in
      let (_, sized, e3) =
        >>=-eq-ok (ensure (length hash == 32) "prevhash must be 32 bytes") _ el in
      let both = ok-injective e2 in
      (
        ground (arith, ensure-eq-ok (length hash == 32) "prevhash must be 32 bytes" sized),
        sym (ap (λ (t : Text × Text × Bytes). t.1) both) ∙ sym (ok-injective e3),
        sym (ap (λ (t : Text × Text × Bytes). t.2) both),
      )

module _ {F : Type 0} (c : Crates) (f : FloatOps F) (config : Config F) where
  -- What the job has from its template.
  pub record Built (gbt : GbtResponse) (job : JobTemplate F) : Type 0 where
    pub ready_eq : job.ready ≡ true
    pub height_eq : job.height ≡ gbt.height
    pub version_eq : job.version_u32 ≡ gbt.version
    pub height_bound : job.height < 2 ^ 63
    pub is_prevhash : IsPrevhash c gbt.previousblockhash job
    pub coinbase_hash : Bytes
    pub tx_hashes : List Bytes
    pub hashes : tx_hashes_of c gbt.transactions ≡ ok tx_hashes
    pub branches : job.merkle_branches_le ≡ build_merkle_branches c coinbase_hash tx_hashes

  pub build_job-Built :
      (job_counter now : ℕ) (gbt : GbtResponse) (key : Text) (source : TemplateSource) (root : Text)
      (job : JobTemplate F)
      → build_job c f config job_counter now gbt key source root ≡ ok job
      → Built gbt job
  unfolding build_job
  build_job-Built job_counter now gbt key source root job e =
      let (commitment, _, e1) = >>=-eq-ok (witness_commitment_of c gbt) _ e in
      let (parts, ep, e2) =
        >>=-eq-ok
          (build_coinbase_parts c config gbt.coinbasevalue gbt.height (coinbase_flags_of gbt)
            commitment)
          _ e1 in
      let (tx_hashes, et, e3) = >>=-eq-ok (tx_hashes_of c gbt.transactions) _ e2 in
      let (hash, eh, e4) = >>=-eq-ok (c.hex_decode gbt.previousblockhash) _ e3 in
      let (forms, ef, e5) = >>=-eq-ok (prevhash_forms c hash) _ e4 in
      let (target, _, e6) = >>=-eq-ok (context (c.hex_decode gbt.target) "decode target") _ e5 in
      let (half1, _, e7) =
        >>=-eq-ok (context (c.hex_decode parts.coinbase1) "decode coinbase1") _ e6 in
      let (half2, _, e8) =
        >>=-eq-ok (context (c.hex_decode parts.coinbase2) "decode coinbase2") _ e7 in
      let (nbits, _, e9) = >>=-eq-ok (ok_or (from_str_radix_16 gbt.bits) "parse nbits") _ e8 in
      let made = sym (ok-injective e9) in
      let (sized, le_eq, bytes_eq) = prevhash_forms-eq-ok c hash forms.0 forms.1 forms.2 ef in
      subst (Built gbt) (sym made) (record {
        ready_eq = refl;
        height_eq = refl;
        version_eq = refl;
        height_bound = build_coinbase_parts-height c config _ gbt.height _ commitment parts ep;
        is_prevhash = record {
          hash = hash;
          decoded = eh;
          hash_length = sized;
          prevhash_le_bytes_eq = bytes_eq;
          prevhash_le_eq = le_eq;
        };
        coinbase_hash = _;
        tx_hashes = tx_hashes;
        hashes = et;
        branches = refl;
      })

  pub build_empty_job-built :
      (job_counter now : ℕ) (tip : ChainTipState F) (hash_hex : Text) (next_height mtp : ℕ)
      (key : Text) (job : JobTemplate F)
      → build_empty_job c f config job_counter now tip hash_hex next_height mtp key ≡ ok job
      → (job.ready ≡ true)
        × (job.height ≡ next_height)
        × (next_height < 2 ^ 63)
        × IsPrevhash c hash_hex job
        × (job.merkle_branches_le ≡ [])
  unfolding build_empty_job
  build_empty_job-built job_counter now tip hash_hex next_height mtp key job e =
      let (parts, ep, e1) =
        >>=-eq-ok
          (build_coinbase_parts c config (block_subsidy_sat next_height) next_height none none) _
          e in
      let (hash, eh, e2) =
        >>=-eq-ok (context (c.hex_decode hash_hex) "decode fast block announcement hash") _ e1 in
      let (forms, ef, e3) = >>=-eq-ok (prevhash_forms c hash) _ e2 in
      let (half1, _, e4) =
        >>=-eq-ok (context (c.hex_decode parts.coinbase1) "decode coinbase1") _ e3 in
      let (half2, _, e5) =
        >>=-eq-ok (context (c.hex_decode parts.coinbase2) "decode coinbase2") _ e4 in
      let (sized, le_eq, bytes_eq) = prevhash_forms-eq-ok c hash forms.0 forms.1 forms.2 ef in
      subst
        (λ (j : JobTemplate F).
          (j.ready ≡ true)
          × (j.height ≡ next_height)
          × (next_height < 2 ^ 63)
          × IsPrevhash c hash_hex j
          × (j.merkle_branches_le ≡ []))
        (ok-injective e5)
        (
          refl,
          refl,
          build_coinbase_parts-height c config _ next_height _ none parts ep,
          record {
            hash = hash;
            decoded = context-eq-ok _ "decode fast block announcement hash" eh;
            hash_length = sized;
            prevhash_le_bytes_eq = bytes_eq;
            prevhash_le_eq = le_eq;
          },
          refl,
        )
