-- ===== src/Share/Validate.antt =====
-- Theorems on `validate_share` of src/share.rs.
use mathlib.Core.Option
use stratum_bee.Base.{
  Bytes, ok, >>=-eq-ok, ok-injective, ℕ, ◌+◌, ◌≤◌, ◌≡◌, refl, sym, ap, ◌⊎◌, true, Option, List, ◌∷◌,
  ◌++◌, reverse, arith,
}
use stratum_bee.Crates.{Crates, context, context-eq-ok}
use stratum_bee.Float.{FloatOps}
use stratum_bee.Hash.{double_sha256}
use stratum_bee.Job.{JobTemplate}
use stratum_bee.Encoding.HexText.{trim_0x}
use stratum_bee.Merkle.{build_merkle_branches, fold_branches}
use stratum_bee.Merkle.Root.{MerkleRoot, build_merkle_branches-MerkleRoot}
use stratum_bee.Share.{
  ShareSubmit, ShareResult, leq_le256, build_header, parse_u32_be, reject, submitted_version,
  block_texts, score_share, validate_share,
}

module _ {F : Type 0} (c : Crates) (f : FloatOps F) where
  -- A share that validation accepts, or calls a block, has a time that was read from the submission
  -- and lies between the template's minimum and two hours from now.
  pub validate_share-times :
      (now : ℕ) (job : JobTemplate F) (prefix : Bytes) (submit : ShareSubmit) (target : Bytes)
      (override : Option Bytes) (r : ShareResult F)
      → validate_share c f now job prefix submit target override ≡ ok r
      → (r.accepted ≡ true) ⊎ (r.is_block ≡ true)
      → (ntime : ℕ) × (parse_u32_be submit.ntime ≡ ok ntime)
        × (job.mintime_u32 ≤ ntime)
        × (ntime ≤ now + 7200)
  unfolding validate_share reject
  validate_share-times now job prefix submit target override r e good =
      let (ntime, parsed, rest) = >>=-eq-ok (parse_u32_be submit.ntime) _ e in
      (ntime, parsed, ground arith, ground arith)

  -- What a share hashes to: the header over the Merkle root of the whole block.
  pub record Scored (job : JobTemplate F) (coinbase : Bytes) (tx_hashes : List Bytes)
      (version ntime nonce : ℕ) (target : Bytes) (r : ShareResult F) : Type 0 where
    pub root : Bytes
    pub is_root : MerkleRoot c (double_sha256 c coinbase ∷ tx_hashes) root
    pub header_hash : Bytes
    pub hashed :
        header_hash
        ≡ double_sha256 c
            (build_header version job.prevhash_le_bytes root ntime job.nbits_u32 nonce)
    pub named : r.hash_hex ≡ c.hex_encode (reverse header_hash)
    pub accepted_iff : r.accepted ≡ leq_le256 header_hash target
    pub block_iff : r.is_block ≡ leq_le256 header_hash job.target_le

  score_share-Scored :
      (old : Bytes) (tx_hashes : List Bytes) (job : JobTemplate F) (prefix : Bytes)
      (submit : ShareSubmit) (target : Bytes) (override : Option Bytes) (ntime nonce : ℕ)
      (en2 : Bytes) (r : ShareResult F)
      → job.merkle_branches_le ≡ build_merkle_branches c old tx_hashes
      → c.hex_decode (trim_0x submit.extranonce2) ≡ ok en2
      → parse_u32_be submit.nonce ≡ ok nonce
      → score_share c f job prefix submit target override ntime ≡ ok r
      → Scored job
          (prefix ++ (en2 ++ Option.get_or override job.coinbase2_bytes))
          tx_hashes
          (submitted_version c f submit.version job.version_u32)
          ntime
          nonce
          target
          r
  unfolding score_share
  score_share-Scored old tx_hashes job prefix submit target override ntime nonce en2 r hb he hn e =
      let coinbase = prefix ++ (en2 ++ Option.get_or override job.coinbase2_bytes) in
      let root = fold_branches c (double_sha256 c coinbase) job.merkle_branches_le in
      let version = submitted_version c f submit.version job.version_u32 in
      let header = build_header version job.prevhash_le_bytes root ntime job.nbits_u32 nonce in
      let hash_le = double_sha256 c header in
      let (block, _, made) =
        >>=-eq-ok (block_texts c f job (leq_le256 hash_le job.target_le) header coinbase) _
          (rw (he, hn) at e) in
      record {
        root = root;
        is_root =
            rw hb (build_merkle_branches-MerkleRoot c old (double_sha256 c coinbase) tx_hashes);
        header_hash = hash_le;
        hashed = refl;
        named = sym (ap (λ s. s.hash_hex) (ok-injective made));
        accepted_iff = sym (ap (λ s. s.accepted) (ok-injective made));
        block_iff = sym (ap (λ s. s.is_block) (ok-injective made));
      }

  -- The parts of a submitted share as the code reads them.
  pub record Parsed (submit : ShareSubmit) (ntime nonce : ℕ) (en2 : Bytes) : Type 0 where
    pub ntime_read : parse_u32_be submit.ntime ≡ ok ntime
    pub nonce_read : parse_u32_be submit.nonce ≡ ok nonce
    pub en2_read : c.hex_decode (trim_0x submit.extranonce2) ≡ ok en2

  score_share-Parsed :
      (job : JobTemplate F) (prefix : Bytes) (submit : ShareSubmit) (target : Bytes)
      (override : Option Bytes) (ntime : ℕ) (r : ShareResult F)
      → parse_u32_be submit.ntime ≡ ok ntime
      → score_share c f job prefix submit target override ntime ≡ ok r
      → (nonce : ℕ) × (en2 : Bytes) × Parsed submit ntime nonce en2
  unfolding score_share
  score_share-Parsed job prefix submit target override ntime r ht e =
      let (en2, decoded, e') =
        >>=-eq-ok (context (c.hex_decode (trim_0x submit.extranonce2)) "decode extranonce2") _ e in
      let (nonce, read, _) = >>=-eq-ok (parse_u32_be submit.nonce) _ e' in
      (
        nonce,
        en2,
        record {
          ntime_read = ht;
          nonce_read = read;
          en2_read = context-eq-ok _ "decode extranonce2" decoded;
        },
      )

  -- Where the template's branches were built from its transaction hashes, a share that is accepted
  -- or a block, with time, nonce and extranonce read from the submission, is scored by the double
  -- hash of the header over the Merkle root of the assembled coinbase and those transactions: it is
  -- accepted exactly if the hash meets the share target and a block exactly if it meets the
  -- template's target.
  pub validate_share-Scored :
      (old : Bytes) (tx_hashes : List Bytes) (now : ℕ) (job : JobTemplate F) (prefix : Bytes)
      (submit : ShareSubmit) (target : Bytes) (override : Option Bytes) (r : ShareResult F)
      → job.merkle_branches_le ≡ build_merkle_branches c old tx_hashes
      → validate_share c f now job prefix submit target override ≡ ok r
      → (r.accepted ≡ true) ⊎ (r.is_block ≡ true)
      → (ntime : ℕ) × (nonce : ℕ) × (en2 : Bytes) × Parsed submit ntime nonce en2
        × Scored job
            (prefix ++ (en2 ++ Option.get_or override job.coinbase2_bytes))
            tx_hashes
            (submitted_version c f submit.version job.version_u32)
            ntime
            nonce
            target
            r
  unfolding validate_share reject
  validate_share-Scored old tx_hashes now job prefix submit target override r hb e good =
      let (ntime, ht, e') = >>=-eq-ok (parse_u32_be submit.ntime) _ e in
      let scored : score_share c f job prefix submit target override ntime ≡ ok r = ground arith in
      let (nonce, en2, p) =
        score_share-Parsed job prefix submit target override ntime r ht scored in
      (
        ntime,
        nonce,
        en2,
        p,
        score_share-Scored old tx_hashes job prefix submit target override ntime nonce en2 r hb
            p.en2_read p.nonce_read scored,
      )
