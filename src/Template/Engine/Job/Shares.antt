-- ===== src/Template/Engine/Job/Shares.antt =====
-- Theorems on shares for the jobs of `build_job` in src/template.rs.
use mathlib.Core.Option
use stratum_bee.Base.{
  ◌==◌, length, Bytes, Text, ok, ok_or, ensure, >>=-eq-ok, ok-injective, ok_or-eq-ok, ensure-eq-ok,
  ℕ, ◌≡◌, refl, subst, ◌⊎◌, true, Option, none, some, List, [], ◌∷◌, ◌++◌, reverse, arith,
}
use stratum_bee.Config.{Config}
use stratum_bee.Crates.{Crates}
use stratum_bee.Float.{FloatOps}
use stratum_bee.Job.{TemplateSource, JobTemplate}
use stratum_bee.Share.{ShareSubmit, ShareResult, submitted_version, validate_share}
use stratum_bee.Share.Validate.{Scored, Parsed, validate_share-Scored}
use stratum_bee.Merkle.{GbtTx}
use stratum_bee.Encoding.HexText.{parse_u32_be_hex}
use stratum_bee.Template.Engine.{GbtResponse}
use stratum_bee.Template.Engine.Job.{tx_hashes_of, build_job}
use stratum_bee.Template.Engine.Job.Built.{build_job-Built}

-- The identifiers that the transactions of a template have, in their order: 32 bytes each, with the
-- last byte of the text first.
pub data IsTxids (c : Crates) : List GbtTx → List Bytes → Type 0 where
  none_left : IsTxids c [] []
  next :
      (tx : GbtTx) (txs : List GbtTx) (txid : Text) (bytes : Bytes) (hashes : List Bytes)
      → tx.txid ≡ some txid
      → c.hex_decode txid ≡ ok bytes
      → length bytes ≡ 32
      → IsTxids c txs hashes
      → IsTxids c (tx ∷ txs) (reverse bytes ∷ hashes)

-- The version of a share: the submitted one, where a version is submitted that can be read.
pub data IsVersion : Option Text → ℕ → ℕ → Type 0 where
  absent : (default : ℕ) → IsVersion none default default
  unreadable :
      (text : Text) (default : ℕ)
      → parse_u32_be_hex text ≡ none
      → IsVersion (some text) default default
  readable :
      (text : Text) (default version : ℕ)
      → parse_u32_be_hex text ≡ some version
      → IsVersion (some text) default version

read-IsVersion :
    (text : Text) (default : ℕ) (read : Option ℕ)
    → parse_u32_be_hex text ≡ read
    → IsVersion (some text) default (Option.get_or read default)
read-IsVersion text default none e = IsVersion.unreadable text default e
read-IsVersion text default (some version) e = IsVersion.readable text default version e

tx_hashes_of-IsTxids :
    (c : Crates) (txs : List GbtTx) (hashes : List Bytes)
    → tx_hashes_of c txs ≡ ok hashes
    → IsTxids c txs hashes
unfolding tx_hashes_of
tx_hashes_of-IsTxids c [] hashes e = subst (IsTxids c []) (ok-injective e) IsTxids.none_left
tx_hashes_of-IsTxids c (tx ∷ txs) hashes e =
    let (txid, et, e1) =
      >>=-eq-ok (ok_or tx.txid "getblocktemplate transaction missing txid") _ e in
    let (bytes, eb, e2) = >>=-eq-ok (c.hex_decode txid) _ e1 in
    let (_, sized, e3) = >>=-eq-ok (ensure (length bytes == 32) "invalid txid length") _ e2 in
    let (others, eo, e4) = >>=-eq-ok (tx_hashes_of c txs) _ e3 in
    subst (IsTxids c (tx ∷ txs)) (ok-injective e4) (
      IsTxids.next tx txs txid bytes others (ok_or-eq-ok tx.txid _ et) eb
        (ground (arith, ensure-eq-ok (length bytes == 32) "invalid txid length" sized))
        (tx_hashes_of-IsTxids c txs others eo))

module _ {F : Type 0} (c : Crates) (f : FloatOps F) (config : Config F) where
  submitted_version-IsVersion :
      (submitted : Option Text) (default : ℕ)
      → IsVersion submitted default (submitted_version c f submitted default)
  unfolding submitted_version
  submitted_version-IsVersion none default = IsVersion.absent default
  submitted_version-IsVersion (some text) default =
      read-IsVersion text default (parse_u32_be_hex text) refl

  -- A share for a job that was built from a block template, if it is accepted or a block, is scored
  -- by the double hash of the header over the Merkle root of the assembled coinbase and the
  -- transaction identifiers of that template, each with its bytes reversed and in their order. The
  -- header has the time and the nonce that were read from the submission, and the submitted version
  -- or, where none was submitted that can be read, the template's.
  pub validate_share-build_job :
      (job_counter now : ℕ) (gbt : GbtResponse) (key : Text) (source : TemplateSource) (root : Text)
      (job : JobTemplate F) (share_now : ℕ) (prefix : Bytes) (submit : ShareSubmit) (target : Bytes)
      (override : Option Bytes) (r : ShareResult F)
      → build_job c f config job_counter now gbt key source root ≡ ok job
      → validate_share c f share_now job prefix submit target override ≡ ok r
      → (r.accepted ≡ true) ⊎ (r.is_block ≡ true)
      → (tx_hashes : List Bytes) × IsTxids c gbt.transactions tx_hashes
        × (version : ℕ) × IsVersion submit.version gbt.version version
        × (ntime : ℕ) × (nonce : ℕ) × (en2 : Bytes) × Parsed c f submit ntime nonce en2
        × Scored c f job
            (prefix ++ (en2 ++ Option.get_or override job.coinbase2_bytes))
            tx_hashes
            version
            ntime
            nonce
            target
            r
  validate_share-build_job job_counter now gbt key source root job share_now prefix submit target
        override r e run good =
      let built = build_job-Built c f config job_counter now gbt key source root job e in
      let (ntime, nonce, en2, parsed, scored) =
        validate_share-Scored c f built.coinbase_hash built.tx_hashes share_now job prefix submit
          target override r built.branches run good in
      (
        built.tx_hashes,
        tx_hashes_of-IsTxids c gbt.transactions built.tx_hashes built.hashes,
        submitted_version c f submit.version job.version_u32,
        subst
            (λ v. IsVersion submit.version v (submitted_version c f submit.version job.version_u32))
            built.version_eq (submitted_version-IsVersion submit.version job.version_u32),
        ntime,
        nonce,
        en2,
        parsed,
        scored,
      )
