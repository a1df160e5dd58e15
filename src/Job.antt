-- ===== src/Job.antt =====
-- The job template of src/template.rs and the source that it came from. A time is in milliseconds.
use stratum_bee.Base.{replicate, Bytes, Text, codes, ℕ, Bool, true, false, Option, none, List, []}
use stratum_bee.Float.{FloatOps}

pub data TemplateSource : Type 0 where
  startup : TemplateSource
  longpoll : TemplateSource
  longpoll_timeout_fallback : TemplateSource
  longpoll_error_fallback : TemplateSource
  zmq_hashblock : TemplateSource
  zmq_rawblock : TemplateSource
  p2p_cmpct_fast : TemplateSource

pub record JobTemplate (F : Type 0) : Type 0 where
  pub ready : Bool
  pub job_id : Text
  pub submit_old : Bool
  pub prevhash : Text
  pub prevhash_le : Text
  pub coinbase1 : Text
  pub coinbase2 : Text
  pub merkle_branches : List Text
  pub version : Text
  pub nbits : Text
  pub ntime : Text
  pub height : ℕ
  pub transactions : List Text
  pub has_witness_commitment : Bool
  pub coinbase_value : ℕ
  pub created_at : ℕ
  pub prevhash_le_bytes : Bytes
  pub target_le : Bytes
  pub coinbase1_bytes : Bytes
  pub coinbase2_bytes : Bytes
  pub merkle_branches_le : List Bytes
  pub version_u32 : ℕ
  pub nbits_u32 : ℕ
  pub vbrequired : ℕ
  pub mintime_u32 : ℕ
  pub network_difficulty : F
  pub template_key : Text
  pub template_source : TemplateSource
  pub txid_partial_root : Text
  pub witness_commitment_script : Option Text

-- `JobTemplate::empty`, at the time `now`.
module _ {F : Type 0} (f : FloatOps F) where
  unfoldable pub empty_template : ℕ → JobTemplate F
  empty_template now = record {
    ready = false;
    job_id = codes "0";
    submit_old = true;
    prevhash = [];
    prevhash_le = [];
    coinbase1 = [];
    coinbase2 = [];
    merkle_branches = [];
    version = [];
    nbits = [];
    ntime = [];
    height = 0;
    transactions = [];
    has_witness_commitment = false;
    coinbase_value = 0;
    created_at = now;
    prevhash_le_bytes = replicate 32 0;
    target_le = replicate 32 0;
    coinbase1_bytes = [];
    coinbase2_bytes = [];
    merkle_branches_le = [];
    version_u32 = 0;
    nbits_u32 = 0;
    vbrequired = 0;
    mintime_u32 = 0;
    network_difficulty = f.of_nat 0;
    template_key = [];
    template_source = startup;
    txid_partial_root = [];
    witness_commitment_script = none;
  }
