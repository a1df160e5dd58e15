-- ===== src/Template/Engine.antt =====
-- The state of `TemplateEngine` in src/template.rs. The cells that its clones share are one record,
-- and a method gives the record behind it. Whether the refresh semaphore's one permit is free is a
-- field; the jobs sent to the subscribers are a list, the latest first.
pub mod Job
pub mod Refresh
pub mod Fast
pub mod Submit
pub mod Steps
pub mod Heights
use stratum_bee.Base.{
  ◌==◌, if◌then◌else◌, is_empty, Bytes, Text, ℕ, ◌-◌, ◌/◌, Bool, true, not, ◌||◌, Option, none,
  some, List, [], ◌∷◌, reverse,
}
use stratum_bee.Crates.{Crates}
use stratum_bee.Float.{FloatOps}
use stratum_bee.Job.{TemplateSource, JobTemplate, empty_template}
use stratum_bee.Merkle.{GbtTx}
use stratum_bee.Metrics.Counters.{PoolCounters, zero_counters, inc_notify_deduped}
use stratum_bee.Template.Rules.{pending_slot}

pub record GbtCoinbaseAux : Type 0 where
  pub flags : Option Text

pub record GbtResponse : Type 0 where
  pub rules : List Text
  pub longpollid : Option Text
  pub submitold : Option Bool
  pub vbrequired : ℕ
  pub version : ℕ
  pub previousblockhash : Text
  pub transactions : List GbtTx
  pub coinbasevalue : ℕ
  pub bits : Text
  pub curtime : ℕ
  pub mintime : Option ℕ
  pub height : ℕ
  pub target : Text
  pub coinbaseaux : Option GbtCoinbaseAux
  pub default_witness_commitment : Option Text

pub record ChainTipState (F : Type 0) : Type 0 where
  pub hash_hex : Text
  pub height : ℕ
  pub median_time_past : ℕ
  pub nbits : Text
  pub nbits_u32 : ℕ
  pub target_le : Bytes
  pub version_u32 : ℕ
  pub vbrequired : ℕ
  pub network_difficulty : F

pub record TemplateEngine (F : Type 0) : Type 0 where
  pub sender : List (JobTemplate F)
  pub current : JobTemplate F
  pub chain_tip : Option (ChainTipState F)
  pub job_counter : ℕ
  pub last_template_key : Option Text
  pub refresh_free : Bool
  pub refresh_pending_source : ℕ
  pub last_zmq_block_trigger_ms : ℕ
  pub last_longpollid : Option Text
  pub last_gbt_success_ms : ℕ
  pub counters : PoolCounters

-- `TemplateEngine::new`
unfoldable pub new_engine : {F : Type 0} → FloatOps F → ℕ → TemplateEngine F
new_engine f now = record {
  sender = [];
  current = empty_template f now;
  chain_tip = none;
  job_counter = 1;
  last_template_key = none;
  refresh_free = true;
  refresh_pending_source = 0;
  last_zmq_block_trigger_ms = 0;
  last_longpollid = none;
  last_gbt_success_ms = 0;
  counters = zero_counters;
}

module _ {F : Type 0} where
  unfoldable pub store_pending_refresh_source : TemplateEngine F → TemplateSource → TemplateEngine F
  store_pending_refresh_source s source = record s { refresh_pending_source = pending_slot source }

  unfoldable pub note_gbt_success : TemplateEngine F → ℕ → TemplateEngine F
  note_gbt_success s now = record s { last_gbt_success_ms = now }

  -- In seconds, none before the first success.
  unfoldable pub last_gbt_success_age_secs : TemplateEngine F → ℕ → Option ℕ
  last_gbt_success_age_secs s now =
      if s.last_gbt_success_ms == 0 then none else some ((now - s.last_gbt_success_ms) / 1000)

  -- The block that a job is on.
  unfoldable pub job_tip : Crates → JobTemplate F → ChainTipState F
  job_tip c job = record {
    hash_hex = c.hex_encode (reverse job.prevhash_le_bytes);
    height = job.height - 1;
    median_time_past = job.mintime_u32 - 1;
    nbits = job.nbits;
    nbits_u32 = job.nbits_u32;
    target_le = job.target_le;
    version_u32 = job.version_u32;
    vbrequired = job.vbrequired;
    network_difficulty = job.network_difficulty;
  }

  unfoldable pub update_chain_tip_from_job :
      Crates → TemplateEngine F → JobTemplate F → TemplateEngine F
  update_chain_tip_from_job c s job =
      if not job.ready || ((job.height == 0) || is_empty job.prevhash_le)
      then s
      else record s { chain_tip = some (job_tip c job) }

  unfoldable pub publish_job : TemplateEngine F → JobTemplate F → Text → TemplateEngine F
  publish_job s job key = record s {
    last_template_key = some key;
    current = job;
    sender = job ∷ s.sender;
  }

  -- `inc_notify_deduped`, on the engine's counters.
  unfoldable pub note_deduped : TemplateEngine F → TemplateEngine F
  note_deduped s = record s { counters = inc_notify_deduped s.counters }
