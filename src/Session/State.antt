-- ===== src/Session/State.antt =====
-- `SessionState` of src/stratum.rs with its operations. The present time is an argument; the flag
-- `is_stale_block` of a job, which other holders of the job share, is a field of it.
pub mod Jobs
pub mod Bootstrap
use stratum_bee.Base.{
  ltb, ◌==◌, if◌then◌else◌, length, replicate, Bytes, Text, text_eq, ok, err, ℕ, ◌+◌, ◌-◌, ◌%◌, ◌^◌,
  max, bit_and, Bool, true, false, not, ◌&&◌, ◌||◌, Option, none, some, List, [], ◌∷◌, ◌++◌,
}
use stratum_bee.Crates.{Crates}
use stratum_bee.Float.{FloatOps, float_min}
use stratum_bee.Job.{JobTemplate}
use stratum_bee.Share.{share_target_le}
use stratum_bee.Vardiff.{VardiffController, new_controller}
use stratum_bee.Session.JobId.{format_session_job_id, normalize_session_job_id}
use stratum_bee.Session.Dedup.{Submitted}
use mathlib.Core.Option

pub record SessionJob (F : Type 0) : Type 0 where
  pub job : JobTemplate F
  pub difficulty : F
  pub share_target : Bytes
  pub coinbase_prefix : Bytes
  pub session_job_id : Text
  pub notify_ntime : Text
  pub version_rolling_enabled : Bool
  pub version_mask : ℕ
  pub custom_coinbase2_hex : Option Text
  pub custom_coinbase2_bytes : Option Bytes
  pub is_stale_block : Bool

pub record NotifyBucket (F : Type 0) : Type 0 where
  pub tokens : F
  pub capacity : F
  pub fill_per_ms : F
  pub last_fill_ms : ℕ

pub record SessionState (F : Type 0) : Type 0 where
  pub authorized : Bool
  pub bootstrap_complete : Bool
  pub bootstrap_inflight : Bool
  pub worker : Text
  pub user_agent : Option Text
  pub extranonce1 : Text
  pub extranonce1_bytes : Bytes
  pub difficulty : F
  pub share_target_cache : Bytes
  pub vardiff : VardiffController F
  pub vardiff_enabled : Bool
  pub jobs : List (SessionJob F)
  pub next_job_id : ℕ
  pub last_notify : ℕ
  pub last_prevhash : Option Text
  pub session_start : ℕ
  pub last_clean_jobs_time : Option ℕ
  pub notify_bucket : NotifyBucket F
  pub version_mask : ℕ
  pub version_rolling_enabled : Bool
  pub submitted : Submitted

pub record NotifyPostSend : Type 0 where
  pub prevhash : Text
  pub clean_jobs : Bool
  pub complete_bootstrap : Bool

abbrev pub max_jobs : ℕ
max_jobs = 32

-- `!mask` at 32 bits.
abbrev pub complement32 : ℕ → ℕ
complement32 mask = 2 ^ 32 - 1 - mask

-- `while self.jobs.len() > 32 { self.jobs.pop_front(); }`
unfoldable pub trim_jobs {ℓ} : {A : Type ℓ} → List A → List A
trim_jobs [] = []
trim_jobs (job ∷ jobs) =
    let rest = trim_jobs jobs in if ltb max_jobs (length (job ∷ jobs)) then rest else job ∷ jobs

unfoldable pub is_new_prevhash : Option Text → Text → Bool
is_new_prevhash none prevhash = true
is_new_prevhash (some prev) prevhash = not (text_eq prev prevhash)

module _ {F : Type 0} (f : FloatOps F) where
  unfoldable pub new_bucket : F → F → NotifyBucket F
  new_bucket capacity refill_ms = record {
    tokens = capacity;
    capacity = capacity;
    fill_per_ms = if f.lt (f.of_nat 0) refill_ms then f.div (f.of_nat 1) refill_ms else f.of_nat 1;
    last_fill_ms = 0;
  }

  unfoldable pub try_consume : NotifyBucket F → ℕ → NotifyBucket F × Bool
  try_consume bucket now =
      let last = if bucket.last_fill_ms == 0 then now else bucket.last_fill_ms in
      let elapsed_ms = f.of_nat (now - last) in
      let tokens =
        float_min f (f.add bucket.tokens (f.mul elapsed_ms bucket.fill_per_ms)) bucket.capacity in
      if f.le (f.of_nat 1) tokens
      then (record bucket { tokens = f.sub tokens (f.of_nat 1); last_fill_ms = now }, true)
      else (record bucket { tokens = tokens; last_fill_ms = now }, false)

module _ {F : Type 0} where
  unfoldable pub begin_authorized_session : SessionState F → SessionState F
  begin_authorized_session s = record s {
    authorized = true;
    bootstrap_complete = false;
    bootstrap_inflight = false;
    jobs = [];
    last_prevhash = none;
    last_clean_jobs_time = none;
    submitted = record { hashes = []; order = [] };
  }

  unfoldable pub claim_bootstrap_notify : SessionState F → SessionState F × Bool
  claim_bootstrap_notify s =
      if s.bootstrap_complete || s.bootstrap_inflight
      then (s, false)
      else (record s { bootstrap_inflight = true }, true)

  unfoldable pub mark_stale : List (SessionJob F) → List (SessionJob F)
  mark_stale [] = []
  mark_stale (job ∷ jobs) = record job { is_stale_block = true } ∷ mark_stale jobs

  unfoldable pub retain_fresh : List (SessionJob F) → List (SessionJob F)
  retain_fresh [] = []
  retain_fresh (job ∷ jobs) =
      if not job.is_stale_block then job ∷ retain_fresh jobs else retain_fresh jobs

  unfoldable pub mark_jobs_stale_block : SessionState F → SessionState F
  mark_jobs_stale_block s = record s { jobs = retain_fresh (mark_stale s.jobs) }

  unfoldable pub should_clean_jobs : SessionState F → JobTemplate F → Bool
  should_clean_jobs s job = not job.submit_old || is_new_prevhash s.last_prevhash job.prevhash_le

  unfoldable pub note_notify_sent : SessionState F → NotifyPostSend → ℕ → SessionState F
  note_notify_sent s post_send now = record s {
    last_notify = now;
    last_prevhash = some post_send.prevhash;
    last_clean_jobs_time = if post_send.clean_jobs then some now else s.last_clean_jobs_time;
    bootstrap_complete = if post_send.complete_bootstrap then true else s.bootstrap_complete;
    bootstrap_inflight = if post_send.complete_bootstrap then false else s.bootstrap_inflight;
  }

  -- `iter().rev().find(..)`: the last job with the identifier that is not stale.
  unfoldable pub find_last : Text → List (SessionJob F) → Option (SessionJob F)
  find_last job_id [] = none
  find_last job_id (entry ∷ jobs) = elim (find_last job_id jobs) [
    | some found ↦ some found
    | none ↦
        if text_eq entry.session_job_id job_id && not entry.is_stale_block then some entry else none
  ]

  unfoldable pub find_job : SessionState F → Text → Option (SessionJob F)
  find_job s job_id = elim (normalize_session_job_id job_id) [
    | none ↦ none
    | some normal ↦ find_last normal s.jobs
  ]

module _ {F : Type 0} (c : Crates) (f : FloatOps F) where
  -- `share_target_le(diff).unwrap_or([0xff; 32])`
  unfoldable pub target_or_max : F → Bytes
  target_or_max diff = elim (share_target_le c f diff) [
    | ok target ↦ target
    | err e ↦ replicate 32 0xff
  ]

  unfoldable pub new_session : ℕ → Text → Bytes → F → F → F → F → F → Bool → F → F → SessionState F
  new_session now extranonce1 extranonce1_bytes initial_diff target_share_time retarget_time
        min_diff max_diff vardiff_enabled bucket_capacity bucket_refill_ms =
      record {
        authorized = false;
        bootstrap_complete = false;
        bootstrap_inflight = false;
        worker = [];
        user_agent = none;
        extranonce1 = extranonce1;
        extranonce1_bytes = extranonce1_bytes;
        difficulty = initial_diff;
        share_target_cache = target_or_max initial_diff;
        vardiff = new_controller f now target_share_time retarget_time min_diff max_diff;
        vardiff_enabled = vardiff_enabled;
        jobs = [];
        next_job_id = 1;
        last_notify = now;
        last_prevhash = none;
        session_start = now;
        last_clean_jobs_time = none;
        notify_bucket = new_bucket f bucket_capacity bucket_refill_ms;
        version_mask = 0x1fffe000;
        version_rolling_enabled = false;
        submitted = record { hashes = []; order = [] };
      }

  unfoldable pub set_difficulty : SessionState F → F → SessionState F
  set_difficulty s difficulty = elim (share_target_le c f difficulty) [
    | ok target ↦ record s { difficulty = difficulty; share_target_cache = target }
    | err e ↦ s
  ]

  -- The entry for a job, from the state whose difficulty is set.
  unfoldable pub session_job :
      SessionState F → JobTemplate F → F → Bytes → Option Text → Text → SessionJob F
  session_job s job difficulty extranonce1_bytes notify_ntime session_job_id = record {
    job = job;
    difficulty = difficulty;
    share_target = s.share_target_cache;
    coinbase_prefix = job.coinbase1_bytes ++ extranonce1_bytes;
    session_job_id = session_job_id;
    notify_ntime = Option.get_or notify_ntime job.ntime;
    version_rolling_enabled = s.version_rolling_enabled;
    version_mask = bit_and s.version_mask (complement32 job.vbrequired);
    custom_coinbase2_hex = none;
    custom_coinbase2_bytes = none;
    is_stale_block = false;
  }

  unfoldable pub push_job :
      SessionState F → JobTemplate F → F → Bytes → Option Text → SessionState F × SessionJob F
  push_job s job difficulty extranonce1_bytes notify_ntime =
      let id = if s.next_job_id == 0 then 1 else s.next_job_id in
      let session_job_id = format_session_job_id id in
      let s' = set_difficulty (record s { next_job_id = max ((id + 1) % 2 ^ 32) 1 }) difficulty in
      let entry = session_job s' job difficulty extranonce1_bytes notify_ntime session_job_id in
      (record s' { jobs = trim_jobs (s'.jobs ++ (entry ∷ [])) }, entry)
