-- ===== src/Session/Submit.antt =====
-- `handle_submit` of src/stratum.rs, with what it sends, records and starts as a list of effects in
-- their order. No other task changes the session between the sections that lock it. The times that the
-- code takes are arguments; times are in milliseconds.
pub mod Request
pub mod Version
pub mod Read
pub mod Effects
pub mod Answers
pub mod Blocks
use mathlib.Core.Option
use stratum_bee.Base.{
  ltb, leb, ◌==◌, if◌then◌else◌, is_empty, Text, codes, Result, ok, err, ℤ, ℕ, ◌+◌, ◌-◌, ◌/◌,
  bit_and, Bool, true, false, not, ◌&&◌, ◌||◌, Option, none, some, List, [], ◌∷◌, ◌++◌,
}
use stratum_bee.Config.{Config}
use stratum_bee.Crates.{Crates}
use stratum_bee.Float.{FloatOps}
use stratum_bee.Job.{JobTemplate}
use stratum_bee.Share.{ShareSubmit, ShareResult, validate_share}
use stratum_bee.Vardiff.{record_sample, maybe_retarget}
use stratum_bee.Encoding.HexText.{parse_u32_be_hex, format_08x}
use stratum_bee.Metrics.Counters.{StaleReason}
use stratum_bee.Metrics.Shares.{ShareReport}
use stratum_bee.Template.Engine.Submit.{submitted}
use stratum_bee.Session.Dedup.{DupKey, Submitted, check_duplicate, build_dup_key}
use stratum_bee.Session.State.{
  SessionJob, SessionState, complement32, find_job, set_difficulty, session_job,
}
use stratum_bee.Session.Messages.{Outbound}
use stratum_bee.Session.Requests.{push_latest}
use stratum_bee.Session.Submit.Request.{SubmitRequest, read_submit}
use stratum_bee.Session.Submit.Effects.{SubmitTimes, Effect, block_effects, answer_of, send_all}

pub data Lookup (F : Type 0) : Type 0 where
  unauthorized : Lookup F
  missing : (reason : StaleReason) → Lookup F
  found : (job : SessionJob F) → Lookup F

module _ {F : Type 0} where
  unfoldable pub stale_reason_of : SessionState F → ℕ → StaleReason
  stale_reason_of s now =
      if ltb ((now - s.session_start) / 1000) 30
      then StaleReason.reconnect
      else elim s.last_clean_jobs_time [
        | some t ↦ if leb ((now - t) / 1000) 60 then StaleReason.new_block else StaleReason.expired
        | none ↦ StaleReason.expired
      ]

  unfoldable pub lookup_job : SessionState F → ℕ → Text → Lookup F
  lookup_job s now job_id =
      if not s.authorized then Lookup.unauthorized else elim (find_job s job_id) [
        | some job ↦ Lookup.found job
        | none ↦ Lookup.missing (stale_reason_of s now)
      ]

  unfoldable pub submit_worker : SessionState F → SubmitRequest → Text
  submit_worker s request = if is_empty s.worker then request.submitted_worker else s.worker

  -- The version that is hashed, and whether the submitted one differs outside the mask. `|` adds
  -- two numbers with no bit in common.
  unfoldable pub combine_version : ℕ → JobTemplate F → Option Text → Option Text × Bool
  combine_version version_mask job none = (none, false)
  combine_version version_mask job (some text) = elim (parse_u32_be_hex text) [
    | none ↦ (none, false)
    | some submit_val ↦
        let job_val = Option.get_or (parse_u32_be_hex job.version) job.version_u32 in
        let submit_outside = bit_and submit_val (complement32 version_mask) in
        let job_outside = bit_and job_val (complement32 version_mask) in
        (
          some (format_08x (job_outside + bit_and submit_val version_mask)),
          not (submit_outside == 0) && not (submit_outside == job_outside),
        )
  ]

module _ {F : Type 0} (c : Crates) (f : FloatOps F) (config : Config F) where
  -- The report of a share that was not scored.
  unfoldable pub refused_report : Text → F → ShareReport F
  refused_report worker difficulty = record {
    worker = worker;
    target_difficulty = difficulty;
    share_difficulty = f.of_nat 0;
    accepted = false;
    is_block = false;
    notify_to_submit_ms = ℤ.pos 0;
    submit_rtt_ms = f.of_nat 0;
    job_age_secs = 0;
    notify_delay_ms = 0;
    reconnect_recent = false;
  }

  unfoldable pub scored_report :
      SessionState F → SubmitTimes F → SessionJob F → Text → ShareResult F → ShareReport F
  scored_report s times session_job worker result = record {
    worker = worker;
    target_difficulty = session_job.difficulty;
    share_difficulty = result.difficulty;
    accepted = result.accepted || result.is_block;
    is_block = result.is_block;
    notify_to_submit_ms = ℤ.pos (times.now - s.last_notify);
    submit_rtt_ms = times.submit_rtt_ms;
    job_age_secs = (times.now - session_job.job.created_at) / 1000;
    notify_delay_ms = times.now - s.last_notify;
    reconnect_recent = ltb ((times.now - s.session_start) / 1000) 30;
  }

  -- `if accepted_for_miner { guard.vardiff.record_share(now, job_diff); }`
  unfoldable pub sampled : SessionState F → ℕ → F → Bool → SessionState F
  sampled s now job_diff accepted_for_miner =
      if accepted_for_miner
      then record s { vardiff = record_sample f s.vardiff now job_diff }
      else s

  -- What comes of the controller's proposal.
  unfoldable pub change_difficulty :
      SessionState F → ℕ → Option F → SessionState F × List (Outbound F)
  change_difficulty s sent_now none = (s, [])
  change_difficulty s sent_now (some new_diff) =
      let (s', messages) = push_latest c f (set_difficulty c f s new_diff) new_diff sent_now in
      (s', Outbound.difficulty_set new_diff ∷ messages)

  unfoldable pub retarget : SessionState F → SubmitTimes F → SessionState F × List (Outbound F)
  retarget s times =
      if not (s.vardiff_enabled && s.bootstrap_complete)
      then (s, [])
      else (let (vardiff, proposed) = maybe_retarget f s.vardiff s.difficulty times.now in
          change_difficulty (record s { vardiff = vardiff }) times.sent_now proposed)

  -- Behind the validation.
  unfoldable pub settle :
      SessionState F
      → SubmitTimes F
      → SessionJob F
      → Text
      → ShareResult F
      → SessionState F × List (Effect F)
  settle s times session_job worker result =
      let (s', messages) =
        retarget (sampled s times.now session_job.difficulty (result.accepted || result.is_block))
          times in
      (
        s',
        Effect.sent (answer_of result)
            ∷ (block_effects session_job worker result times.now
                ++ (Effect.share_recorded (scored_report s times session_job worker result)
                    ∷ send_all messages)),
      )

  unfoldable pub validated :
      SessionState F
      → SubmitTimes F
      → SessionJob F
      → Text
      → Result (ShareResult F)
      → SessionState F × List (Effect F)
  validated s times session_job worker (err e) =
      (s, Effect.sent (Outbound.refused 20 (codes "Invalid share params: " ++ e)) ∷ [])
  validated s times session_job worker (ok result) = settle s times session_job worker result

  unfoldable pub validate_submit :
      SessionState F
      → SubmitTimes F
      → SessionJob F
      → Text
      → ShareSubmit
      → SessionState F × List (Effect F)
  validate_submit s times session_job worker submit = validated s times session_job worker (
      validate_share c f times.share_now_secs session_job.job session_job.coinbase_prefix submit
        session_job.share_target session_job.custom_coinbase2_bytes)

  -- A share whose version leaves the mask, a share that is a duplicate, or another one, with the keys
  -- behind the check.
  unfoldable pub submit_screened :
      SessionState F
      → SubmitTimes F
      → SubmitRequest
      → SessionJob F
      → Option Text
      → Submitted
      → Bool
      → Bool
      → SessionState F × List (Effect F)
  submit_screened s times request session_job version keys true is_duplicate = (
    s,
    Effect.violation_counted
        ∷ Effect.sent (Outbound.refused 20 (codes "Version bits outside negotiated mask"))
        ∷ Effect.share_recorded (refused_report (submit_worker s request) session_job.difficulty)
        ∷ [],
  )
  submit_screened s times request session_job version keys false true = (
    s,
    Effect.duplicate_counted
        ∷ Effect.sent (Outbound.refused 22 (codes "Duplicate share"))
        ∷ Effect.share_recorded (refused_report (submit_worker s request) session_job.difficulty)
        ∷ [],
  )
  submit_screened s times request session_job version keys false false =
      validate_submit (record s { submitted = keys }) times session_job (submit_worker s request)
        (record {
          extranonce2 = request.extranonce2;
          ntime = request.ntime;
          nonce = request.nonce;
          version = version;
        })

  -- The key of a share, with its version or the job's.
  unfoldable pub submit_key : SubmitRequest → SessionJob F → DupKey
  submit_key request session_job =
      build_dup_key c request.job_id request.nonce request.ntime request.extranonce2 (
        Option.get_or (combine_version session_job.version_mask session_job.job request.version).0
          session_job.job.version)

  -- Behind the lookup of the job.
  unfoldable pub submit_found :
      SessionState F
      → SubmitTimes F
      → SubmitRequest
      → SessionJob F
      → SessionState F × List (Effect F)
  submit_found s times request session_job =
      let (version, outside) =
        combine_version session_job.version_mask session_job.job request.version in
      let (keys, is_duplicate) = check_duplicate s.submitted (submit_key request session_job) in
      submit_screened s times request session_job version keys outside is_duplicate

  unfoldable pub submit_looked_up :
      SessionState F → SubmitTimes F → SubmitRequest → Lookup F → SessionState F × List (Effect F)
  submit_looked_up s times request Lookup.unauthorized =
      (s, Effect.sent (Outbound.refused 24 (codes "Unauthorized")) ∷ [])
  submit_looked_up s times request (Lookup.missing reason) = (
    s,
    Effect.sent (Outbound.refused 21 (codes "Stale share"))
        ∷ (if is_empty s.worker then [] else Effect.stale_recorded s.worker reason ∷ []),
  )
  submit_looked_up s times request (Lookup.found session_job) =
      submit_found s times request session_job

  unfoldable pub submit_read :
      SessionState F → SubmitTimes F → Result SubmitRequest → SessionState F × List (Effect F)
  submit_read s times (err e) = (s, Effect.sent (Outbound.refused 20 e) ∷ [])
  submit_read s times (ok request) =
      submit_looked_up s times request (lookup_job s times.lookup_now request.job_id)

  unfoldable pub handle_submit :
      SessionState F → SubmitTimes F → List (Option Text) → SessionState F × List (Effect F)
  handle_submit s times params = submit_read s times (read_submit config.extranonce2_size params)
