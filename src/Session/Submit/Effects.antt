-- ===== src/Session/Submit/Effects.antt =====
-- What `handle_submit` of src/stratum.rs sends, records and starts, with the events of a block.
use mathlib.Core.Option
use stratum_bee.Base.{
  if◌then◌else◌, Text, codes, text_eq, Result, ok, err, ℕ, true, not, ◌||◌, Option, none, some,
  List, [], ◌∷◌, map,
}
use stratum_bee.Share.{ShareResult}
use stratum_bee.Metrics.Counters.{StaleReason}
use stratum_bee.Metrics.Store.{BlockEvent}
use stratum_bee.Metrics.Shares.{ShareReport}
use stratum_bee.Template.Engine.Submit.{SubmitBlockOutcome}
use stratum_bee.Session.State.{SessionJob, session_job}
use stratum_bee.Session.Messages.{Outbound}

-- The times of a submission, with the round trip in milliseconds as a number of `f64`.
pub record SubmitTimes (F : Type 0) : Type 0 where
  pub lookup_now : ℕ
  pub share_now_secs : ℕ
  pub now : ℕ
  pub sent_now : ℕ
  pub submit_rtt_ms : F

-- A block that is passed to the node.
pub record BlockSubmission (F : Type 0) : Type 0 where
  pub height : ℕ
  pub hash : Text
  pub worker : Text
  pub difficulty : F
  pub block_hex : Text
  pub coinbase_hex : Text
  pub template_key : Text
  pub txid_root : Text
  pub witness : Text

pub data Effect (F : Type 0) : Type 0 where
  sent : (message : Outbound F) → Effect F
  stale_recorded : (worker : Text) (reason : StaleReason) → Effect F
  share_recorded : (report : ShareReport F) → Effect F
  violation_counted : Effect F
  duplicate_counted : Effect F
  block_upserted : (block : BlockEvent F) → Effect F
  -- `tokio::spawn` of the submission
  submission_started : (submission : BlockSubmission F) → Effect F

-- The status and the reason.
unfoldable pub submission_status : Result SubmitBlockOutcome → Text × Option Text
submission_status (ok SubmitBlockOutcome.submitted) = (codes "submitted", none)
submission_status (ok SubmitBlockOutcome.duplicate) = (codes "duplicate", none)
submission_status (ok (SubmitBlockOutcome.rejected reason)) = (codes "rejected", some reason)
submission_status (err e) = (codes "submit_failed", some e)

module _ {F : Type 0} where
  -- The event of a block with its status.
  unfoldable pub block_event : BlockSubmission F → Text → Option Text → Text → ℕ → BlockEvent F
  block_event submission status reason reward_status now = record {
    height = submission.height;
    hash = submission.hash;
    worker = submission.worker;
    difficulty = submission.difficulty;
    status = status;
    reason = reason;
    confirmations = none;
    in_active_chain = none;
    reward_status = reward_status;
    created_at = now;
  }

  -- What the started task records of the outcome of `submit_block`.
  unfoldable pub submission_event : BlockSubmission F → Result SubmitBlockOutcome → ℕ → BlockEvent F
  submission_event submission outcome now =
      let (status, reason) = submission_status outcome in
      block_event submission status reason
        (if text_eq status (codes "submitted") || text_eq status (codes "duplicate")
          then codes "pending_confirmation"
          else codes "unavailable")
        now

  -- The candidate and the start of its submission, for a block on a job that is not stale.
  unfoldable pub block_effects : SessionJob F → Text → ShareResult F → ℕ → List (Effect F)
  block_effects session_job worker result now =
      if not result.is_block || session_job.is_stale_block then [] else elim result.block_hex [
        | none ↦ []
        | some block_hex ↦
            let job = session_job.job in
            let submission : BlockSubmission F = record {
              height = job.height;
              hash = result.hash_hex;
              worker = worker;
              difficulty = result.difficulty;
              block_hex = block_hex;
              coinbase_hex = Option.get_or result.coinbase_hex [];
              template_key = job.template_key;
              txid_root = job.txid_partial_root;
              witness = Option.get_or job.witness_commitment_script [];
            } in
            Effect.block_upserted
              (block_event submission (codes "candidate") none (codes "pending_submission") now)
            ∷ Effect.submission_started submission
            ∷ []
      ]

  unfoldable pub answer_of : ShareResult F → Outbound F
  answer_of result =
      if result.accepted || result.is_block
      then Outbound.replied true
      else Outbound.refused 23 (codes "Low difficulty share")

  unfoldable pub send_all : List (Outbound F) → List (Effect F)
  send_all messages = map Effect.sent messages
