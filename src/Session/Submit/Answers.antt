-- ===== src/Session/Submit/Answers.antt =====
-- Theorems on the answers of `handle_submit` in src/stratum.rs.
use stratum_bee.Base.{
  if◌then◌else◌, Text, codes, Result, ok, err, ℕ, ◌≡◌, refl, sym, ap, ◌∙◌, Bool, true, false, ◌||◌,
  Option, none, some, List, [], ◌∷◌, ◌++◌, arith,
}
use stratum_bee.Config.{Config}
use stratum_bee.Crates.{Crates}
use stratum_bee.Float.{FloatOps}
use stratum_bee.Share.{ShareResult, validate_share}
use stratum_bee.Metrics.Shares.{ShareReport}
use stratum_bee.Session.State.{SessionJob, SessionState, set_difficulty, session_job, push_job}
use stratum_bee.Session.Messages.{Outbound, build_notify_dispatch}
use stratum_bee.Session.Requests.{last_job, push_again, push_latest}
use stratum_bee.Session.Submit.Request.{SubmitRequest, read_submit}
use stratum_bee.Session.Submit.Effects.{SubmitTimes, Effect, block_effects, answer_of, send_all}
use stratum_bee.Session.Submit.{
  Lookup, lookup_job, submit_worker, combine_version, refused_report, scored_report, sampled,
  change_difficulty, retarget, settle, validated, validate_submit, submit_screened, submit_key,
  submit_found, submit_looked_up, submit_read, handle_submit,
}
use stratum_bee.Vardiff.{maybe_retarget}
use stratum_bee.Session.Dedup.{Submitted, check_duplicate}

or_false : (b : Bool) → (b || false) ≡ b
or_false b = ground arith

module _ {F : Type 0} where
  abbrev is_answer : Outbound F → Bool
  is_answer (Outbound.replied result) = true
  is_answer (Outbound.refused code message) = true
  is_answer (Outbound.configured result) = true
  is_answer (Outbound.difficulty_set diff) = false
  is_answer (Outbound.version_mask_set text) = false
  is_answer (Outbound.notified text) = false

  -- The answers among the effects.
  abbrev pub answers : List (Effect F) → List (Outbound F)
  answers [] = []
  answers (Effect.sent message ∷ effects) =
      if is_answer message then message ∷ answers effects else answers effects
  answers (Effect.stale_recorded worker reason ∷ effects) = answers effects
  answers (Effect.share_recorded report ∷ effects) = answers effects
  answers (Effect.violation_counted ∷ effects) = answers effects
  answers (Effect.duplicate_counted ∷ effects) = answers effects
  answers (Effect.block_upserted block ∷ effects) = answers effects
  answers (Effect.submission_started submission ∷ effects) = answers effects

  -- The reports of shares among the effects.
  abbrev pub reports : List (Effect F) → List (ShareReport F)
  reports [] = []
  reports (Effect.sent message ∷ effects) = reports effects
  reports (Effect.stale_recorded worker reason ∷ effects) = reports effects
  reports (Effect.share_recorded report ∷ effects) = report ∷ reports effects
  reports (Effect.violation_counted ∷ effects) = reports effects
  reports (Effect.duplicate_counted ∷ effects) = reports effects
  reports (Effect.block_upserted block ∷ effects) = reports effects
  reports (Effect.submission_started submission ∷ effects) = reports effects

  -- Whether the one answer is an acceptance, and whether the one report is of an accepted share.
  abbrev pub is_acceptance : Outbound F → Bool
  is_acceptance (Outbound.replied result) = result
  is_acceptance message = false

  abbrev pub any_accepted : List (ShareReport F) → Bool
  any_accepted [] = false
  any_accepted (report ∷ rest) = report.accepted || any_accepted rest

  -- One answer and no more, which accepts the share exactly if it is recorded as accepted.
  abbrev pub IsAnswered : List (Effect F) → Type 0
  IsAnswered effects =
      (answer : Outbound F) × (answers effects ≡ answer ∷ [])
      × (is_acceptance answer ≡ any_accepted (reports effects))

  -- Messages that are no answers.
  abbrev IsQuiet : List (Outbound F) → Type 0
  IsQuiet messages = (answers (send_all messages) ≡ []) × (reports (send_all messages) ≡ [])

  build_notify_dispatch-IsQuiet :
      (session_job : SessionJob F) (clean_jobs : Bool)
      → IsQuiet (build_notify_dispatch session_job clean_jobs)
  unfolding build_notify_dispatch send_all
  build_notify_dispatch-IsQuiet session_job clean_jobs = ground arith

  answer_of_lem :
      (result : ShareResult F)
      → (is_answer (answer_of result) ≡ true)
        × (is_acceptance (answer_of result) ≡ (result.accepted || result.is_block))
  unfolding answer_of
  answer_of_lem result = ground arith

  block_effects-IsQuiet :
      (session_job : SessionJob F) (worker : Text) (result : ShareResult F) (now : ℕ)
      (rest : List (Effect F))
      → (answers (block_effects session_job worker result now ++ rest) ≡ answers rest)
        × (reports (block_effects session_job worker result now ++ rest) ≡ reports rest)
  unfolding block_effects
  block_effects-IsQuiet session_job worker result now rest = ground arith

module _ {F : Type 0} (c : Crates) (f : FloatOps F) (config : Config F) where
  push_again-IsQuiet :
      (s : SessionState F) (diff : F) (now : ℕ) (latest : Option (SessionJob F))
      → IsQuiet (push_again c f s diff now latest).1
  unfolding push_again send_all
  push_again-IsQuiet s diff now none = (refl, refl)
  push_again-IsQuiet s diff now (some entry) =
      build_notify_dispatch-IsQuiet (push_job c f s entry.job diff s.extranonce1_bytes none).1 false

  change_difficulty-IsQuiet :
      (s : SessionState F) (now : ℕ) (proposed : Option F)
      → IsQuiet (change_difficulty c f config s now proposed).1
  unfolding change_difficulty push_latest send_all
  change_difficulty-IsQuiet s now none = (refl, refl)
  change_difficulty-IsQuiet s now (some diff) =
      let s' = set_difficulty c f s diff in push_again-IsQuiet s' diff now (last_job s'.jobs)

  retarget-IsQuiet :
      (s : SessionState F) (times : SubmitTimes F) → IsQuiet (retarget c f config s times).1
  unfolding retarget send_all
  retarget-IsQuiet s times =
      let (vardiff, proposed) = maybe_retarget f s.vardiff s.difficulty times.now in
      ground
        (arith, change_difficulty-IsQuiet (record s { vardiff = vardiff }) times.sent_now proposed)

  settle-IsAnswered :
      (s : SessionState F) (times : SubmitTimes F) (session_job : SessionJob F) (worker : Text)
      (result : ShareResult F)
      → IsAnswered (settle c f config s times session_job worker result).1
  unfolding settle scored_report
  settle-IsAnswered s times session_job worker result =
      let s' =
        sampled c f config s times.now session_job.difficulty
          (result.accepted || result.is_block) in
      let (quiet, silent) = retarget-IsQuiet s' times in
      let report = scored_report c f config s times session_job worker result in
      let rest = Effect.share_recorded report ∷ send_all (retarget c f config s' times).1 in
      let (same, kept) = block_effects-IsQuiet session_job worker result times.now rest in
      let (is_one, accepts) = answer_of_lem result in
      (
        answer_of result,
        rw is_one (ap (◌∷◌ (answer_of result)) (same ∙ quiet)),
        accepts
            ∙ sym (
                ap any_accepted (kept ∙ ap (◌∷◌ report) silent)
                ∙ or_false (result.accepted || result.is_block)),
      )

  validated-IsAnswered :
      (s : SessionState F) (times : SubmitTimes F) (session_job : SessionJob F) (worker : Text)
      (outcome : Result (ShareResult F))
      → IsAnswered (validated c f config s times session_job worker outcome).1
  unfolding validated
  validated-IsAnswered s times session_job worker (err e) = (_, refl, refl)
  validated-IsAnswered s times session_job worker (ok result) =
      settle-IsAnswered s times session_job worker result

  submit_screened-IsAnswered :
      (s : SessionState F) (times : SubmitTimes F) (request : SubmitRequest)
      (session_job : SessionJob F) (version : Option Text) (keys : Submitted)
      (outside is_duplicate : Bool)
      → IsAnswered
          (submit_screened c f config s times request session_job version keys outside
            is_duplicate).1
  unfolding submit_screened validate_submit refused_report
  submit_screened-IsAnswered s times request session_job version keys true is_duplicate =
      (_, refl, refl)
  submit_screened-IsAnswered s times request session_job version keys false true = (_, refl, refl)
  submit_screened-IsAnswered s times request session_job version keys false false =
      validated-IsAnswered (record s { submitted = keys }) times session_job
        (submit_worker s request)
        (validate_share c f times.share_now_secs session_job.job session_job.coinbase_prefix
          (record {
            extranonce2 = request.extranonce2;
            ntime = request.ntime;
            nonce = request.nonce;
            version = version;
          })
          session_job.share_target session_job.custom_coinbase2_bytes)

  submit_looked_up-IsAnswered :
      (s : SessionState F) (times : SubmitTimes F) (request : SubmitRequest) (lookup : Lookup F)
      → IsAnswered (submit_looked_up c f config s times request lookup).1
  unfolding submit_looked_up submit_found
  submit_looked_up-IsAnswered s times request Lookup.unauthorized = (_, refl, refl)
  submit_looked_up-IsAnswered s times request (Lookup.missing reason) =
      (Outbound.refused 21 (codes "Stale share"), ground arith, ground arith)
  submit_looked_up-IsAnswered s times request (Lookup.found session_job) =
      let (version, outside) =
        combine_version session_job.version_mask session_job.job request.version in
      let (keys, is_duplicate) =
        check_duplicate s.submitted (submit_key c f config request session_job) in
      submit_screened-IsAnswered s times request session_job version keys outside is_duplicate

  -- Every submission, whatever its parameters, is answered exactly once, and the answer accepts the
  -- share exactly if the share is recorded as accepted.
  pub handle_submit-IsAnswered :
      (s : SessionState F) (times : SubmitTimes F) (params : List (Option Text))
      → IsAnswered (handle_submit c f config s times params).1
  unfolding handle_submit
  handle_submit-IsAnswered s times params =
      read-IsAnswered (read_submit config.extranonce2_size params)
    where
      read-IsAnswered :
          (request : Result SubmitRequest) → IsAnswered (submit_read c f config s times request).1
      read-IsAnswered (err e) = unfold submit_read in (_, refl, refl)
      read-IsAnswered (ok request) =
          unfold submit_read in
          submit_looked_up-IsAnswered s times request (lookup_job s times.lookup_now request.job_id)
