-- ===== src/Session/Submit/Blocks.antt =====
-- Theorems on the blocks that `handle_submit` in src/stratum.rs passes on.
use mathlib.Core.Option
use stratum_bee.Base.{
  get_or, Text, Result, ok, err, ℕ, ◌*◌, ◌≡◌, refl, subst, ◌⊎◌, Bool, true, false, Option, none,
  some, List, [], ◌∷◌, ◌++◌, arith,
}
use stratum_bee.Config.{Config}
use stratum_bee.Crates.{Crates}
use stratum_bee.Float.{FloatOps}
use stratum_bee.Share.{ShareSubmit, ShareResult, validate_share}
use stratum_bee.Session.State.{SessionJob, SessionState, find_job, session_job}
use stratum_bee.Session.Messages.{Outbound}
use stratum_bee.Session.Submit.Request.{
  SubmitRequest, even_digits, pad_below, param_text, read_submit,
}
use stratum_bee.Session.JobId.{normalize_session_job_id}
use stratum_bee.Encoding.HexText.{trim_0x}
use stratum_bee.Session.Submit.Read.{IsRead, read_submit-IsRead}
use stratum_bee.Session.Submit.Version.{IsCombined, version_of, combine_version-IsCombined}
use stratum_bee.Session.Submit.Effects.{
  SubmitTimes, BlockSubmission, Effect, block_effects, send_all,
}
use stratum_bee.Session.Submit.{
  Lookup, lookup_job, submit_worker, combine_version, settle, validated, validate_submit,
  submit_screened, submit_key, submit_found, submit_looked_up, submit_read, handle_submit,
}
use stratum_bee.Session.Dedup.{Submitted, check_duplicate}

module _ {F : Type 0} where
  -- The submission is among the effects, right behind the event of its candidate.
  abbrev pub Starts : BlockSubmission F → List (Effect F) → Type 0
  Starts submission [] = ⊥
  Starts submission (Effect.sent message ∷ effects) = Starts submission effects
  Starts submission (Effect.stale_recorded worker reason ∷ effects) = Starts submission effects
  Starts submission (Effect.share_recorded report ∷ effects) = Starts submission effects
  Starts submission (Effect.violation_counted ∷ effects) = Starts submission effects
  Starts submission (Effect.duplicate_counted ∷ effects) = Starts submission effects
  Starts submission (Effect.block_upserted block ∷ effects) = Starts submission effects
  Starts submission (Effect.submission_started started ∷ effects) =
      (started ≡ submission) ⊎ Starts submission effects

  send_all-Starts :
      (messages : List (Outbound F)) (submission : BlockSubmission F)
      → ¬ Starts submission (send_all messages)
  unfolding send_all
  send_all-Starts [] submission h = h
  send_all-Starts (message ∷ messages) submission h = send_all-Starts messages submission h

module _ {F : Type 0} (c : Crates) (f : FloatOps F) (config : Config F) where
  -- The job that the parameters name, of an authorized session, and the share that they make: the
  -- digits of its fields come from the parameters 2, 3 and 4, with zeros in front of short ones.
  pub record IsNamed (s : SessionState F) (params : List (Option Text)) (entry : SessionJob F)
      (submit : ShareSubmit) : Type 0 where
    pub job_id : Text
    pub authorized_eq : s.authorized ≡ true
    pub named : normalize_session_job_id (param_text params 1) ≡ some job_id
    pub listed : find_job s job_id ≡ some entry
    pub extranonce2_eq :
        submit.extranonce2
        ≡ pad_below (config.extranonce2_size * 2) (even_digits (trim_0x (param_text params 2)))
    pub ntime_eq : submit.ntime ≡ pad_below 8 (even_digits (trim_0x (param_text params 3)))
    pub nonce_eq : submit.nonce ≡ pad_below 8 (even_digits (trim_0x (param_text params 4)))
    pub combined :
        IsCombined entry.version_mask
          (version_of entry.job)
          (Option.map trim_0x (get_or params 5 none))
          submit.version

  -- Why a block is passed on: the share that the parameters make is the block, on the job that they
  -- name, which is not stale.
  pub record IsFound (s : SessionState F) (times : SubmitTimes F) (params : List (Option Text))
      (submission : BlockSubmission F) : Type 0 where
    pub entry : SessionJob F
    pub submit : ShareSubmit
    pub result : ShareResult F
    pub made : IsNamed s params entry submit
    pub fresh : entry.is_stale_block ≡ false
    pub scored :
        validate_share c f times.share_now_secs entry.job entry.coinbase_prefix submit
          entry.share_target entry.custom_coinbase2_bytes
        ≡ ok result
    pub is_block_eq : result.is_block ≡ true
    pub block_eq : result.block_hex ≡ some submission.block_hex
    pub hash_eq : submission.hash ≡ result.hash_hex
    pub height_eq : submission.height ≡ entry.job.height

  block_effects-Starts :
      (session_job : SessionJob F) (worker : Text) (result : ShareResult F) (now : ℕ)
      (rest : List (Effect F)) (submission : BlockSubmission F)
      → ¬ Starts submission rest
      → Starts submission (block_effects session_job worker result now ++ rest)
      → (session_job.is_stale_block ≡ false)
        × (result.is_block ≡ true)
        × (result.block_hex ≡ some submission.block_hex)
        × (submission.hash ≡ result.hash_hex)
        × (submission.height ≡ session_job.job.height)
  unfolding block_effects
  block_effects-Starts session_job worker result now rest submission none_behind h =
      ground (arith, h, none_behind)

  validated-IsFound :
      (s s' : SessionState F) (times : SubmitTimes F) (params : List (Option Text))
      (session_job : SessionJob F) (worker : Text) (submit : ShareSubmit)
      (outcome : Result (ShareResult F)) (submission : BlockSubmission F)
      → IsNamed s params session_job submit
      → validate_share c f times.share_now_secs session_job.job session_job.coinbase_prefix submit
          session_job.share_target session_job.custom_coinbase2_bytes
        ≡ outcome
      → Starts submission (validated c f config s' times session_job worker outcome).1
      → IsFound s times params submission
  unfolding validated settle
  validated-IsFound s s' times params session_job worker submit (err e) submission made scored h =
      absurd h
  validated-IsFound s s' times params session_job worker submit (ok result) submission made scored
        h =
      let (fresh, is_block, block, hash, height) =
        block_effects-Starts session_job worker result times.now _ submission
          (send_all-Starts _ submission) h in
      record {
        entry = session_job;
        submit = submit;
        result = result;
        made = made;
        fresh = fresh;
        scored = scored;
        is_block_eq = is_block;
        block_eq = block;
        hash_eq = hash;
        height_eq = height;
      }

  submit_screened-IsFound :
      (s : SessionState F) (times : SubmitTimes F) (params : List (Option Text))
      (request : SubmitRequest) (session_job : SessionJob F) (version : Option Text)
      (keys : Submitted) (outside is_duplicate : Bool) (submission : BlockSubmission F)
      → (outside ≡ false
          → IsNamed s params session_job (record {
            extranonce2 = request.extranonce2;
            ntime = request.ntime;
            nonce = request.nonce;
            version = version;
          }))
      → Starts submission
          (submit_screened c f config s times request session_job version keys outside
            is_duplicate).1
      → IsFound s times params submission
  unfolding submit_screened validate_submit
  submit_screened-IsFound s times params request session_job version keys true is_duplicate
        submission made h =
      absurd h
  submit_screened-IsFound s times params request session_job version keys false true submission made
        h =
      absurd h
  submit_screened-IsFound s times params request session_job version keys false false submission
        made h =
      validated-IsFound s _ times params session_job (submit_worker s request) _ _ submission
        (made refl) refl h

  submit_looked_up-IsFound :
      (s : SessionState F) (times : SubmitTimes F) (params : List (Option Text))
      (request : SubmitRequest) (lookup : Lookup F) (submission : BlockSubmission F)
      → IsRead config.extranonce2_size params request
      → lookup_job s times.lookup_now request.job_id ≡ lookup
      → Starts submission (submit_looked_up c f config s times request lookup).1
      → IsFound s times params submission
  unfolding submit_looked_up submit_found lookup_job
  submit_looked_up-IsFound s times params request Lookup.unauthorized submission read e h = absurd h
  submit_looked_up-IsFound s times params request (Lookup.missing reason) submission read e h =
      absurd (ground (arith, h))
  submit_looked_up-IsFound s times params request (Lookup.found session_job) submission read e h =
      let (version, outside) =
        combine_version session_job.version_mask session_job.job request.version in
      let (keys, is_duplicate) =
        check_duplicate s.submitted (submit_key c f config request session_job) in
      let made : outside ≡ false
          → IsNamed s params session_job (record {
            extranonce2 = request.extranonce2;
            ntime = request.ntime;
            nonce = request.nonce;
            version = version;
          }) =
        λ allowed. record {
          job_id = request.job_id;
          authorized_eq = ground (arith, e);
          named = read.named;
          listed = ground (arith, e);
          extranonce2_eq = read.extranonce2_eq;
          ntime_eq = read.ntime_eq;
          nonce_eq = read.nonce_eq;
          combined =
              subst
                (λ v. IsCombined session_job.version_mask (version_of session_job.job) v version)
                read.version_eq
                (combine_version-IsCombined session_job.version_mask session_job.job request.version
                  allowed);
        } in
      submit_screened-IsFound s times params request session_job version keys outside is_duplicate
        submission made h

  -- A submission that passes a block to the node is one of an authorized session, and its second
  -- parameter names a job of that session that is not stale. The share is made of the third to
  -- sixth parameters: the second extranonce, the time, the nonce and the version. Its version has
  -- the submitted digits inside the job's mask and the job's outside it, where the submitted
  -- version has outside the mask no digits or those of the job; it is left out where none is
  -- submitted that can be read. Validation of that share on that job answers a block, whose text,
  -- hash and height are those that are passed on.
  pub handle_submit-IsFound :
      (s : SessionState F) (times : SubmitTimes F) (params : List (Option Text))
      (submission : BlockSubmission F)
      → Starts submission (handle_submit c f config s times params).1
      → IsFound s times params submission
  unfolding handle_submit
  handle_submit-IsFound s times params submission h =
      read (read_submit config.extranonce2_size params) refl h
    where
      read :
          (request : Result SubmitRequest)
          → read_submit config.extranonce2_size params ≡ request
          → Starts submission (submit_read c f config s times request).1
          → IsFound s times params submission
      read (err e) eq h' = absurd (unfold submit_read in h')
      read (ok request) eq h' =
          submit_looked_up-IsFound s times params request
            (lookup_job s times.lookup_now request.job_id) submission
            (read_submit-IsRead config.extranonce2_size params request eq) refl
            (unfold submit_read in h')
