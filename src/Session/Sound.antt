-- ===== src/Session/Sound.antt =====
-- What the requests and tasks of a session keep (src/stratum.rs).
use stratum_bee.Base.{
  if◌then◌else◌, length, Bytes, IsU32, Text, Result, ok, err, ℕ, ◌≤◌, ◌<◌, ◌≡◌, refl, Bool, true,
  false, not, ◌&&◌, ◌||◌, Option, none, some, List, [], ◌∷◌, arith,
}
use stratum_bee.Config.{Config}
use stratum_bee.Crates.{Crates}
use stratum_bee.Float.{FloatOps}
use stratum_bee.Job.{JobTemplate}
use stratum_bee.Vardiff.{VardiffController, maybe_retarget}
use stratum_bee.Session.Dedup.Window.{IsWindow, check_duplicate-IsWindow}
use stratum_bee.Session.State.{
  SessionJob, SessionState, NotifyPostSend, max_jobs, begin_authorized_session,
  claim_bootstrap_notify, mark_stale, retain_fresh, mark_jobs_stale_block, note_notify_sent,
  set_difficulty, session_job, push_job,
}
use stratum_bee.Session.State.Jobs.{IsSession, set_difficulty-IsSession, push_job-IsSession}
use stratum_bee.Session.Messages.{Outbound}
use stratum_bee.Session.Requests.{
  last_job, suggested_initial_difficulty, push_again, push_latest, handle_suggest_difficulty,
}
use stratum_bee.Session.Submit.Request.{SubmitRequest}
use stratum_bee.Session.Submit.Effects.{SubmitTimes}
use stratum_bee.Session.Submit.{
  Lookup, lookup_job, combine_version, sampled, change_difficulty, retarget, settle, validated,
  validate_submit, submit_screened, submit_key, submit_found, submit_looked_up, submit_read,
}
use stratum_bee.Share.{ShareResult, share_target_le}
use stratum_bee.Session.Dedup.{Submitted, check_duplicate}

pub empty-IsWindow : IsWindow (record { hashes = []; order = [] })
empty-IsWindow = record { same = refl; distinct = tt; bounded = omega arith }

module _ {F : Type 0} (c : Crates) (f : FloatOps F) (config : Config F) where
  -- A well-formed session with a window of submitted keys.
  pub record IsSound (s : SessionState F) : Type 0 where
    pub session : IsSession c f s
    pub window : IsWindow s.submitted

  pub kept :
      (s : SessionState F)
      → share_target_le c f s.difficulty ≡ ok s.share_target_cache
      → IsU32 s.next_job_id
      → 0 < s.next_job_id
      → length s.jobs ≤ max_jobs
      → IsWindow s.submitted
      → IsSound s
  kept s target counter positive few_jobs window = record {
    session = record {
      target = target;
      counter = counter;
      positive = positive;
      few_jobs = few_jobs;
    };
    window = window;
  }

  set_difficulty-submitted :
      (s : SessionState F) (diff : F) → (set_difficulty c f s diff).submitted ≡ s.submitted
  unfolding set_difficulty
  set_difficulty-submitted s diff = ground arith

  set_difficulty-IsSound :
      (s : SessionState F) (diff : F) → IsSound s → IsSound (set_difficulty c f s diff)
  set_difficulty-IsSound s diff v = record {
    session = set_difficulty-IsSession c f s diff v.session;
    window = rw (set_difficulty-submitted s diff) v.window;
  }

  push_job-submitted :
      (s : SessionState F) (job : JobTemplate F) (diff : F) (en1 : Bytes) (ntime : Option Text)
      → (push_job c f s job diff en1 ntime).0.submitted ≡ s.submitted
  unfolding push_job
  push_job-submitted s job diff en1 ntime = set_difficulty-submitted _ diff

  pub push_job-IsSound :
      (s : SessionState F) (job : JobTemplate F) (diff : F) (en1 : Bytes) (ntime : Option Text)
      → IsSound s
      → IsSound (push_job c f s job diff en1 ntime).0
  push_job-IsSound s job diff en1 ntime v = record {
    session = push_job-IsSession c f s job diff en1 ntime v.session;
    window = rw (push_job-submitted s job diff en1 ntime) v.window;
  }

  pub note_notify_sent-IsSound :
      (s : SessionState F) (post_send : NotifyPostSend) (now : ℕ)
      → IsSound s
      → IsSound (note_notify_sent s post_send now)
  unfolding note_notify_sent
  note_notify_sent-IsSound s post_send now v =
      kept _ v.session.target v.session.counter v.session.positive v.session.few_jobs v.window

  push_again-IsSound :
      (s : SessionState F) (diff : F) (now : ℕ) (latest : Option (SessionJob F))
      → IsSound s
      → IsSound (push_again c f s diff now latest).0
  unfolding push_again
  push_again-IsSound s diff now none v = v
  push_again-IsSound s diff now (some entry) v =
      note_notify_sent-IsSound _ _ now
        (push_job-IsSound s entry.job diff s.extranonce1_bytes none v)

  -- Another state with the same difficulty, counter, jobs and keys.
  pub with_vardiff-IsSound :
      (s : SessionState F) (vardiff : VardiffController F)
      → IsSound s
      → IsSound (record s { vardiff = vardiff })
  with_vardiff-IsSound s vardiff v =
      kept _ v.session.target v.session.counter v.session.positive v.session.few_jobs v.window

  pub change_difficulty-IsSound :
      (s : SessionState F) (now : ℕ) (proposed : Option F)
      → IsSound s
      → IsSound (change_difficulty c f config s now proposed).0
  unfolding change_difficulty push_latest
  change_difficulty-IsSound s now none v = v
  change_difficulty-IsSound s now (some diff) v =
      push_again-IsSound _ diff now _ (set_difficulty-IsSound s diff v)

  retarget-IsSound :
      (s : SessionState F) (times : SubmitTimes F)
      → IsSound s
      → IsSound (retarget c f config s times).0
  unfolding retarget
  retarget-IsSound s times v =
      let (vardiff, proposed) = maybe_retarget f s.vardiff s.difficulty times.now in
      either (s.vardiff_enabled && s.bootstrap_complete)
        (change_difficulty c f config (record s { vardiff = vardiff }) times.sent_now proposed)
        (change_difficulty-IsSound (record s { vardiff = vardiff }) times.sent_now proposed
          (with_vardiff-IsSound s vardiff v))
    where
      either :
          (test : Bool) (x : SessionState F × List (Outbound F))
          → IsSound x.0
          → IsSound (if not test then (s, []) else x).0
      either true x h = h
      either false x h = v

  sampled-IsSound :
      (s : SessionState F) (now : ℕ) (diff : F) (accepted : Bool)
      → IsSound s
      → IsSound (sampled c f config s now diff accepted)
  unfolding sampled
  sampled-IsSound s now diff true v = with_vardiff-IsSound s _ v
  sampled-IsSound s now diff false v = v

  validated-IsSound :
      (s : SessionState F) (times : SubmitTimes F) (session_job : SessionJob F) (worker : Text)
      (outcome : Result (ShareResult F))
      → IsSound s
      → IsSound (validated c f config s times session_job worker outcome).0
  unfolding validated settle
  validated-IsSound s times session_job worker (err e) v = v
  validated-IsSound s times session_job worker (ok result) v =
      retarget-IsSound _ times
        (sampled-IsSound s times.now session_job.difficulty (result.accepted || result.is_block) v)

  with_keys-IsSound :
      (s : SessionState F) (keys : Submitted)
      → IsSound s
      → IsWindow keys
      → IsSound (record s { submitted = keys })
  with_keys-IsSound s keys v w =
      kept _ v.session.target v.session.counter v.session.positive v.session.few_jobs w

  submit_screened-IsSound :
      (s : SessionState F) (times : SubmitTimes F) (request : SubmitRequest)
      (session_job : SessionJob F) (version : Option Text) (keys : Submitted)
      (outside is_duplicate : Bool)
      → IsSound s
      → IsWindow keys
      → IsSound
          (submit_screened c f config s times request session_job version keys outside
            is_duplicate).0
  unfolding submit_screened validate_submit
  submit_screened-IsSound s times request session_job version keys true is_duplicate v w = v
  submit_screened-IsSound s times request session_job version keys false true v w = v
  submit_screened-IsSound s times request session_job version keys false false v w =
      validated-IsSound (record s { submitted = keys }) times session_job _ _
        (with_keys-IsSound s keys v w)

  submit_looked_up-IsSound :
      (s : SessionState F) (times : SubmitTimes F) (request : SubmitRequest) (lookup : Lookup F)
      → IsSound s
      → IsSound (submit_looked_up c f config s times request lookup).0
  unfolding submit_looked_up submit_found
  submit_looked_up-IsSound s times request Lookup.unauthorized v = v
  submit_looked_up-IsSound s times request (Lookup.missing reason) v = v
  submit_looked_up-IsSound s times request (Lookup.found session_job) v =
      let (version, outside) =
        combine_version session_job.version_mask session_job.job request.version in
      let key = submit_key c f config request session_job in
      let (keys, is_duplicate) = check_duplicate s.submitted key in
      submit_screened-IsSound s times request session_job version keys outside is_duplicate v
        (check_duplicate-IsWindow s.submitted key v.window)

  pub submit_read-IsSound :
      (s : SessionState F) (times : SubmitTimes F) (request : Result SubmitRequest)
      → IsSound s
      → IsSound (submit_read c f config s times request).0
  unfolding submit_read
  submit_read-IsSound s times (err e) v = v
  submit_read-IsSound s times (ok request) v =
      submit_looked_up-IsSound s times request (lookup_job s times.lookup_now request.job_id) v

  pub suggested-IsSound :
      (s : SessionState F) (suggested : Option F) (now : ℕ)
      → IsSound s
      → IsSound (handle_suggest_difficulty c f s config suggested now).0
  unfolding handle_suggest_difficulty push_latest
  suggested-IsSound s suggested now v =
      let target =
        suggested_initial_difficulty c f suggested config.start_difficulty config.min_difficulty
          config.max_difficulty in
      let s' = set_difficulty c f s target in
      let changed = set_difficulty-IsSound s target v in
      let pushed = push_again-IsSound s' target now (last_job s'.jobs) changed in
      ground (arith, v, changed, pushed)

  pub retain_fresh-few :
      (jobs : List (SessionJob F)) → length (retain_fresh (mark_stale jobs)) ≤ length jobs
  unfolding retain_fresh mark_stale
  retain_fresh-few [] = omega arith
  retain_fresh-few (job ∷ jobs) = ground (arith, retain_fresh-few jobs)

  pub mark_jobs_stale_block-IsSound :
      (s : SessionState F) → IsSound s → IsSound (mark_jobs_stale_block s)
  unfolding mark_jobs_stale_block
  mark_jobs_stale_block-IsSound s v =
      kept _ v.session.target v.session.counter v.session.positive
        (omega (arith, retain_fresh-few s.jobs, v.session.few_jobs)) v.window

  pub begin_authorized_session-IsSound :
      (s : SessionState F) → IsSound s → IsSound (begin_authorized_session s)
  unfolding begin_authorized_session
  begin_authorized_session-IsSound s v =
      kept _ v.session.target v.session.counter v.session.positive (omega arith) empty-IsWindow

  pub claim_bootstrap_notify-IsSound :
      (s : SessionState F) → IsSound s → IsSound (claim_bootstrap_notify s).0
  unfolding claim_bootstrap_notify
  claim_bootstrap_notify-IsSound s v =
      let claimed =
        kept (record s { bootstrap_inflight = true }) v.session.target v.session.counter
          v.session.positive v.session.few_jobs v.window in
      ground (arith, v, claimed)
