-- ===== src/Session/Notify/NewBlock.antt =====
-- Theorems on the jobs that a session is sent (src/stratum.rs).
use stratum_bee.Base.{
  ◌==◌, if◌then◌else◌, Bool-cases, Bytes, Text, text_eq, text_eq→eq, ℕ, ◌+◌, ◌%◌, ◌^◌, max, ◌≡◌,
  refl, ap, inl, inr, Bool, true, false, Option, none, some, [], ◌∷◌, arith,
}
use stratum_bee.Crates.{Crates}
use stratum_bee.Float.{FloatOps}
use stratum_bee.Job.{JobTemplate}
use stratum_bee.Session.State.{
  SessionJob, SessionState, NotifyPostSend, trim_jobs, is_new_prevhash, claim_bootstrap_notify,
  mark_jobs_stale_block, should_clean_jobs, set_difficulty, session_job, push_job,
}
use stratum_bee.Metrics.Counters.{PoolCounters}
use stratum_bee.Session.State.Jobs.{retain_fresh-mark_stale}
use stratum_bee.Session.Notify.{NotifyAction, Decided, send_job, limited_job, notify_action}

module _ {F : Type 0} (c : Crates) (f : FloatOps F) where
  set_difficulty-jobs : (s : SessionState F) (diff : F) → (set_difficulty c f s diff).jobs ≡ s.jobs
  unfolding set_difficulty
  set_difficulty-jobs s diff = ground arith

  push_job-only :
      (s : SessionState F) (job : JobTemplate F) (diff : F) (en1 : Bytes) (ntime : Option Text)
      → s.jobs ≡ []
      → let (s', entry) = push_job c f s job diff en1 ntime in
        (s'.jobs ≡ entry ∷ []) × (entry.job ≡ job)
  unfolding push_job session_job trim_jobs
  push_job-only s job diff en1 ntime none_before =
      let s' = record s {
        next_job_id = max (((if s.next_job_id == 0 then 1 else s.next_job_id) + 1) % 2 ^ 32) 1;
      } in
      (rw (set_difficulty-jobs s' diff, none_before) refl, refl)

  mark_jobs_stale_block-jobs : (s : SessionState F) → (mark_jobs_stale_block s).jobs ≡ []
  unfolding mark_jobs_stale_block
  mark_jobs_stale_block-jobs s = retain_fresh-mark_stale s.jobs

  -- The session has the job and no other one, and the job is sent as one that cleans the others.
  pub record IsOnly (job : JobTemplate F) (decided : Decided F) : Type 0 where
    pub entry : SessionJob F
    pub post_send : NotifyPostSend
    pub listed : decided.state.jobs ≡ entry ∷ []
    pub of_job : entry.job ≡ job
    pub sent_eq : decided.action ≡ NotifyAction.send entry true post_send
    pub noted : post_send.prevhash ≡ job.prevhash_le

  send_job-IsOnly :
      (s : SessionState F) (counters : PoolCounters) (job : JobTemplate F) (bootstrap : Bool)
      → IsOnly job (send_job c f s counters job true bootstrap)
  unfolding send_job
  send_job-IsOnly s counters job bootstrap =
      let s' = mark_jobs_stale_block s in
      let (only, same) =
        push_job-only s' job s'.difficulty s'.extranonce1_bytes none
          (mark_jobs_stale_block-jobs s) in
      record {
        entry = _;
        post_send = _;
        listed = only;
        of_job = same;
        sent_eq = refl;
        noted = refl;
      }

  is_new_prevhash-changed :
      (last : Option Text) (prevhash : Text)
      → ¬ (last ≡ some prevhash)
      → is_new_prevhash last prevhash ≡ true
  unfolding is_new_prevhash
  is_new_prevhash-changed none prevhash changed = refl
  is_new_prevhash-changed (some prev) prevhash changed = elim (Bool-cases (text_eq prev prevhash)) [
    | inl same ↦ absurd (changed (ap some (text_eq→eq prev prevhash same)))
    | inr other ↦ rw other refl
  ]

  should_clean_jobs-new :
      (s : SessionState F) (job : JobTemplate F)
      → ¬ (s.last_prevhash ≡ some job.prevhash_le)
      → should_clean_jobs s job ≡ true
  unfolding should_clean_jobs
  should_clean_jobs-new s job changed =
      ground (arith, is_new_prevhash-changed s.last_prevhash job.prevhash_le changed)

  -- A ready job on another block than the last one sent, for an authorized session with no
  -- bootstrap in flight, is always sent, whatever the rate limit: as one that cleans the old jobs,
  -- and it is then the only job of the session.
  pub notify_action-IsOnly :
      (s : SessionState F) (counters : PoolCounters) (job : JobTemplate F) (now : ℕ)
      → job.ready ≡ true
      → s.authorized ≡ true
      → s.bootstrap_inflight ≡ false
      → ¬ (s.last_prevhash ≡ some job.prevhash_le)
      → IsOnly job (notify_action c f s counters job now)
  unfolding notify_action limited_job
  notify_action-IsOnly s counters job now ready authorized idle changed = ground (
    arith,
    ready,
    authorized,
    idle,
    should_clean_jobs-new s job changed,
    send_job-IsOnly (claim_bootstrap_notify s).0 counters job true,
    send_job-IsOnly s counters job false,
  )
