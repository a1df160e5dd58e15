-- ===== src/Session/Notify.antt =====
-- The tasks of `handle_client` in src/stratum.rs that send jobs: the one that follows the template engine,
-- the one that retargets at intervals, and `mining.authorize` with its first job. The times are
-- arguments; the record of the miner in the metrics is left out.
pub mod NewBlock
use mathlib.Core.Option
use stratum_bee.Base.{
  if◌then◌else◌, Text, ℕ, Bool, true, false, not, ◌&&◌, ◌||◌, Option, none, List, [], ◌∷◌,
}
use stratum_bee.Config.{Config}
use stratum_bee.Crates.{Crates}
use stratum_bee.Float.{FloatOps}
use stratum_bee.Job.{JobTemplate}
use stratum_bee.Metrics.Counters.{PoolCounters, inc_jobs_sent, inc_notify_rate_limited}
use stratum_bee.Session.State.{
  SessionJob, SessionState, NotifyPostSend, try_consume, begin_authorized_session,
  claim_bootstrap_notify, mark_jobs_stale_block, should_clean_jobs, note_notify_sent, session_job,
  push_job,
}
use stratum_bee.Session.Messages.{Outbound, build_notify_dispatch}
use stratum_bee.Vardiff.{maybe_retarget}
use stratum_bee.Session.Submit.{change_difficulty}
use stratum_bee.Session.Requests.{build_miner_label, handle_authorize}

pub data NotifyAction (F : Type 0) : Type 0 where
  skip : NotifyAction F
  wait_for_bootstrap : NotifyAction F
  -- The job that was pushed, whose dispatch is sent, and what is noted then.
  send :
      (session_job : SessionJob F) (clean_jobs : Bool) (post_send : NotifyPostSend) → NotifyAction F

-- A session with the counters of the pool and an action.
pub record Decided (F : Type 0) : Type 0 where
  pub state : SessionState F
  pub counters : PoolCounters
  pub action : NotifyAction F

module _ {F : Type 0} (c : Crates) (f : FloatOps F) where
  -- A job is pushed at the session's difficulty, behind the old ones or in their place.
  unfoldable pub send_job : SessionState F → PoolCounters → JobTemplate F → Bool → Bool → Decided F
  send_job s counters job clean_jobs bootstrap_notify =
      let s' = if clean_jobs then mark_jobs_stale_block s else s in
      let (s'', session_job) = push_job c f s' job s'.difficulty s'.extranonce1_bytes none in
      record {
        state = s'';
        counters = counters;
        action = NotifyAction.send session_job clean_jobs (record {
          prevhash = job.prevhash_le;
          clean_jobs = clean_jobs;
          complete_bootstrap = bootstrap_notify;
        });
      }

  -- Behind the bootstrap: a job that does not clean the old ones takes a token.
  unfoldable pub limited_job : SessionState F → PoolCounters → JobTemplate F → ℕ → Decided F
  limited_job s counters job now =
      if should_clean_jobs s job
      then send_job s counters job true false
      else (let (bucket, taken) = try_consume f s.notify_bucket now in
          let s' = record s { notify_bucket = bucket } in
          if taken then send_job s' counters job false false else record {
            state = s';
            counters = inc_notify_rate_limited counters;
            action = NotifyAction.skip;
          })

  -- What is done about a job of the engine.
  unfoldable pub notify_action : SessionState F → PoolCounters → JobTemplate F → ℕ → Decided F
  notify_action s counters job now =
      if not job.ready || not s.authorized
      then record { state = s; counters = counters; action = NotifyAction.skip }
      else if not s.bootstrap_complete && s.bootstrap_inflight
      then record { state = s; counters = counters; action = NotifyAction.wait_for_bootstrap }
      else if not s.bootstrap_complete
      then send_job (claim_bootstrap_notify s).0 counters job true true
      else limited_job s counters job now

  -- The action done: the session, the counters and the messages.
  unfoldable pub act : Decided F → ℕ → SessionState F × PoolCounters × List (Outbound F)
  act decided sent_now = elim decided.action [
    | NotifyAction.skip ↦ (decided.state, decided.counters, [])
    | NotifyAction.wait_for_bootstrap ↦ (decided.state, decided.counters, [])
    | NotifyAction.send session_job clean_jobs post_send ↦ (
      note_notify_sent decided.state post_send sent_now,
      inc_jobs_sent decided.counters clean_jobs,
      build_notify_dispatch session_job clean_jobs,
    )
  ]

  unfoldable pub on_template :
      SessionState F
      → PoolCounters
      → JobTemplate F
      → ℕ
      → ℕ
      → SessionState F × PoolCounters × List (Outbound F)
  on_template s counters job now sent_now = act (notify_action s counters job now) sent_now

  -- The first job of an authorized session, if the engine has one.
  unfoldable pub first_job : SessionState F → JobTemplate F → ℕ → SessionState F × List (Outbound F)
  first_job s current now =
      if not (s.authorized && (s.bootstrap_inflight && not s.bootstrap_complete))
      then (s, [])
      else if not current.ready
      then (record s { bootstrap_inflight = false }, [])
      else (let (s', session_job) = push_job c f s current s.difficulty s.extranonce1_bytes none in
          (
            note_notify_sent s'
                (record {
                  prevhash = current.prevhash_le;
                  clean_jobs = true;
                  complete_bootstrap = true;
                })
                now,
            build_notify_dispatch session_job true,
          ))

  -- `begin_authorized_session`, with the bootstrap claimed and the miner's label.
  unfoldable pub authorized_session : SessionState F → SessionState F
  authorized_session s =
      let s' = begin_authorized_session s in
      record s' {
        bootstrap_inflight = true;
        worker = build_miner_label s'.user_agent s'.extranonce1;
      }

  unfoldable pub on_authorize :
      SessionState F
      → Config F
      → Option Text
      → JobTemplate F
      → ℕ
      → SessionState F × List (Outbound F)
  on_authorize s config password current now =
      if not (handle_authorize config password)
      then (s, Outbound.replied false ∷ [])
      else (let s' = authorized_session s in
          let (s'', messages) = first_job s' current now in
          (s'', Outbound.replied true ∷ Outbound.difficulty_set s'.difficulty ∷ messages))

  -- A turn of the task that retargets.
  unfoldable pub vardiff_tick :
      SessionState F → Config F → ℕ → ℕ → SessionState F × List (Outbound F)
  vardiff_tick s config now sent_now =
      if not (s.authorized && s.bootstrap_complete)
      then (s, [])
      else (let (vardiff, proposed) = maybe_retarget f s.vardiff s.difficulty now in
          change_difficulty c f config (record s { vardiff = vardiff }) sent_now proposed)
