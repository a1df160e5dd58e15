-- ===== src/Session/Steps.antt =====
-- Theorems on any sequence of requests and events of a session (src/stratum.rs).
use stratum_bee.Base.{Text, ℕ, Bool, true, false, Option, none, List, arith}
use stratum_bee.Config.{Config}
use stratum_bee.Crates.{Crates}
use stratum_bee.Float.{FloatOps}
use stratum_bee.Job.{JobTemplate}
use stratum_bee.Vardiff.{maybe_retarget}
use stratum_bee.Session.State.{
  SessionState, NotifyPostSend, try_consume, begin_authorized_session, claim_bootstrap_notify,
  mark_jobs_stale_block, note_notify_sent, session_job, push_job,
}
use stratum_bee.Session.Requests.{build_miner_label, handle_configure, handle_suggest_difficulty}
use stratum_bee.Session.Submit.Request.{read_submit}
use stratum_bee.Session.Submit.Effects.{SubmitTimes}
use stratum_bee.Session.Submit.{handle_submit}
use stratum_bee.Session.Notify.{
  NotifyAction, send_job, limited_job, notify_action, act, on_template, first_job,
  authorized_session, on_authorize, vardiff_tick,
}
use stratum_bee.Metrics.Counters.{PoolCounters}
use stratum_bee.Session.Sound.{
  IsSound, kept, push_job-IsSound, note_notify_sent-IsSound, with_vardiff-IsSound,
  change_difficulty-IsSound, submit_read-IsSound, suggested-IsSound, mark_jobs_stale_block-IsSound,
  begin_authorized_session-IsSound, claim_bootstrap_notify-IsSound,
}

module _ {F : Type 0} (c : Crates) (f : FloatOps F) (config : Config F) where
  send_job-IsSound :
      (s : SessionState F) (counters : PoolCounters) (job : JobTemplate F)
      (clean_jobs bootstrap : Bool)
      → IsSound c f config s
      → IsSound c f config (send_job c f s counters job clean_jobs bootstrap).state
  unfolding send_job
  send_job-IsSound s counters job true bootstrap v =
      let s' = mark_jobs_stale_block s in
      push_job-IsSound c f config s' job s'.difficulty s'.extranonce1_bytes none
        (mark_jobs_stale_block-IsSound c f config s v)
  send_job-IsSound s counters job false bootstrap v =
      push_job-IsSound c f config s job s.difficulty s.extranonce1_bytes none v

  limited_job-IsSound :
      (s : SessionState F) (counters : PoolCounters) (job : JobTemplate F) (now : ℕ)
      → IsSound c f config s
      → IsSound c f config (limited_job c f s counters job now).state
  unfolding limited_job
  limited_job-IsSound s counters job now v =
      let bucket = (try_consume f s.notify_bucket now).0 in
      let drained =
        kept c f config (record s { notify_bucket = bucket }) v.session.target v.session.counter
          v.session.positive v.session.few_jobs v.window in
      ground (
        arith,
        drained,
        send_job-IsSound s counters job true false v,
        send_job-IsSound (record s { notify_bucket = bucket }) counters job false false drained,
      )

  notify_action-IsSound :
      (s : SessionState F) (counters : PoolCounters) (job : JobTemplate F) (now : ℕ)
      → IsSound c f config s
      → IsSound c f config (notify_action c f s counters job now).state
  unfolding notify_action
  notify_action-IsSound s counters job now v =
      let claimed = claim_bootstrap_notify-IsSound c f config s v in
      ground (
        arith,
        v,
        limited_job-IsSound s counters job now v,
        send_job-IsSound (claim_bootstrap_notify s).0 counters job true true claimed,
      )

  act-IsSound :
      (state : SessionState F) (counters : PoolCounters) (action : NotifyAction F) (now : ℕ)
      → IsSound c f config state
      → IsSound c f config
          (act c f (record { state = state; counters = counters; action = action }) now).0
  unfolding act
  act-IsSound state counters NotifyAction.skip now v = v
  act-IsSound state counters NotifyAction.wait_for_bootstrap now v = v
  act-IsSound state counters (NotifyAction.send session_job clean_jobs post_send) now v =
      note_notify_sent-IsSound c f config state post_send now v

  pub on_template-IsSound :
      (s : SessionState F) (counters : PoolCounters) (job : JobTemplate F) (now sent_now : ℕ)
      → IsSound c f config s
      → IsSound c f config (on_template c f s counters job now sent_now).0
  unfolding on_template
  on_template-IsSound s counters job now sent_now v =
      let decided = notify_action c f s counters job now in
      act-IsSound decided.state decided.counters decided.action sent_now
        (notify_action-IsSound s counters job now v)

  first_job-IsSound :
      (s : SessionState F) (current : JobTemplate F) (now : ℕ)
      → IsSound c f config s
      → IsSound c f config (first_job c f s current now).0
  unfolding first_job
  first_job-IsSound s current now v =
      let idle =
        kept c f config (record s { bootstrap_inflight = false }) v.session.target v.session.counter
          v.session.positive v.session.few_jobs v.window in
      let pushed =
        note_notify_sent-IsSound c f config _
          (record { prevhash = current.prevhash_le; clean_jobs = true; complete_bootstrap = true })
          now (push_job-IsSound c f config s current s.difficulty s.extranonce1_bytes none v) in
      ground (arith, v, idle, pushed)

  pub on_authorize-IsSound :
      (s : SessionState F) (password : Option Text) (current : JobTemplate F) (now : ℕ)
      → IsSound c f config s
      → IsSound c f config (on_authorize c f s config password current now).0
  unfolding on_authorize authorized_session
  on_authorize-IsSound s password current now v =
      let w = begin_authorized_session-IsSound c f config s v in
      let begun =
        kept c f config
          (record (begin_authorized_session s) {
            bootstrap_inflight = true;
            worker =
                build_miner_label (begin_authorized_session s).user_agent
                  (begin_authorized_session s).extranonce1;
          })
          w.session.target w.session.counter w.session.positive w.session.few_jobs w.window in
      ground (arith, v, first_job-IsSound _ current now begun)

  pub vardiff_tick-IsSound :
      (s : SessionState F) (now sent_now : ℕ)
      → IsSound c f config s
      → IsSound c f config (vardiff_tick c f s config now sent_now).0
  unfolding vardiff_tick
  vardiff_tick-IsSound s now sent_now v =
      let (vardiff, proposed) = maybe_retarget f s.vardiff s.difficulty now in
      ground (
        arith,
        v,
        change_difficulty-IsSound c f config (record s { vardiff = vardiff }) sent_now proposed
            (with_vardiff-IsSound c f config s vardiff v),
      )

  pub data SessionStep : SessionState F → SessionState F → Type 0 where
    share_submitted :
        (s : SessionState F) (times : SubmitTimes F) (params : List (Option Text))
        → SessionStep s (handle_submit c f config s times params).0
    difficulty_suggested :
        (s : SessionState F) (suggested : Option F) (now : ℕ)
        → SessionStep s (handle_suggest_difficulty c f s config suggested now).0
    mask_configured :
        (s : SessionState F) (current : JobTemplate F) (extensions : List Text)
        (requested : Option Text)
        → SessionStep s (handle_configure s current extensions requested).0
    session_begun : (s : SessionState F) → SessionStep s (begin_authorized_session s)
    bootstrap_claimed : (s : SessionState F) → SessionStep s (claim_bootstrap_notify s).0
    jobs_staled : (s : SessionState F) → SessionStep s (mark_jobs_stale_block s)
    job_pushed :
        (s : SessionState F) (job : JobTemplate F) (diff : F) (ntime : Option Text)
        → SessionStep s (push_job c f s job diff s.extranonce1_bytes ntime).0
    template_sent :
        (s : SessionState F) (counters : PoolCounters) (job : JobTemplate F) (now sent_now : ℕ)
        → SessionStep s (on_template c f s counters job now sent_now).0
    authorization_asked :
        (s : SessionState F) (password : Option Text) (current : JobTemplate F) (now : ℕ)
        → SessionStep s (on_authorize c f s config password current now).0
    vardiff_ticked :
        (s : SessionState F) (now sent_now : ℕ)
        → SessionStep s (vardiff_tick c f s config now sent_now).0
    notify_noted :
        (s : SessionState F) (post_send : NotifyPostSend) (now : ℕ)
        → SessionStep s (note_notify_sent s post_send now)

  pub data SessionSteps : SessionState F → SessionState F → Type 0 where
    done : (s : SessionState F) → SessionSteps s s
    later :
        {s s' s'' : SessionState F} → SessionStep s s' → SessionSteps s' s'' → SessionSteps s s''

  -- A step keeps the session well formed.
  step-IsSound :
      {s s' : SessionState F} → SessionStep s s' → IsSound c f config s → IsSound c f config s'
  unfolding handle_submit handle_configure
  step-IsSound (SessionStep.share_submitted s times params) v =
      submit_read-IsSound c f config s times (read_submit config.extranonce2_size params) v
  step-IsSound (SessionStep.difficulty_suggested s suggested now) v =
      suggested-IsSound c f config s suggested now v
  step-IsSound (SessionStep.mask_configured s current extensions requested) v =
      kept c f config _ v.session.target v.session.counter v.session.positive v.session.few_jobs
        v.window
  step-IsSound (SessionStep.session_begun s) v = begin_authorized_session-IsSound c f config s v
  step-IsSound (SessionStep.bootstrap_claimed s) v = claim_bootstrap_notify-IsSound c f config s v
  step-IsSound (SessionStep.jobs_staled s) v = mark_jobs_stale_block-IsSound c f config s v
  step-IsSound (SessionStep.job_pushed s job diff ntime) v =
      push_job-IsSound c f config s job diff s.extranonce1_bytes ntime v
  step-IsSound (SessionStep.template_sent s counters job now sent_now) v =
      on_template-IsSound s counters job now sent_now v
  step-IsSound (SessionStep.authorization_asked s password current now) v =
      on_authorize-IsSound s password current now v
  step-IsSound (SessionStep.vardiff_ticked s now sent_now) v = vardiff_tick-IsSound s now sent_now v
  step-IsSound (SessionStep.notify_noted s post_send now) v =
      note_notify_sent-IsSound c f config s post_send now v

  -- Any sequence of submissions, suggested difficulties, configured masks, authorizations, jobs of
  -- the engine, changes of difficulty, notifications, new blocks and claims keeps a session well
  -- formed: its target is that of its difficulty, its counter is a positive 32-bit number, it has
  -- at most 32 jobs, and its submitted keys are a window of different keys.
  pub session_steps-IsSound :
      {s s' : SessionState F} → SessionSteps s s' → IsSound c f config s → IsSound c f config s'
  session_steps-IsSound (SessionSteps.done s) v = v
  session_steps-IsSound (SessionSteps.later step steps) v =
      session_steps-IsSound steps (step-IsSound step v)
