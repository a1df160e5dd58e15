-- ===== src/Session/State/Bootstrap.antt =====
-- The steps of the bootstrap notification in src/stratum.rs, and theorems on them.
use stratum_bee.Base.{ℕ, ◌≡◌, refl, true, false, ◌&&◌, ◌||◌, arith}
use stratum_bee.Session.State.{
  SessionState, NotifyPostSend, begin_authorized_session, claim_bootstrap_notify,
  mark_jobs_stale_block, note_notify_sent,
}

module _ {F : Type 0} where
  -- What the tasks of a session do with its bootstrap flags, apart from a new authorization.
  pub data Step : SessionState F → SessionState F → Type 0 where
    claim : {s : SessionState F} → Step s (claim_bootstrap_notify s).0
    sent :
        {s : SessionState F} (post_send : NotifyPostSend) (now : ℕ)
        → Step s (note_notify_sent s post_send now)
    new_block : {s : SessionState F} → Step s (mark_jobs_stale_block s)

  pub data Steps : SessionState F → SessionState F → Type 0 where
    done : {s : SessionState F} → Steps s s
    next : {s t u : SessionState F} → Step s t → Steps t u → Steps s u

  -- The bootstrap is never both complete and under way.
  pub IsBootstrap : SessionState F → Type 0
  IsBootstrap s = (s.bootstrap_complete && s.bootstrap_inflight) ≡ false

  IsTaken : SessionState F → Type 0
  IsTaken s = (s.bootstrap_complete || s.bootstrap_inflight) ≡ true

  Step-IsTaken : (s t : SessionState F) → Step s t → IsTaken s → IsTaken t
  unfolding claim_bootstrap_notify note_notify_sent mark_jobs_stale_block IsTaken
  Step-IsTaken s t Step.claim h = ground arith
  Step-IsTaken s t (Step.sent post_send now) h = ground arith
  Step-IsTaken s t Step.new_block h = h

  Steps-IsTaken : (s t : SessionState F) → Steps s t → IsTaken s → IsTaken t
  Steps-IsTaken s t Steps.done h = h
  Steps-IsTaken s t (Steps.next step steps) h = Steps-IsTaken _ t steps (Step-IsTaken s _ step h)

  claim-IsTaken : (s : SessionState F) → IsTaken (claim_bootstrap_notify s).0
  unfolding claim_bootstrap_notify IsTaken
  claim-IsTaken s = ground arith

  taken-claim : (s : SessionState F) → IsTaken s → (claim_bootstrap_notify s).1 ≡ false
  unfolding claim_bootstrap_notify IsTaken
  taken-claim s h = ground arith

  -- After a claim of the bootstrap notification, whatever it answered, every claim fails after any
  -- sequence of claims, sent notifications and new blocks.
  pub claim_bootstrap_notify-once :
      (s t : SessionState F)
      → Steps (claim_bootstrap_notify s).0 t
      → (claim_bootstrap_notify t).1 ≡ false
  claim_bootstrap_notify-once s t steps = taken-claim t (Steps-IsTaken _ t steps (claim-IsTaken s))

  -- A newly authorized session can claim.
  pub begin_authorized_session-claim :
      (s : SessionState F) → (claim_bootstrap_notify (begin_authorized_session s)).1 ≡ true
  unfolding begin_authorized_session claim_bootstrap_notify
  begin_authorized_session-claim s = refl

  -- Each step keeps the bootstrap from being both complete and under way.
  pub Step-IsBootstrap : (s t : SessionState F) → Step s t → IsBootstrap s → IsBootstrap t
  unfolding claim_bootstrap_notify note_notify_sent mark_jobs_stale_block IsBootstrap
  Step-IsBootstrap s t Step.claim h = ground arith
  Step-IsBootstrap s t (Step.sent post_send now) h = ground arith
  Step-IsBootstrap s t Step.new_block h = h
