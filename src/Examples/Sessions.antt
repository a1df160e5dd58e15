-- ===== src/Examples/Sessions.antt =====
-- A session at concrete values.
use stratum_bee.Base.{
  if◌then◌else◌, codes, ℕ, ◌-◌, ◌*◌, ◌≤◌, ◌≡◌, refl, true, false, Option, none, some, [], ◌∷◌,
  arith,
}
use stratum_bee.Job.{JobTemplate, empty_template}
use stratum_bee.Share.{share_target_le}
use stratum_bee.Vardiff.{
  VardiffController, new_controller, nearest_p2, sum_diff, last_time, span_secs, retarget_offline,
  update_ema, retarget_online, maybe_retarget,
}
use stratum_bee.Vardiff.Bounds.{Within, maybe_retarget_bounds}
use stratum_bee.Session.Dedup.{DupKey, Submitted, contains, check_duplicate, build_dup_key}
use stratum_bee.Session.Dedup.Window.{
  IsWindow, slide, check_duplicate-slide, check_all, check_duplicate-again,
}
use stratum_bee.Session.State.{
  SessionState, NotifyPostSend, claim_bootstrap_notify, note_notify_sent, find_job, target_or_max,
  new_session, push_job,
}
use stratum_bee.Session.State.Jobs.{IsSession, find_job-push_job}
use stratum_bee.Session.State.Bootstrap.{Step, Steps, claim_bootstrap_notify-once}
use stratum_bee.Examples.Toys.{
  le_digits, toy_to_bytes_be, toy_crates, toy_log2, toy_floats, toy_float_laws,
}

abbrev a_key : DupKey
a_key =
    build_dup_key toy_crates (codes "00000001") (codes "0000002a") (codes "00000400") (codes "0001")
      (codes "20000000")

abbrev b_key : DupKey
b_key =
    build_dup_key toy_crates (codes "00000001") (codes "0000002b") (codes "00000400") (codes "0001")
      (codes "20000000")

abbrev pub no_keys : Submitted
no_keys = record { hashes = []; order = [] }

pub no_keys-IsWindow : IsWindow no_keys
no_keys-IsWindow = record { same = refl; distinct = tt; bounded = omega arith }

check_duplicate-slide_example : check_duplicate no_keys a_key ≡ (
    if contains no_keys.order a_key
    then (no_keys, true)
    else (record { hashes = slide no_keys.order a_key; order = slide no_keys.order a_key }, false))
check_duplicate-slide_example = check_duplicate-slide no_keys a_key no_keys-IsWindow

fresh_key : (check_duplicate no_keys a_key).1 ≡ false
unfolding check_duplicate contains
fresh_key = refl

check_duplicate-again_example :
    (check_duplicate (check_all (check_duplicate no_keys a_key).0 (b_key ∷ [])) a_key).1 ≡ true
check_duplicate-again_example =
    check_duplicate-again no_keys a_key (b_key ∷ []) no_keys-IsWindow fresh_key (omega arith)

-- A controller that has seen three shares in a minute.
abbrev toy_vardiff : VardiffController ℕ
toy_vardiff = record (new_controller toy_floats 0 10 30 1 1024) {
  samples = (1_000, 16) ∷ (30_000, 16) ∷ (60_000, 16) ∷ [];
}

abbrev toy_retarget : Option ℕ
toy_retarget = (maybe_retarget toy_floats toy_vardiff 512 100_000).1

retargeted : toy_retarget ≡ some 1
unfolding maybe_retarget new_controller retarget_online retarget_offline span_secs last_time
    nearest_p2 update_ema sum_diff toy_log2
retargeted = refl

ordered : toy_floats.lt toy_vardiff.max_diff toy_vardiff.min_diff ≡ false
unfolding new_controller
ordered = refl

maybe_retarget_bounds_example :
    let after = (maybe_retarget toy_floats toy_vardiff 512 100_000).0 in
    Within toy_floats toy_float_laws toy_vardiff.min_diff toy_vardiff.max_diff 1
    × (toy_vardiff.retarget_time * 1000 ≤ 100_000 - toy_vardiff.last_retarget)
    × (after.last_retarget ≡ 100_000)
    × (after.min_diff ≡ toy_vardiff.min_diff)
    × (after.max_diff ≡ toy_vardiff.max_diff)
maybe_retarget_bounds_example =
    maybe_retarget_bounds toy_floats toy_float_laws toy_vardiff 512 100_000 1 ordered retargeted

abbrev pub toy_session : SessionState ℕ
toy_session =
    new_session toy_crates toy_floats 0 (codes "00000001") (0 ∷ 0 ∷ 0 ∷ 1 ∷ []) 16 10 30 1 1024 true
      4 500

pub toy_session-IsSession : IsSession toy_crates toy_floats toy_session
unfolding new_session target_or_max share_target_le toy_to_bytes_be le_digits
toy_session-IsSession = record {
  target = refl;
  counter = omega arith;
  positive = omega arith;
  few_jobs = omega arith;
}

abbrev toy_template : JobTemplate ℕ
toy_template = record (empty_template toy_floats 0) { ready = true; ntime = codes "00000400" }

find_job-push_job_example :
    let (s', entry) =
      push_job toy_crates toy_floats toy_session toy_template 32 (0 ∷ 0 ∷ 0 ∷ 1 ∷ []) none in
    find_job s' entry.session_job_id ≡ some entry
find_job-push_job_example =
    find_job-push_job toy_crates toy_floats toy_session toy_template 32 (0 ∷ 0 ∷ 0 ∷ 1 ∷ []) none
      toy_session-IsSession

abbrev with_job : SessionState ℕ
with_job = (push_job toy_crates toy_floats toy_session toy_template 32 (0 ∷ 0 ∷ 0 ∷ 1 ∷ []) none).0

abbrev toy_post_send : NotifyPostSend
toy_post_send = record { prevhash = codes "00"; clean_jobs = true; complete_bootstrap = true }

claim_bootstrap_notify-once_example :
    (claim_bootstrap_notify
      (note_notify_sent (claim_bootstrap_notify toy_session).0 toy_post_send 5)).1
    ≡ false
claim_bootstrap_notify-once_example =
    claim_bootstrap_notify-once toy_session
      (note_notify_sent (claim_bootstrap_notify toy_session).0 toy_post_send 5)
      (Steps.next (Step.sent toy_post_send 5) Steps.done)
