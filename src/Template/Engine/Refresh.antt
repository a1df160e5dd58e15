-- ===== src/Template/Engine/Refresh.antt =====
-- The refreshes of `TemplateEngine` in src/template.rs: `apply_gbt_response`, `refresh_template`, a
-- round of `longpoll_loop` and a message of `zmq_block_loop`. What the node answers and the time are
-- arguments. A method that takes the permit gives it back before it returns, so the
-- permit is only found taken where another task holds it.
pub mod Retry
use mathlib.Core.Option
use stratum_bee.Base.{
  if◌then◌else◌, Text, codes, text_eq, Result, ok, err, ℕ, ◌+◌, ◌%◌, ◌^◌, Bool, true, false, not,
  Option, none, some, List, [], ◌∷◌,
}
use stratum_bee.Config.{Config}
use stratum_bee.Crates.{Crates}
use stratum_bee.Float.{FloatOps}
use stratum_bee.Job.{TemplateSource, JobTemplate}
use stratum_bee.Merkle.{compute_txid_partial_root}
use stratum_bee.Metrics.Counters.{inc_zmq_block_received, inc_zmq_blocks_detected}
use stratum_bee.Encoding.Decimal.{to_decimal, bool_text, join_texts}
use stratum_bee.Template.Rules.{
  validate_template_rules, is_gbt_older_than_current, take_pending_refresh_source,
  should_fire_block_zmq_trigger,
}
use stratum_bee.Template.Engine.{
  GbtResponse, TemplateEngine, store_pending_refresh_source, note_gbt_success,
  update_chain_tip_from_job, publish_job, note_deduped,
}
use stratum_bee.Template.Engine.Job.{build_job}

-- `format!("{}:{}:{}:{}:{}:{}:{}:{}", ..)`
unfoldable pub gbt_template_key : GbtResponse → Text → Text
gbt_template_key gbt txid_root = join_texts (codes ":") (
    gbt.previousblockhash
    ∷ gbt.bits
    ∷ to_decimal gbt.version
    ∷ to_decimal gbt.vbrequired
    ∷ join_texts (codes ",") gbt.rules
    ∷ Option.get_or gbt.longpollid []
    ∷ bool_text (Option.get_or gbt.submitold true)
    ∷ txid_root
    ∷ [])

-- `key_guard.as_deref() == Some(&key)`
unfoldable pub is_key : Option Text → Text → Bool
is_key none key = false
is_key (some last_key) key = text_eq last_key key

-- One request of `refresh_template`: the node's answer, the time, and what the other tasks make of
-- the engine while the answer is awaited, behind its application, and once the success is noted.
-- They may hold the permit, publish jobs, store a pending source or take it.
pub record RefreshRound (F : Type 0) : Type 0 where
  pub answer : Result GbtResponse
  pub now : ℕ
  pub awaited : TemplateEngine F → TemplateEngine F
  pub applied : TemplateEngine F → TemplateEngine F
  pub noted : TemplateEngine F → TemplateEngine F

-- `tokio::time::timeout(.., call_longpoll(..))`
pub data LongpollAnswer : Type 0 where
  answered : (gbt : GbtResponse) → LongpollAnswer
  failed : LongpollAnswer
  timed_out : LongpollAnswer

-- The source that the topic of a message names.
unfoldable pub zmq_source : Text → Option TemplateSource
zmq_source topic =
    if text_eq topic (codes "hashblock")
    then some TemplateSource.zmq_hashblock
    else if text_eq topic (codes "rawblock")
    then some TemplateSource.zmq_rawblock
    else none

module _ {F : Type 0} where
  -- `should_fire_block_zmq_trigger`, on the engine's cell, with the source of the refresh that is spawned.
  unfoldable pub fire_zmq :
      TemplateEngine F → ℕ → TemplateSource → TemplateEngine F × Option TemplateSource
  fire_zmq s now source =
      let (last_trigger_ms, fires) =
        should_fire_block_zmq_trigger s.last_zmq_block_trigger_ms now in
      if fires
      then (
        record s {
          last_zmq_block_trigger_ms = last_trigger_ms;
          counters = inc_zmq_blocks_detected s.counters;
        },
        some source,
      )
      else (s, none)

  unfoldable pub note_zmq_block : TemplateEngine F → TemplateEngine F
  note_zmq_block s = record s { counters = inc_zmq_block_received s.counters }

  -- A message with its topic, and whether its second part could be received; where it could not,
  -- the message counts as received only if it fires.
  unfoldable pub on_zmq_message :
      TemplateEngine F → ℕ → Option Text → Bool → TemplateEngine F × Option TemplateSource
  on_zmq_message s now none received = (s, none)
  on_zmq_message s now (some topic) received = elim (zmq_source topic) [
    | none ↦ (s, none)
    | some source ↦
        if received
        then fire_zmq (note_zmq_block s) now source
        else (let (s', spawned) = fire_zmq s now source in
            elim spawned [ none ↦ (s', none) | some source' ↦ (note_zmq_block s', some source') ])
  ]

  -- `take_pending_refresh_source`, on the engine's cell.
  unfoldable pub take_pending : TemplateEngine F → TemplateEngine F × Option TemplateSource
  take_pending s =
      let (slot, source) = take_pending_refresh_source s.refresh_pending_source in
      (record s { refresh_pending_source = slot }, source)

  -- The turn of the loop behind `apply_gbt_response(gbt, source).await`.
  unfoldable pub applied_round :
      RefreshRound F
      → TemplateEngine F × Result (Unit {0})
      → TemplateEngine F × Result (Option TemplateSource)
  applied_round round (s, err e) = (s, err e)
  applied_round round (s, ok done) =
      let (s', next) = take_pending (round.noted (note_gbt_success (round.applied s) round.now)) in
      (s', ok next)

module _ {F : Type 0} (c : Crates) (f : FloatOps F) (config : Config F) where
  -- `update_chain_tip_from_job` and `publish_job` of a job that took the counter's number.
  unfoldable pub publish_built : TemplateEngine F → JobTemplate F → Text → TemplateEngine F
  publish_built s job key =
      publish_job
        (update_chain_tip_from_job c (record s { job_counter = (s.job_counter + 1) % 2 ^ 64 }) job)
        job key

  unfoldable pub note_longpollid : TemplateEngine F → Option Text → TemplateEngine F
  note_longpollid s none = s
  note_longpollid s (some longpoll_id) = record s { last_longpollid = some longpoll_id }

  -- From the template's key on, with the permit held.
  unfoldable pub publish_new :
      TemplateEngine F
      → ℕ
      → GbtResponse
      → TemplateSource
      → Text
      → TemplateEngine F × Result (Unit {0})
  publish_new s now gbt source txid_root =
      let key = gbt_template_key gbt txid_root in
      if is_key s.last_template_key key
      then (note_deduped s, ok tt)
      else elim (build_job c f config s.job_counter now gbt key source txid_root) [
        | err e ↦ (s, err e)
        | ok job ↦ (publish_built s job key, ok tt)
      ]

  unfoldable pub apply_gbt_response :
      TemplateEngine F → ℕ → GbtResponse → TemplateSource → TemplateEngine F × Result (Unit {0})
  apply_gbt_response s now gbt source =
      if not s.refresh_free
      then (store_pending_refresh_source s source, ok tt)
      else if is_gbt_older_than_current gbt.height s.current
      then (note_deduped s, ok tt)
      else elim (validate_template_rules gbt.rules config.network) [
        | err e ↦ (s, err e)
        | ok done ↦
            publish_new (note_longpollid s gbt.longpollid) now gbt source
              (compute_txid_partial_root c gbt.transactions)
      ]

  -- One turn of the loop: the source of the next one, none where the loop is left.
  unfoldable pub refresh_round :
      TemplateEngine F
      → TemplateSource
      → RefreshRound F
      → TemplateEngine F × Result (Option TemplateSource)
  refresh_round s source round = elim round.answer [
    | err e ↦ (round.awaited s, err e)
    | ok gbt ↦ applied_round round (apply_gbt_response (round.awaited s) round.now gbt source)
  ]

  -- The rounds of a refresh; none where they end before the loop does.
  unfoldable pub refresh_template :
      TemplateEngine F
      → TemplateSource
      → List (RefreshRound F)
      → TemplateEngine F × Option (Result (Unit {0}))
  refresh_template s source [] = (s, none)
  refresh_template s source (round ∷ rounds) =
      let (s', outcome) = refresh_round s source round in
      elim outcome [
        | err e ↦ (s', some (err e))
        | ok none ↦ (s', some (ok tt))
        | ok (some next) ↦ refresh_template s' next rounds
      ]

  -- A round of `longpoll_loop`, with the source of the direct refresh that it falls back to.
  unfoldable pub longpoll_round :
      TemplateEngine F → ℕ → LongpollAnswer → TemplateEngine F × Option TemplateSource
  longpoll_round s now (LongpollAnswer.answered gbt) =
      let (s', applied) = apply_gbt_response s now gbt TemplateSource.longpoll in
      elim applied [ ok done ↦ (note_gbt_success s' now, none) | err e ↦ (s', none) ]
  longpoll_round s now LongpollAnswer.failed = (s, some TemplateSource.longpoll_error_fallback)
  longpoll_round s now LongpollAnswer.timed_out = (s, some TemplateSource.longpoll_timeout_fallback)
