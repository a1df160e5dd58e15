-- ===== src/Template/Engine/Refresh/Retry.antt =====
-- Theorems on the loop of `refresh_template` in src/template.rs.
use stratum_bee.Base.{
  if◌then◌else◌, All, Result, ok, err, ℕ, ◌≡◌, refl, ap, ◌∙◌, Bool, true, false, not, Option, none,
  some, List, [], ◌∷◌, ◌++◌,
}
use stratum_bee.Config.{Config}
use stratum_bee.Crates.{Crates}
use stratum_bee.Float.{FloatOps}
use stratum_bee.Job.{TemplateSource}
use stratum_bee.Template.Rules.{pending_slot, from_pending_slot, take_pending_refresh_source}
use stratum_bee.Template.Engine.{
  GbtResponse, TemplateEngine, store_pending_refresh_source, note_gbt_success,
}
use stratum_bee.Template.Engine.Refresh.{
  RefreshRound, take_pending, applied_round, apply_gbt_response, refresh_round, refresh_template,
}

from_pending_slot-pending_slot :
    (source : TemplateSource) → from_pending_slot (pending_slot source) ≡ some source
unfolding from_pending_slot pending_slot
from_pending_slot-pending_slot TemplateSource.startup = refl
from_pending_slot-pending_slot TemplateSource.longpoll = refl
from_pending_slot-pending_slot TemplateSource.longpoll_timeout_fallback = refl
from_pending_slot-pending_slot TemplateSource.longpoll_error_fallback = refl
from_pending_slot-pending_slot TemplateSource.zmq_hashblock = refl
from_pending_slot-pending_slot TemplateSource.zmq_rawblock = refl
from_pending_slot-pending_slot TemplateSource.p2p_cmpct_fast = refl

if-not-taken : {A : Type 0} (free : Bool) (x y : A) → free ≡ false → (if not free then x else y) ≡ x
if-not-taken false x y e = refl
if-not-taken true x y e = cc

module _ {F : Type 0} where
  -- The node answers, other tasks hold the permit then, and they leave the pending source alone until
  -- the refresh takes it.
  pub record IsHeld (round : RefreshRound F) : Type 0 where
    pub gbt : GbtResponse
    pub replied : round.answer ≡ ok gbt
    pub taken : (s : TemplateEngine F) → (round.awaited s).refresh_free ≡ false
    pub applied_keeps :
        (s : TemplateEngine F) → (round.applied s).refresh_pending_source ≡ s.refresh_pending_source
    pub noted_keeps :
        (s : TemplateEngine F) → (round.noted s).refresh_pending_source ≡ s.refresh_pending_source

  -- The engine when a refresh for the source that met the permit taken looks for a pending source.
  abbrev pub held_engine : TemplateEngine F → TemplateSource → RefreshRound F → TemplateEngine F
  held_engine s source round = round.noted (
      note_gbt_success
        (round.applied (record (round.awaited s) { refresh_pending_source = pending_slot source }))
        round.now)

  -- The engine behind such rounds, each of which leaves no pending source.
  abbrev pub behind_held :
      TemplateEngine F → TemplateSource → List (RefreshRound F) → TemplateEngine F
  behind_held s source [] = s
  behind_held s source (round ∷ rounds) =
      behind_held (record (held_engine s source round) { refresh_pending_source = 0 }) source rounds

module _ {F : Type 0} (c : Crates) (f : FloatOps F) (config : Config F) where
  apply_gbt_response-taken :
      (s : TemplateEngine F) (now : ℕ) (gbt : GbtResponse) (source : TemplateSource)
      → s.refresh_free ≡ false
      → apply_gbt_response c f config s now gbt source
        ≡ (record s { refresh_pending_source = pending_slot source }, ok tt)
  unfolding apply_gbt_response store_pending_refresh_source
  apply_gbt_response-taken s now gbt source taken = if-not-taken s.refresh_free _ _ taken

  -- A round that meets the permit taken goes on with what it finds pending.
  refresh_round-pending :
      (s : TemplateEngine F) (source : TemplateSource) (round : RefreshRound F) (gbt : GbtResponse)
      → round.answer ≡ ok gbt
      → (round.awaited s).refresh_free ≡ false
      → refresh_round c f config s source round ≡ (
        record (held_engine s source round) { refresh_pending_source = 0 },
        ok (from_pending_slot (held_engine s source round).refresh_pending_source),
      )
  unfolding refresh_round take_pending take_pending_refresh_source applied_round
  refresh_round-pending s source round gbt replied taken =
      ap
        (λ (answer : Result GbtResponse). elim answer [
          | err e ↦ (round.awaited s, err e)
          | ok gbt' ↦
              applied_round round
                (apply_gbt_response c f config (round.awaited s) round.now gbt' source)
        ])
        replied
      ∙ ap (applied_round round)
          (apply_gbt_response-taken (round.awaited s) round.now gbt source taken)

  held_engine-pending :
      (s : TemplateEngine F) (source : TemplateSource) (round : RefreshRound F)
      → IsHeld round
      → from_pending_slot (held_engine s source round).refresh_pending_source ≡ some source
  unfolding note_gbt_success
  held_engine-pending s source round held =
      ap from_pending_slot (held.noted_keeps _ ∙ held.applied_keeps _)
      ∙ from_pending_slot-pending_slot source

  refresh_template-next :
      (s s' : TemplateEngine F) (source next : TemplateSource) (round : RefreshRound F)
      (rounds : List (RefreshRound F))
      → refresh_round c f config s source round ≡ (s', ok (some next))
      → refresh_template c f config s source (round ∷ rounds)
        ≡ refresh_template c f config s' next rounds
  unfolding refresh_template
  refresh_template-next s s' source next round rounds e =
      ap
        (λ (p : TemplateEngine F × Result (Option TemplateSource)). elim p.1 [
          | err e ↦ (p.0, some (err e))
          | ok none ↦ (p.0, some (ok tt))
          | ok (some next') ↦ refresh_template c f config p.0 next' rounds
        ])
        e

  -- A refresh whose answers meet the permit taken, any number of times, stores its source as
  -- pending and takes it back each time, if no other task changes the pending source in between: it
  -- asks again for that same source, whatever the others did to the engine, until a round is
  -- another.
  pub refresh_template-retries :
      (s : TemplateEngine F) (source : TemplateSource) (held rest : List (RefreshRound F))
      → All IsHeld held
      → refresh_template c f config s source (held ++ rest)
        ≡ refresh_template c f config (behind_held s source held) source rest
  refresh_template-retries s source [] rest holds = refl
  refresh_template-retries s source (round ∷ held) rest (first, holds) =
      let s' : TemplateEngine F = record (held_engine s source round) {
        refresh_pending_source = 0;
      } in
      refresh_template-next s s' source source round (held ++ rest) (
        refresh_round-pending s source round first.gbt first.replied (first.taken s)
        ∙ ap (λ (o : Option TemplateSource). (s', ok o)) (held_engine-pending s source round first))
      ∙ refresh_template-retries s' source held rest holds

  -- Where the permit is taken and another task takes the pending source first, the refresh ends with
  -- success, and its template is left to the other task.
  pub refresh_template-left :
      (s : TemplateEngine F) (source : TemplateSource) (round : RefreshRound F)
      (rest : List (RefreshRound F)) (gbt : GbtResponse)
      → round.answer ≡ ok gbt
      → (round.awaited s).refresh_free ≡ false
      → (held_engine s source round).refresh_pending_source ≡ 0
      → (refresh_template c f config s source (round ∷ rest)).1 ≡ some (ok tt)
  unfolding refresh_template from_pending_slot
  refresh_template-left s source round rest gbt replied taken empty =
      ap
        (λ (p : TemplateEngine F × Result (Option TemplateSource)).
          (elim p.1 as (λ o. TemplateEngine F × Option (Result (Unit {0}))) [
            | err e ↦ (p.0, some (err e))
            | ok none ↦ (p.0, some (ok tt))
            | ok (some next) ↦ refresh_template c f config p.0 next rest
          ]).1)
        (refresh_round-pending s source round gbt replied taken
          ∙ ap
              (λ (slot : ℕ). (
                record (held_engine s source round) { refresh_pending_source = 0 },
                ok (from_pending_slot slot),
              ))
              empty)
