-- ===== src/Template/Engine/Heights.antt =====
-- Theorems on any sequence of steps of `TemplateEngine` in src/template.rs.
use mathlib.Core.List.{reverse-reverse}
use stratum_bee.Base.{
  length, is_empty, length-reverse, Bytes, Text, Result, ok, ℕ, ◌+◌, ◌^◌, ◌≤◌, ◌<◌, ◌≡◌, refl, sym,
  ap, ◌∙◌, subst, ◌⊎◌, inl, inr, Bool, true, false, Option, some, List, [], ◌∷◌, reverse, arith,
}
use stratum_bee.Config.{Config}
use stratum_bee.Crates.{Crates, CrateLaws}
use stratum_bee.Float.{FloatOps}
use stratum_bee.Job.{TemplateSource, JobTemplate}
use stratum_bee.Template.Rules.{is_gbt_older_than_current}
use stratum_bee.Template.Engine.{
  GbtResponse, ChainTipState, TemplateEngine, note_gbt_success, job_tip, update_chain_tip_from_job,
}
use stratum_bee.Template.Engine.Refresh.{
  fire_zmq, note_zmq_block, on_zmq_message, take_pending, apply_gbt_response,
}
use stratum_bee.Template.Engine.Fast.{FastBlock, fast_tip, handle_fast_block_announcement}
use stratum_bee.Template.Engine.Submit.{
  submit_delays_ms, submit_answered, submit_loop, submit_block,
}
use stratum_bee.Template.Engine.Steps.{
  SameJob, Renewed, Advanced, apply_gbt_response-cases, handle_fast_block_announcement-cases,
}

module _ {F : Type 0} (c : Crates) (f : FloatOps F) (config : Config F) where
  -- The current job is on the block that is the tip.
  pub record OnTip (s : TemplateEngine F) (tip : ChainTipState F) : Type 0 where
    pub ready_eq : s.current.ready ≡ true
    pub height_eq : s.current.height ≡ tip.height + 1
    pub height_bound : s.current.height < 2 ^ 63
    pub hash : Bytes
    pub decoded : c.hex_decode tip.hash_hex ≡ ok hash
    pub prevhash_eq : s.current.prevhash_le_bytes ≡ reverse hash

  abbrev pub IsOnTip : TemplateEngine F → Type 0
  IsOnTip s = (tip : ChainTipState F) → s.chain_tip ≡ some tip → OnTip s tip

  -- A step of one of the tasks that share the engine.
  pub data EngineStep : TemplateEngine F → TemplateEngine F → Type 0 where
    gbt_applied :
        (s : TemplateEngine F) (now : ℕ) (gbt : GbtResponse) (source : TemplateSource)
        → EngineStep s (apply_gbt_response c f config s now gbt source).0
    block_announced :
        (s : TemplateEngine F) (now : ℕ) (block : FastBlock)
        → EngineStep s (handle_fast_block_announcement c f config s now block).0
    permit_moved :
        (s : TemplateEngine F) (free : Bool) → EngineStep s (record s { refresh_free = free })
    success_noted : (s : TemplateEngine F) (now : ℕ) → EngineStep s (note_gbt_success s now)
    pending_taken : (s : TemplateEngine F) → EngineStep s (take_pending s).0
    zmq_received :
        (s : TemplateEngine F) (now : ℕ) (topic : Option Text) (received : Bool)
        → EngineStep s (on_zmq_message s now topic received).0
    block_submitted :
        (s : TemplateEngine F) (answer : ℕ → Result (Option Text))
        → EngineStep s (submit_block s answer).0

  pub data EngineSteps : TemplateEngine F → TemplateEngine F → Type 0 where
    done : (s : TemplateEngine F) → EngineSteps s s
    later : {s s' s'' : TemplateEngine F} → EngineStep s s' → EngineSteps s' s'' → EngineSteps s s''

  fire_zmq-SameJob :
      (s : TemplateEngine F) (now : ℕ) (source : TemplateSource)
      → SameJob s (fire_zmq s now source).0
  unfolding fire_zmq
  fire_zmq-SameJob s now source = ground arith

  on_zmq_message-SameJob :
      (s : TemplateEngine F) (now : ℕ) (topic : Option Text) (received : Bool)
      → SameJob s (on_zmq_message s now topic received).0
  unfolding on_zmq_message fire_zmq note_zmq_block
  on_zmq_message-SameJob s now topic received = ground arith

  submit_loop-SameJob :
      (s : TemplateEngine F) (answer : ℕ → Result (Option Text)) (attempt : ℕ) (delays : List ℕ)
      → SameJob s (submit_loop s answer attempt delays).0
  unfolding submit_loop submit_answered
  submit_loop-SameJob s answer attempt [] = (refl, refl)
  submit_loop-SameJob s answer attempt (d ∷ delays) =
      ground (arith, submit_loop-SameJob s answer (attempt + 1) delays)

  -- A step leaves the job and the tip, or publishes a job.
  step-cases :
      {s s' : TemplateEngine F}
      → EngineStep s s'
      → SameJob s s' ⊎ (Renewed c f config s s' ⊎ Advanced c f config s s')
  unfolding note_gbt_success take_pending submit_block
  step-cases (EngineStep.gbt_applied s now gbt source) =
      ground (arith, apply_gbt_response-cases c f config s now gbt source)
  step-cases (EngineStep.block_announced s now block) =
      ground (arith, handle_fast_block_announcement-cases c f config s now block)
  step-cases (EngineStep.permit_moved s free) = inl (refl, refl)
  step-cases (EngineStep.success_noted s now) = inl (refl, refl)
  step-cases (EngineStep.pending_taken s) = inl (refl, refl)
  step-cases (EngineStep.zmq_received s now topic received) =
      inl (on_zmq_message-SameJob s now topic received)
  step-cases (EngineStep.block_submitted s answer) =
      inl (submit_loop-SameJob s answer 0 submit_delays_ms)

  step-height :
      {s s' : TemplateEngine F}
      → EngineStep s s'
      → s.current.ready ≡ true
      → (s'.current.ready ≡ true) × (s.current.height ≤ s'.current.height)
  unfolding is_gbt_older_than_current
  step-height {s} {s'} step ready = elim (step-cases step) [
    | inl (same, _) ↦ rw same (ready, omega arith)
    | inr (inl r) ↦ (r.built.ready_eq, ground (arith, ready, r.not_older, r.built.height_eq))
    | inr (inr a) ↦ (a.ready_eq, ground (arith, ready, a.not_behind, a.height_eq))
  ]

  -- In any sequence of steps of the engine's tasks that begins with a ready job, the last job is
  -- ready and its height is not below that of the first.
  pub engine_steps-height :
      {s s' : TemplateEngine F}
      → EngineSteps s s'
      → s.current.ready ≡ true
      → (s'.current.ready ≡ true) × (s.current.height ≤ s'.current.height)
  engine_steps-height (EngineSteps.done s) ready = (ready, omega arith)
  engine_steps-height (EngineSteps.later step steps) ready =
      let (ready', first) = step-height step ready in
      let (ready'', rest) = engine_steps-height steps ready' in (ready'', omega arith)

  some-injective : {A : Type 0} {a b : A} → some a ≡ some b → a ≡ b
  some-injective e = cc

  SameJob-IsOnTip : (s s' : TemplateEngine F) → SameJob s s' → IsOnTip s → IsOnTip s'
  SameJob-IsOnTip s s' (same, same_tip) on tip e =
      let o = on tip (sym same_tip ∙ e) in
      record {
        ready_eq = ap (λ (j : JobTemplate F). j.ready) same ∙ o.ready_eq;
        height_eq = ap (λ (j : JobTemplate F). j.height) same ∙ o.height_eq;
        height_bound = rw same o.height_bound;
        hash = o.hash;
        decoded = o.decoded;
        prevhash_eq = ap (λ (j : JobTemplate F). j.prevhash_le_bytes) same ∙ o.prevhash_eq;
      }

  is_empty-length : (text : Text) → 0 < length text → is_empty text ≡ false
  is_empty-length [] h = absurd (omega arith)
  is_empty-length (b ∷ text) h = refl

  updated-cases :
      (s : TemplateEngine F) (job : JobTemplate F)
      → is_empty job.prevhash_le ≡ false
      → job.ready ≡ true
      → ((job.height ≡ 0) × ((update_chain_tip_from_job c s job).chain_tip ≡ s.chain_tip))
        ⊎ ((1 ≤ job.height)
            × ((update_chain_tip_from_job c s job).chain_tip ≡ some (job_tip c job)))
  unfolding update_chain_tip_from_job
  updated-cases s job nonempty ready = ground (arith, nonempty, ready)

  Renewed-OnTip :
      CrateLaws c
      → (s s' : TemplateEngine F) → (r : Renewed c f config s s') → 1 ≤ s'.current.height
      → OnTip s' (job_tip c s'.current)
  unfolding job_tip
  Renewed-OnTip laws s s' r positive =
      let p = r.built.is_prevhash in
      let back : reverse s'.current.prevhash_le_bytes ≡ p.hash =
        ap reverse p.prevhash_le_bytes_eq ∙ reverse-reverse p.hash in
      record {
        ready_eq = r.built.ready_eq;
        height_eq = omega (arith, positive);
        height_bound = r.built.height_bound;
        hash = p.hash;
        decoded =
            ap (λ (bs : Bytes). c.hex_decode (c.hex_encode bs)) back
            ∙ laws.hex_decode-hex_encode p.hash (laws.hex_decode-IsByte _ p.hash p.decoded);
        prevhash_eq = p.prevhash_le_bytes_eq;
      }

  Renewed-IsOnTip :
      CrateLaws c → (s s' : TemplateEngine F) → Renewed c f config s s' → IsOnTip s → IsOnTip s'
  unfolding is_gbt_older_than_current
  Renewed-IsOnTip laws s s' r on tip e =
      let job = s'.current in
      let p = r.built.is_prevhash in
      let nonempty : is_empty job.prevhash_le ≡ false = is_empty-length job.prevhash_le (
        omega (
          arith,
          ap length p.prevhash_le_eq,
          laws.length-hex_encode (reverse p.hash),
          length-reverse p.hash,
          p.hash_length,
        )) in
      elim (updated-cases s job nonempty r.built.ready_eq) [
        | inl (low, kept) ↦
            let o = on tip (sym kept ∙ sym r.tip_eq ∙ e) in
            absurd (ground (arith, low, o.ready_eq, o.height_eq, r.not_older, r.built.height_eq))
        | inr (positive, made) ↦
            subst (OnTip s') (some-injective (sym made ∙ sym r.tip_eq ∙ e))
              (Renewed-OnTip laws s s' r positive)
      ]

  Advanced-IsOnTip : (s s' : TemplateEngine F) → Advanced c f config s s' → IsOnTip s'
  unfolding fast_tip
  Advanced-IsOnTip s s' a tip e =
      let same : fast_tip a.tip a.block ≡ tip = some-injective (sym a.tip_eq ∙ e) in
      subst (OnTip s') same (record {
        ready_eq = a.ready_eq;
        height_eq = omega (arith, a.height_eq, a.height_bound);
        height_bound = a.height_bound;
        hash = a.is_prevhash.hash;
        decoded = a.is_prevhash.decoded;
        prevhash_eq = a.is_prevhash.prevhash_le_bytes_eq;
      })

  -- In any sequence of steps of the engine's tasks, where the current job of the first state is on
  -- its tip if it has one, so is that of the last: the job is ready, one above the tip's height,
  -- and on the hash that the tip displays.
  pub engine_steps-IsOnTip :
      {s s' : TemplateEngine F} → CrateLaws c → EngineSteps s s' → IsOnTip s → IsOnTip s'
  engine_steps-IsOnTip laws (EngineSteps.done s) on = on
  engine_steps-IsOnTip laws (EngineSteps.later {s} {s'} step steps) on =
      engine_steps-IsOnTip laws steps (elim (step-cases step) [
        | inl same ↦ SameJob-IsOnTip s s' same on
        | inr (inl r) ↦ Renewed-IsOnTip laws s s' r on
        | inr (inr a) ↦ Advanced-IsOnTip s s' a
      ])
