-- ===== src/Template/Engine/Submit.antt =====
-- `submit_block` of `TemplateEngine` in src/template.rs: a block is sent to the node, and again
-- after a pause where the call fails. The node's answer to each attempt is an argument; the
-- result is the engine, the pauses that were slept, and the outcome.
pub mod Outcome
use stratum_bee.Base.{
  ltb, if◌then◌else◌, Text, codes, text_eq, Result, ok, err, bail, ℕ, ◌+◌, Option, none, some, List,
  [], ◌∷◌, ◌++◌,
}
use stratum_bee.Metrics.Counters.{
  inc_submitblock_accepted, inc_submitblock_rejected, inc_submitblock_rpc_fail,
}
use stratum_bee.Template.Engine.{TemplateEngine}

pub data SubmitBlockOutcome : Type 0 where
  submitted : SubmitBlockOutcome
  duplicate : SubmitBlockOutcome
  rejected : (reason : Text) → SubmitBlockOutcome

unfoldable pub submit_delays_ms : List ℕ
submit_delays_ms = 0 ∷ 500 ∷ 1000 ∷ 2000 ∷ 4000 ∷ []

module _ {F : Type 0} where
  -- What is done with an answer that has a reason.
  unfoldable pub submit_answered :
      TemplateEngine F → Option Text → TemplateEngine F × SubmitBlockOutcome
  submit_answered s none =
      (record s { counters = inc_submitblock_accepted s.counters }, SubmitBlockOutcome.submitted)
  submit_answered s (some reason) =
      if text_eq reason (codes "duplicate")
      then (
        record s { counters = inc_submitblock_accepted s.counters },
        SubmitBlockOutcome.duplicate,
      )
      else (
        record s { counters = inc_submitblock_rejected s.counters },
        SubmitBlockOutcome.rejected reason,
      )

  -- The attempts that are left, each with its delay, from one of a number on.
  unfoldable pub submit_loop :
      TemplateEngine F
      → (ℕ → Result (Option Text))
      → ℕ
      → List ℕ
      → TemplateEngine F × List ℕ × Result SubmitBlockOutcome
  submit_loop s answer attempt [] = (
    record s { counters = inc_submitblock_rpc_fail s.counters },
    [],
    bail "submitblock RPC failed after all retries; BLOCK MAY BE LOST",
  )
  submit_loop s answer attempt (delay_ms ∷ delays) =
      let slept = if ltb 0 delay_ms then delay_ms ∷ [] else [] in
      let (later, pauses, outcome) = submit_loop s answer (attempt + 1) delays in
      elim (answer attempt) [
        | ok reason ↦ let (s', done) = submit_answered s reason in (s', slept, ok done)
        | err e ↦ (later, slept ++ pauses, outcome)
      ]

  unfoldable pub submit_block :
      TemplateEngine F
      → (ℕ → Result (Option Text))
      → TemplateEngine F × List ℕ × Result SubmitBlockOutcome
  submit_block s answer = submit_loop s answer 0 submit_delays_ms
