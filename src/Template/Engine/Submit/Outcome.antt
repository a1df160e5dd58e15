-- ===== src/Template/Engine/Submit/Outcome.antt =====
-- Theorems on `submit_block` of src/template.rs.
use stratum_bee.Base.{
  length, Text, Result, ok, err, bail, ℕ, zero, suc, ◌+◌, ◌<◌, ◌≡◌, refl, ap, ◌∙◌, Option, List, [],
  ◌∷◌, arith,
}
use stratum_bee.Metrics.Counters.{inc_submitblock_rpc_fail}
use stratum_bee.Template.Engine.{TemplateEngine}
use stratum_bee.Template.Engine.Submit.{
  submit_delays_ms, submit_answered, submit_loop, submit_block,
}

module _ {F : Type 0} where
  submit_loop-failed :
      (s : TemplateEngine F) (answer : ℕ → Result (Option Text)) (attempt : ℕ) (delays : List ℕ)
      → ((i : ℕ) → i < length delays → (e : Text) × (answer (attempt + i) ≡ err e))
      → ((submit_loop s answer attempt delays).0
          ≡ record s { counters = inc_submitblock_rpc_fail s.counters })
        × ((submit_loop s answer attempt delays).2
            ≡ bail "submitblock RPC failed after all retries; BLOCK MAY BE LOST")
  unfolding submit_loop
  submit_loop-failed s answer attempt [] fails = (refl, refl)
  submit_loop-failed s answer attempt (d ∷ delays) fails =
      let (m, e) = fails 0 (omega arith) in
      let (rest, outcome) =
        submit_loop-failed s answer (attempt + 1) delays (λ i h.
          let (m', e') = fails (i + 1) (omega arith) in (m', ap answer (omega arith) ∙ e')) in
      let e' : answer attempt ≡ err m = ap answer (omega arith) ∙ e in
      rw (e', submit_loop) (rest, outcome)

  submit_loop-answered :
      (s : TemplateEngine F) (answer : ℕ → Result (Option Text)) (attempt : ℕ) (delays : List ℕ)
      (n : ℕ) (reason : Option Text)
      → n < length delays
      → ((i : ℕ) → i < n → (e : Text) × (answer (attempt + i) ≡ err e))
      → answer (attempt + n) ≡ ok reason
      → ((submit_loop s answer attempt delays).0 ≡ (submit_answered s reason).0)
        × ((submit_loop s answer attempt delays).2 ≡ ok (submit_answered s reason).1)
  unfolding submit_loop
  submit_loop-answered s answer attempt [] n reason small fails e = absurd (omega arith)
  submit_loop-answered s answer attempt (d ∷ delays) zero reason small fails e =
      let e' : answer attempt ≡ ok reason = ap answer (omega arith) ∙ e in
      rw (e', submit_loop) (refl, refl)
  submit_loop-answered s answer attempt (d ∷ delays) (suc n) reason small fails e =
      let (m, e0) = fails 0 (omega arith) in
      let rest =
        submit_loop-answered s answer (attempt + 1) delays n reason (omega arith)
          (λ i h. let (m', e') = fails (i + 1) (omega arith) in (m', ap answer (omega arith) ∙ e'))
          (ap answer (omega arith) ∙ e) in
      let e' : answer attempt ≡ err m = ap answer (omega arith) ∙ e0 in rw (e', submit_loop) rest

  -- Where one of the five calls is answered and those before it fail, the block submission returns
  -- the outcome of that answer, and the counters change as for that answer alone.
  pub submit_block-answered :
      (s : TemplateEngine F) (answer : ℕ → Result (Option Text)) (n : ℕ) (reason : Option Text)
      → n < 5
      → ((i : ℕ) → i < n → (e : Text) × (answer i ≡ err e))
      → answer n ≡ ok reason
      → ((submit_block s answer).0 ≡ (submit_answered s reason).0)
        × ((submit_block s answer).2 ≡ ok (submit_answered s reason).1)
  unfolding submit_block submit_delays_ms
  submit_block-answered s answer n reason small fails e =
      submit_loop-answered s answer 0 (0 ∷ 500 ∷ 1000 ∷ 2000 ∷ 4000 ∷ []) n reason small
        (λ i h. let (m, e') = fails i h in (m, ap answer (omega arith) ∙ e'))
        (ap answer (omega arith) ∙ e)

  -- Where all five calls fail, the block submission returns the error that the block may be lost,
  -- and counts one failed submission and nothing else.
  pub submit_block-failed :
      (s : TemplateEngine F) (answer : ℕ → Result (Option Text))
      → ((i : ℕ) → i < 5 → (e : Text) × (answer i ≡ err e))
      → ((submit_block s answer).0 ≡ record s { counters = inc_submitblock_rpc_fail s.counters })
        × ((submit_block s answer).2
            ≡ bail "submitblock RPC failed after all retries; BLOCK MAY BE LOST")
  unfolding submit_block submit_delays_ms
  submit_block-failed s answer fails =
      submit_loop-failed s answer 0 (0 ∷ 500 ∷ 1000 ∷ 2000 ∷ 4000 ∷ [])
        (λ i h. let (m, e) = fails i h in (m, ap answer (omega arith) ∙ e))
