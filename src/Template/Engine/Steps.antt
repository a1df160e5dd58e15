-- ===== src/Template/Engine/Steps.antt =====
-- What the steps of `TemplateEngine` in src/template.rs do to its job and its tip: they leave them,
-- or publish a job.
use stratum_bee.Base.{
  ltb, Text, Result-cases, ℕ, ◌+◌, ◌-◌, ◌%◌, ◌^◌, ◌<◌, min, max, ◌≡◌, refl, sym, ap, ◌∙◌, subst,
  ◌⊎◌, inl, inr, true, false, ◌&&◌, Option, none, some, arith,
}
use stratum_bee.Config.{Config}
use stratum_bee.Crates.{Crates}
use stratum_bee.Float.{FloatOps}
use stratum_bee.Job.{TemplateSource, JobTemplate}
use stratum_bee.Template.Rules.{is_gbt_older_than_current}
use stratum_bee.Template.Engine.{
  GbtResponse, ChainTipState, TemplateEngine, store_pending_refresh_source,
  update_chain_tip_from_job, publish_job, note_deduped,
}
use stratum_bee.Template.Engine.Job.Built.{
  IsPrevhash, Built, build_job-Built, build_empty_job-built,
}
use stratum_bee.Template.Engine.Refresh.{
  gbt_template_key, publish_built, note_longpollid, publish_new, apply_gbt_response,
}
use stratum_bee.Template.Engine.Fast.{
  FastBlock, fast_key, fast_tip, publish_fast, fast_worked, fast_on_tip,
  handle_fast_block_announcement,
}
use stratum_bee.Template.Engine.Job.{build_job, build_empty_job}
use stratum_bee.Merkle.{compute_txid_partial_root}

module _ {F : Type 0} where
  -- The job and the tip are as they were.
  abbrev pub SameJob : TemplateEngine F → TemplateEngine F → Type 0
  SameJob s s' = (s'.current ≡ s.current) × (s'.chain_tip ≡ s.chain_tip)

module _ {F : Type 0} (c : Crates) (f : FloatOps F) (config : Config F) where
  -- The job of a template that is not older than the current job was published.
  pub record Renewed (s s' : TemplateEngine F) : Type 0 where
    pub gbt : GbtResponse
    pub not_older : is_gbt_older_than_current gbt.height s.current ≡ false
    pub built : Built c f config gbt s'.current
    pub tip_eq : s'.chain_tip ≡ (update_chain_tip_from_job c s s'.current).chain_tip

  -- An empty job on an announced block was published.
  pub record Advanced (s s' : TemplateEngine F) : Type 0 where
    pub tip : ChainTipState F
    pub block : FastBlock
    pub was_tip : s.chain_tip ≡ some tip
    pub follows : block.block_height ≡ tip.height + 1
    pub not_behind :
        (s.current.ready && ltb (min (block.block_height + 1) (2 ^ 64 - 1)) s.current.height)
        ≡ false
    pub ready_eq : s'.current.ready ≡ true
    pub height_eq : s'.current.height ≡ min (block.block_height + 1) (2 ^ 64 - 1)
    pub height_bound : s'.current.height < 2 ^ 63
    pub is_prevhash : IsPrevhash c block.block_hash_hex s'.current
    pub tip_eq : s'.chain_tip ≡ some (fast_tip tip block)

  published :
      (s : TemplateEngine F) (job : JobTemplate F) (key : Text)
      → ((publish_built c f config s job key).current ≡ job)
        × ((publish_built c f config s job key).chain_tip
            ≡ (update_chain_tip_from_job c s job).chain_tip)
  unfolding publish_built publish_job update_chain_tip_from_job
  published s job key = (refl, ground arith)

  renewed :
      (s : TemplateEngine F) (gbt : GbtResponse) (job : JobTemplate F) (key : Text)
      → is_gbt_older_than_current gbt.height s.current ≡ false
      → Built c f config gbt job
      → Renewed s (publish_built c f config s job key)
  renewed s gbt job key fresh built =
      let (now_job, now_tip) = published s job key in
      record {
        gbt = gbt;
        not_older = fresh;
        built = subst (Built c f config gbt) (sym now_job) built;
        tip_eq =
            now_tip
            ∙ ap (λ (j : JobTemplate F). (update_chain_tip_from_job c s j).chain_tip) (sym now_job);
      }

  publish_new-cases :
      (s : TemplateEngine F) (now : ℕ) (gbt : GbtResponse) (source : TemplateSource) (root : Text)
      → is_gbt_older_than_current gbt.height s.current ≡ false
      → SameJob s (publish_new c f config s now gbt source root).0
        ⊎ Renewed s (publish_new c f config s now gbt source root).0
  unfolding publish_new note_deduped
  publish_new-cases s now gbt source root fresh =
      let key = gbt_template_key gbt root in
      elim (Result-cases (build_job c f config s.job_counter now gbt key source root)) [
        | inl (e, none_made) ↦ ground (arith, none_made)
        | inr (job, made) ↦ ground (
          arith,
          made,
          renewed s gbt job key fresh
              (build_job-Built c f config s.job_counter now gbt key source root job made),
        )
      ]

  noted-Renewed :
      (s s' : TemplateEngine F) (longpollid : Option Text)
      → Renewed (note_longpollid c f config s longpollid) s'
      → Renewed s s'
  unfolding note_longpollid update_chain_tip_from_job
  noted-Renewed s s' none r = r
  noted-Renewed s s' (some id) r = record {
    gbt = r.gbt;
    not_older = r.not_older;
    built = r.built;
    tip_eq = r.tip_eq ∙ ground arith;
  }

  noted-SameJob :
      (s s' : TemplateEngine F) (longpollid : Option Text)
      → SameJob (note_longpollid c f config s longpollid) s'
      → SameJob s s'
  unfolding note_longpollid
  noted-SameJob s s' none same = same
  noted-SameJob s s' (some id) same = same

  noted-current :
      (s : TemplateEngine F) (longpollid : Option Text)
      → (note_longpollid c f config s longpollid).current ≡ s.current
  unfolding note_longpollid
  noted-current s none = refl
  noted-current s (some id) = refl

  noted-cases :
      (s : TemplateEngine F) (now : ℕ) (gbt : GbtResponse) (source : TemplateSource) (root : Text)
      → is_gbt_older_than_current gbt.height s.current ≡ false
      → let s' =
          (publish_new c f config
            (note_longpollid c f config s gbt.longpollid)
            now
            gbt
            source
            root).0 in
        SameJob s s' ⊎ Renewed s s'
  noted-cases s now gbt source root fresh =
      let noted = note_longpollid c f config s gbt.longpollid in
      let s' = (publish_new c f config noted now gbt source root).0 in
      let fresh' =
        ap (is_gbt_older_than_current gbt.height) (noted-current s gbt.longpollid) ∙ fresh in
      elim (publish_new-cases noted now gbt source root fresh') [
        | inl same ↦ inl (noted-SameJob s s' gbt.longpollid same)
        | inr new ↦ inr (noted-Renewed s s' gbt.longpollid new)
      ]

  pub apply_gbt_response-cases :
      (s : TemplateEngine F) (now : ℕ) (gbt : GbtResponse) (source : TemplateSource)
      → SameJob s (apply_gbt_response c f config s now gbt source).0
        ⊎ Renewed s (apply_gbt_response c f config s now gbt source).0
  unfolding apply_gbt_response note_deduped store_pending_refresh_source
  apply_gbt_response-cases s now gbt source =
      ground (arith, noted-cases s now gbt source (compute_txid_partial_root c gbt.transactions))

  publish_fast-cases :
      (s : TemplateEngine F) (now : ℕ) (tip : ChainTipState F) (block : FastBlock)
      → let next_height = min (block.block_height + 1) (2 ^ 64 - 1) in
        s.chain_tip ≡ some tip
        → block.block_height ≡ tip.height + 1
        → (s.current.ready && ltb next_height s.current.height) ≡ false
        → SameJob s (publish_fast c f config s now tip block next_height).0
          ⊎ Advanced s (publish_fast c f config s now tip block next_height).0
  unfolding publish_fast note_deduped publish_job
  publish_fast-cases s now tip block was_tip follows not_behind =
      let next_height = min (block.block_height + 1) (2 ^ 64 - 1) in
      let key = fast_key block.block_hash_hex next_height tip.nbits tip.version_u32 in
      let mtp = max tip.median_time_past block.block_time in
      elim (Result-cases (
        build_empty_job c f config s.job_counter now tip block.block_hash_hex next_height mtp
          key)) [
            | inl (e, none_made) ↦ ground (arith, none_made)
            | inr (job, made) ↦
                let (ready, height, bound, is_prevhash, _) =
                  build_empty_job-built c f config s.job_counter now tip block.block_hash_hex
                    next_height mtp key job made in
                let advanced : Advanced s (
                    publish_job
                      (record s {
                        job_counter = (s.job_counter + 1) % 2 ^ 64;
                        chain_tip = some (fast_tip tip block);
                      })
                      job key) =
                  record {
                    tip = tip;
                    block = block;
                    was_tip = was_tip;
                    follows = follows;
                    not_behind = not_behind;
                    ready_eq = ready;
                    height_eq = height;
                    height_bound = omega (arith, height, bound);
                    is_prevhash = is_prevhash;
                    tip_eq = refl;
                  } in
                ground (arith, made, advanced)
          ]

  fast_worked-cases :
      (s : TemplateEngine F) (now : ℕ) (tip : ChainTipState F) (block : FastBlock)
      → s.chain_tip ≡ some tip
      → block.block_height ≡ tip.height + 1
      → SameJob s (fast_worked c f config s now tip block).0
        ⊎ Advanced s (fast_worked c f config s now tip block).0
  unfolding fast_worked
  fast_worked-cases s now tip block was_tip follows =
      ground (arith, publish_fast-cases s now tip block was_tip follows)

  fast_on_tip-cases :
      (s : TemplateEngine F) (now : ℕ) (tip : ChainTipState F) (block : FastBlock)
      → s.chain_tip ≡ some tip
      → SameJob s (fast_on_tip c f config s now tip block).0
        ⊎ Advanced s (fast_on_tip c f config s now tip block).0
  unfolding fast_on_tip
  fast_on_tip-cases s now tip block was_tip =
      ground (arith, fast_worked-cases s now tip block was_tip)

  pub handle_fast_block_announcement-cases :
      (s : TemplateEngine F) (now : ℕ) (block : FastBlock)
      → SameJob s (handle_fast_block_announcement c f config s now block).0
        ⊎ Advanced s (handle_fast_block_announcement c f config s now block).0
  unfolding handle_fast_block_announcement
  handle_fast_block_announcement-cases s now block = split s.chain_tip refl
    where
      split :
          (tip : Option (ChainTipState F))
          → s.chain_tip ≡ tip
          → SameJob s (handle_fast_block_announcement c f config s now block).0
            ⊎ Advanced s (handle_fast_block_announcement c f config s now block).0
      split none e = ground (arith, e)
      split (some tip) e = ground (arith, e, fast_on_tip-cases s now tip block e)
