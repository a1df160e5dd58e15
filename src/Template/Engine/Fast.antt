-- ===== src/Template/Engine/Fast.antt =====
-- `handle_fast_block_announcement` of `TemplateEngine` in src/template.rs: an empty job on a block that a
-- peer announced. A step that returns early leaves the engine as it is.
use stratum_bee.Base.{
  ltb, ◌==◌, if◌then◌else◌, Text, codes, ascii_lowercase, text_eq, Result, ok, err, ◌>>=◌, ℕ, ◌+◌,
  ◌-◌, ◌%◌, ◌^◌, min, max, Bool, true, false, not, ◌&&◌, ◌||◌, Option, none, some, [], ◌∷◌, map,
}
use stratum_bee.Config.{Config}
use stratum_bee.Crates.{Crates, context}
use stratum_bee.Float.{FloatOps}
use stratum_bee.Job.{TemplateSource, JobTemplate}
use stratum_bee.Encoding.Decimal.{to_decimal, join_texts}
use stratum_bee.Template.Rules.{should_publish_fast_empty_job_for_network}
use stratum_bee.Template.Compact.{block_hash_meets_compact_target}
use stratum_bee.Template.Engine.{ChainTipState, TemplateEngine, publish_job, note_deduped}
use stratum_bee.Template.Engine.Job.{to_little_endian, build_empty_job}
use stratum_bee.Template.Engine.Refresh.{is_key}

unfoldable pub eq_ignore_ascii_case : Text → Text → Bool
eq_ignore_ascii_case left right = text_eq (map ascii_lowercase left) (map ascii_lowercase right)

-- The arguments of the announcement.
pub record FastBlock : Type 0 where
  pub prevhash_hex : Text
  pub block_hash_hex : Text
  pub block_time : ℕ
  pub block_height : ℕ
  pub block_nbits : ℕ

unfoldable pub fast_key : Text → ℕ → Text → ℕ → Text
fast_key block_hash_hex next_height nbits version =
    join_texts (codes ":")
      (codes "fast" ∷ block_hash_hex ∷ to_decimal next_height ∷ nbits ∷ to_decimal version ∷ [])

module _ {F : Type 0} where
  -- The tip that the announced block becomes.
  unfoldable pub fast_tip : ChainTipState F → FastBlock → ChainTipState F
  fast_tip tip block = record tip {
    hash_hex = block.block_hash_hex;
    height = block.block_height;
    median_time_past = max tip.median_time_past block.block_time;
  }

  -- `current.ready && current.height == next_height && current.prevhash_le == next_prevhash_le`
  unfoldable pub is_on_block : JobTemplate F → ℕ → Text → Bool
  is_on_block current next_height next_prevhash_le =
      current.ready
      && ((current.height == next_height) && text_eq current.prevhash_le next_prevhash_le)

module _ {F : Type 0} (c : Crates) (f : FloatOps F) (config : Config F) where
  -- The job's key, the job and its publication, with the permit held.
  unfoldable pub publish_fast :
      TemplateEngine F
      → ℕ
      → ChainTipState F
      → FastBlock
      → ℕ
      → TemplateEngine F × Result (Option TemplateSource)
  publish_fast s now tip block next_height =
      let key = fast_key block.block_hash_hex next_height tip.nbits tip.version_u32 in
      if is_key s.last_template_key key
      then (note_deduped s, ok none)
      else elim (build_empty_job c f config s.job_counter now tip block.block_hash_hex next_height
          (max tip.median_time_past block.block_time) key) [
            | err e ↦ (s, err e)
            | ok job ↦ (
              publish_job
                  (record s {
                    job_counter = (s.job_counter + 1) % 2 ^ 64;
                    chain_tip = some (fast_tip tip block);
                  })
                  job key,
              ok none,
            )
          ]

  -- Behind the check of the work.
  unfoldable pub fast_worked :
      TemplateEngine F
      → ℕ
      → ChainTipState F
      → FastBlock
      → TemplateEngine F × Result (Option TemplateSource)
  fast_worked s now tip block =
      let next_height = min (block.block_height + 1) (2 ^ 64 - 1) in
      if not (should_publish_fast_empty_job_for_network config.network next_height)
      then (s, ok (some TemplateSource.p2p_cmpct_fast))
      else elim (context (c.hex_decode block.block_hash_hex) "decode fast block announcement hash"
          >>= to_little_endian c) [
            | err e ↦ (s, err e)
            | ok next_prevhash_le ↦
                if is_on_block s.current next_height next_prevhash_le
                then (s, ok none)
                else if s.current.ready && ltb next_height s.current.height
                then (s, ok none)
                else publish_fast s now tip block next_height
          ]

  unfoldable pub fast_on_tip :
      TemplateEngine F
      → ℕ
      → ChainTipState F
      → FastBlock
      → TemplateEngine F × Result (Option TemplateSource)
  fast_on_tip s now tip block =
      if not (eq_ignore_ascii_case tip.hash_hex block.prevhash_hex)
        || not (block.block_height == tip.height + 1)
      then (s, ok none)
      else if not (block.block_nbits == tip.nbits_u32)
      then (s, ok (some TemplateSource.p2p_cmpct_fast))
      else elim (block_hash_meets_compact_target c block.block_hash_hex block.block_nbits) [
        | err e ↦ (s, err e)
        | ok false ↦ (s, ok none)
        | ok true ↦ fast_worked s now tip block
      ]

  -- The source of the refresh that is spawned, if any.
  unfoldable pub handle_fast_block_announcement :
      TemplateEngine F → ℕ → FastBlock → TemplateEngine F × Result (Option TemplateSource)
  handle_fast_block_announcement s now block =
      if not s.refresh_free
      then (s, ok none)
      else elim s.chain_tip [ none ↦ (s, ok none) | some tip ↦ fast_on_tip s now tip block ]
