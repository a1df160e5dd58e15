-- ===== src/Metrics/Blocks/Confirm.antt =====
-- Theorems on `update_block_chain_state` and `snapshot` of src/metrics.rs.
use mathlib.Core.Option
use stratum_bee.Base.{
  if◌then◌else◌, Bool-cases, length, All, Text, text_eq, text_eq→eq, ℤ, ℕ, ◌≤◌, ◌≡◌, refl, ap, ◌∙◌,
  inl, inr, Bool, false, Option, none, some, List, [], ◌∷◌, arith,
}
use stratum_bee.Float.{FloatOps}
use stratum_bee.Metrics.Store.{
  BlockEvent, MetricsState, MetricsStore, stale_workers, remove_workers, prune_inactive,
}
use stratum_bee.Metrics.Blocks.{
  count, confirmed_block, confirm_blocks, update_block_chain_state, is_confirmed_block,
  is_matured_block, snapshot,
}
use stratum_bee.Metrics.Blocks.Chain.{IsConsistent, has_hash, Distinct, IsBlocks}

module _ {F : Type 0} where
  unfoldable pub find_block : Text → List (BlockEvent F) → Option (BlockEvent F)
  find_block hash [] = none
  find_block hash (block ∷ blocks) =
      if text_eq block.hash hash then some block else find_block hash blocks

  confirmed_block-IsConsistent :
      (confirmations : ℤ) (block : BlockEvent F)
      → IsConsistent (confirmed_block confirmations block)
  unfolding confirmed_block is_matured_block is_confirmed_block text_eq
  confirmed_block-IsConsistent (ℤ.negsuc n) block = ground arith
  confirmed_block-IsConsistent (ℤ.pos n) block = ground arith

  confirmed_block-hash :
      (confirmations : ℤ) (block : BlockEvent F)
      → (confirmed_block confirmations block).hash ≡ block.hash
  unfolding confirmed_block
  confirmed_block-hash (ℤ.negsuc n) block = refl
  confirmed_block-hash (ℤ.pos n) block = ground arith

  confirm_blocks-hash :
      (hash : Text) (confirmations : ℤ) (blocks : List (BlockEvent F)) (h : Text)
      → has_hash h (confirm_blocks hash confirmations blocks) ≡ has_hash h blocks
  unfolding confirm_blocks has_hash
  confirm_blocks-hash hash confirmations [] h = refl
  confirm_blocks-hash hash confirmations (block ∷ blocks) h = ground (
    arith,
    confirmed_block-hash confirmations block,
    confirm_blocks-hash hash confirmations blocks h,
  )

  confirm_blocks-keeps :
      (hash : Text) (confirmations : ℤ) (blocks : List (BlockEvent F))
      → All IsConsistent blocks
      → Distinct blocks
      → (length (confirm_blocks hash confirmations blocks) ≡ length blocks)
        × (All IsConsistent (confirm_blocks hash confirmations blocks)
            × Distinct (confirm_blocks hash confirmations blocks))
  unfolding confirm_blocks
  confirm_blocks-keeps hash confirmations [] ps ds = (refl, (tt, tt))
  confirm_blocks-keeps hash confirmations (block ∷ blocks) (p, ps) (d, ds) =
      elim (Bool-cases (text_eq block.hash hash)) [
        | inl same ↦ rw same (
          refl,
          (
            (confirmed_block-IsConsistent confirmations block, ps),
            (ap (λ h. has_hash h blocks) (confirmed_block-hash confirmations block) ∙ d, ds),
          ),
        )
        | inr other ↦
            let (len, (ps', ds')) = confirm_blocks-keeps hash confirmations blocks ps ds in
            rw other (
              omega (arith, len),
              ((p, ps'), (confirm_blocks-hash hash confirmations blocks block.hash ∙ d, ds')),
            )
      ]

  -- Updating the confirmations of any hash to any number keeps the blocks well formed: within their
  -- bound, with hashes that are all different and rewards that are matured only in the active
  -- chain.
  pub update_block_chain_state-IsBlocks :
      (s : MetricsState F) (hash : Text) (confirmations : ℤ)
      → IsBlocks s
      → IsBlocks (update_block_chain_state s hash confirmations)
  unfolding update_block_chain_state
  update_block_chain_state-IsBlocks s hash confirmations v =
      let (len, (ps, ds)) =
        confirm_blocks-keeps hash confirmations s.blocks v.consistent v.distinct in
      record { few = omega (arith, len, v.few); distinct = ds; consistent = ps }

  -- After an update of confirmations, looking up its hash gives the block at its new number of
  -- confirmations, if there is one, and looking up another hash gives what it gave before.
  pub find_block-confirm_blocks :
      (hash other : Text) (confirmations : ℤ) (blocks : List (BlockEvent F))
      → (find_block hash (confirm_blocks hash confirmations blocks)
          ≡ Option.map (confirmed_block confirmations) (find_block hash blocks))
        × (text_eq hash other ≡ false
            → find_block other (confirm_blocks hash confirmations blocks) ≡ find_block other blocks)
  unfolding find_block confirm_blocks
  find_block-confirm_blocks hash other confirmations [] = (refl, λ h. refl)
  find_block-confirm_blocks hash other confirmations (block ∷ blocks) =
      let (same, others) = find_block-confirm_blocks hash other confirmations blocks in
      elim (Bool-cases (text_eq block.hash hash)) [
        | inl e ↦
            let eq : block.hash ≡ hash = text_eq→eq _ _ e in
            (
              ground (arith, confirmed_block-hash confirmations block),
              λ h. ground (arith, confirmed_block-hash confirmations block),
            )
        | inr e ↦ (ground (arith, same), λ h. ground (arith, others h))
      ]

  count-le :
      (blocks : List (BlockEvent F))
      → All IsConsistent blocks
      → count is_matured_block blocks ≤ count is_confirmed_block blocks
  unfolding count
  count-le [] h = omega arith
  count-le (block ∷ blocks) (h, hs) = ground (arith, count-le blocks hs)

  count-length :
      (test : BlockEvent F → Bool) (blocks : List (BlockEvent F))
      → count test blocks ≤ length blocks
  unfolding count
  count-length test [] = omega arith
  count-length test (block ∷ blocks) = ground (arith, count-length test blocks)

  remove_workers-blocks :
      (workers : List Text) (s : MetricsState F) → (remove_workers workers s).blocks ≡ s.blocks
  unfolding remove_workers
  remove_workers-blocks [] s = refl
  remove_workers-blocks (worker ∷ workers) s = remove_workers-blocks workers _

  -- In the report of a store with well-formed blocks, the blocks that count as mined are no more
  -- than the confirmed ones, which are no more than the bound on blocks.
  pub snapshot-blocks :
      (f : FloatOps F) (store : MetricsStore F) (now : ℕ)
      → IsBlocks store.inner
      → let report = (snapshot f store now).1 in
        (report.total_blocks ≤ report.confirmed_blocks)
        × (report.confirmed_blocks ≤ store.inner.max_blocks)
  unfolding snapshot prune_inactive
  snapshot-blocks f store now v =
      let workers = stale_workers store.miner_inactive_timeout now store.inner.miners in
      rw (remove_workers-blocks workers store.inner) (
        count-le store.inner.blocks v.consistent,
        omega (arith, count-length is_confirmed_block store.inner.blocks, v.few),
      )
