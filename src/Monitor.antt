-- ===== src/Monitor.antt =====
-- `BlockMonitor::refresh` of src/block_monitor.rs: the node is asked for the confirmations of each block
-- that still waits for them. What it answers is an argument, and an error changes nothing.
use stratum_bee.Base.{Text, Result, ok, err, ℤ, List, [], ◌∷◌}
use stratum_bee.Metrics.Store.{MetricsState}
use stratum_bee.Metrics.Blocks.{update_block_chain_state, blocks_for_confirmation}
use stratum_bee.Metrics.Blocks.Chain.{IsBlocks}
use stratum_bee.Metrics.Blocks.Confirm.{update_block_chain_state-IsBlocks}

module _ {F : Type 0} where
  unfoldable pub refresh_answered : MetricsState F → Text → Result ℤ → MetricsState F
  refresh_answered s hash (ok confirmations) = update_block_chain_state s hash confirmations
  refresh_answered s hash (err e) = s

  -- The blocks that are left.
  unfoldable pub refresh_blocks : MetricsState F → (Text → Result ℤ) → List Text → MetricsState F
  refresh_blocks s answer [] = s
  refresh_blocks s answer (hash ∷ hashes) =
      refresh_blocks (refresh_answered s hash (answer hash)) answer hashes

  unfoldable pub refresh : MetricsState F → (Text → Result ℤ) → MetricsState F
  refresh s answer = refresh_blocks s answer (blocks_for_confirmation s)

  refresh_answered-IsBlocks :
      (s : MetricsState F) (hash : Text) (answer : Result ℤ)
      → IsBlocks s
      → IsBlocks (refresh_answered s hash answer)
  unfolding refresh_answered
  refresh_answered-IsBlocks s hash (ok confirmations) v =
      update_block_chain_state-IsBlocks s hash confirmations v
  refresh_answered-IsBlocks s hash (err e) v = v

  refresh_blocks-IsBlocks :
      (s : MetricsState F) (answer : Text → Result ℤ) (hashes : List Text)
      → IsBlocks s
      → IsBlocks (refresh_blocks s answer hashes)
  unfolding refresh_blocks
  refresh_blocks-IsBlocks s answer [] v = v
  refresh_blocks-IsBlocks s answer (hash ∷ hashes) v =
      refresh_blocks-IsBlocks (refresh_answered s hash (answer hash)) answer hashes
        (refresh_answered-IsBlocks s hash (answer hash) v)

  pub refresh-IsBlocks :
      (s : MetricsState F) (answer : Text → Result ℤ) → IsBlocks s → IsBlocks (refresh s answer)
  unfolding refresh
  refresh-IsBlocks s answer v = refresh_blocks-IsBlocks s answer (blocks_for_confirmation s) v
