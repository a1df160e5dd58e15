-- ===== src/Metrics/Blocks.antt =====
-- The blocks of src/metrics.rs: `upsert_block`, `update_block_chain_state` and the reports.
pub mod Chain
pub mod Confirm
pub mod Recent
use mathlib.Core.Option
use stratum_bee.Base.{
  ltb, leb, if◌then◌else◌, Text, codes, text_eq, ℤ, pos, negsuc, ℕ, suc, ◌-◌, Bool, true, false,
  ◌||◌, Option, none, some, List, [], ◌∷◌, ◌++◌,
}
use stratum_bee.Float.{FloatOps}
use stratum_bee.Metrics.Store.{
  MinerStats, ShareEvent, BlockEvent, MetricsState, MetricsStore, trim_front, prune_inactive,
}

-- `COINBASE_MATURITY_CONFIRMATIONS`
abbrev pub coinbase_maturity_confirmations : ℕ
coinbase_maturity_confirmations = 100

-- A stable sort: `first x y` where `x` has to come before `y`.
unfoldable pub insert_sorted {ℓ} : {A : Type ℓ} → (A → A → Bool) → A → List A → List A
insert_sorted first x [] = x ∷ []
insert_sorted first x (y ∷ ys) = if first y x then y ∷ insert_sorted first x ys else x ∷ y ∷ ys

unfoldable pub sort_by {ℓ} : {A : Type ℓ} → (A → A → Bool) → List A → List A
sort_by first [] = []
sort_by first (x ∷ xs) = insert_sorted first x (sort_by first xs)

-- `iter().filter(test).count()`
unfoldable pub count {ℓ} : {A : Type ℓ} → (A → Bool) → List A → ℕ
count test [] = 0
count test (x ∷ xs) = if test x then suc (count test xs) else count test xs

module _ {F : Type 0} where
  -- The block of the hash replaced: none where there is no such block.
  unfoldable pub replace_block : BlockEvent F → List (BlockEvent F) → Option (List (BlockEvent F))
  replace_block event [] = none
  replace_block event (item ∷ blocks) =
      if text_eq item.hash event.hash
      then some (record event { created_at = item.created_at } ∷ blocks)
      else Option.map (◌∷◌ item) (replace_block event blocks)

  unfoldable pub upsert_block : MetricsState F → BlockEvent F → MetricsState F
  upsert_block s event = elim (replace_block event s.blocks) [
    | some blocks ↦ record s { blocks = blocks }
    | none ↦ record s { blocks = trim_front s.max_blocks (s.blocks ++ (event ∷ [])) }
  ]

  -- The block at a number of confirmations.
  unfoldable pub confirmed_block : ℤ → BlockEvent F → BlockEvent F
  confirmed_block (negsuc n) block = record block {
    confirmations = some (negsuc n);
    in_active_chain = some false;
    reward_status = codes "orphaned";
  }
  confirmed_block (pos n) block =
      if leb coinbase_maturity_confirmations n
      then record block {
        confirmations = some (pos n);
        in_active_chain = some true;
        reward_status = codes "matured";
      }
      else if ltb 0 n
      then record block {
        confirmations = some (pos n);
        in_active_chain = some true;
        reward_status = codes "confirming";
      }
      else record block {
        confirmations = some (pos n);
        in_active_chain = none;
        reward_status = codes "pending_confirmation";
      }

  -- The first block with the hash is changed.
  unfoldable pub confirm_blocks : Text → ℤ → List (BlockEvent F) → List (BlockEvent F)
  confirm_blocks hash confirmations [] = []
  confirm_blocks hash confirmations (block ∷ blocks) =
      if text_eq block.hash hash
      then confirmed_block confirmations block ∷ blocks
      else block ∷ confirm_blocks hash confirmations blocks

  unfoldable pub update_block_chain_state : MetricsState F → Text → ℤ → MetricsState F
  update_block_chain_state s hash confirmations = record s {
    blocks = confirm_blocks hash confirmations s.blocks;
  }

  -- `block.status == "submitted" || block.status == "duplicate"`
  unfoldable pub is_accepted_block : BlockEvent F → Bool
  is_accepted_block block =
      text_eq block.status (codes "submitted") || text_eq block.status (codes "duplicate")

  -- `block.in_active_chain == Some(true)`
  unfoldable pub is_confirmed_block : BlockEvent F → Bool
  is_confirmed_block block = elim block.in_active_chain [ none ↦ false | some active ↦ active ]

  unfoldable pub is_matured_block : BlockEvent F → Bool
  is_matured_block block = text_eq block.reward_status (codes "matured")

  unfoldable pub accepted_hashes : List (BlockEvent F) → List Text
  accepted_hashes [] = []
  accepted_hashes (block ∷ blocks) =
      if is_accepted_block block
      then block.hash ∷ accepted_hashes blocks
      else accepted_hashes blocks

  unfoldable pub blocks_for_confirmation : MetricsState F → List Text
  blocks_for_confirmation s = accepted_hashes s.blocks

  unfoldable pub recent_blocks : MetricsState F → List (BlockEvent F)
  recent_blocks s = sort_by (λ a b. ltb b.created_at a.created_at) s.blocks

  -- The events since `now - window`.
  unfoldable pub events_since : ℕ → List (ShareEvent F) → List (ShareEvent F)
  events_since cutoff [] = []
  events_since cutoff (event ∷ events) =
      if leb cutoff event.created_at
      then event ∷ events_since cutoff events
      else events_since cutoff events

  unfoldable pub recent_events : MetricsState F → ℕ → ℕ → List (ShareEvent F)
  recent_events s now window = events_since (now - window) s.events

pub record MetricsSnapshot (F : Type 0) : Type 0 where
  pub miners : List (MinerStats F)
  pub total_hashrate_gh : F
  pub total_blocks : ℕ
  pub accepted_blocks : ℕ
  pub confirmed_blocks : ℕ
  pub matured_blocks : ℕ
  pub global_best_difficulty : F
  pub global_best_worker : Option Text

module _ {F : Type 0} (f : FloatOps F) where
  unfoldable pub miner_values : List (Text × MinerStats F) → List (MinerStats F)
  miner_values [] = []
  miner_values ((worker, stats) ∷ miners) = stats ∷ miner_values miners

  unfoldable pub sum_hashrates : F → List (MinerStats F) → F
  sum_hashrates sum [] = sum
  sum_hashrates sum (stats ∷ miners) = sum_hashrates (f.add sum stats.hashrate_gh) miners

  -- The state with the inactive miners gone, and its report.
  unfoldable pub snapshot : MetricsStore F → ℕ → MetricsStore F × MetricsSnapshot F
  snapshot store now =
      let pruned = prune_inactive store.miner_inactive_timeout store.inner now in
      let miners = sort_by (λ a b. f.lt b.hashrate_gh a.hashrate_gh) (miner_values pruned.miners) in
      let matured_blocks = count is_matured_block pruned.blocks in
      (
        record store { inner = pruned },
        record {
          miners = miners;
          total_hashrate_gh = sum_hashrates (f.of_nat 0) miners;
          total_blocks = matured_blocks;
          accepted_blocks = count is_accepted_block pruned.blocks;
          confirmed_blocks = count is_confirmed_block pruned.blocks;
          matured_blocks = matured_blocks;
          global_best_difficulty = pruned.global_best_difficulty;
          global_best_worker = pruned.global_best_worker;
        },
      )
