-- ===== src/Examples/Stats.antt =====
-- The store of the metrics at concrete values.
use mathlib.Core.Option
use stratum_bee.Base.{
  Text, codes, text_eq, ℤ, ℕ, ◌+◌, ◌≡◌, refl, true, false, none, some, [], ◌∷◌, arith,
}
use stratum_bee.Metrics.Maps.{lookup, remove}
use stratum_bee.Metrics.Store.{
  MinerStats, BlockEvent, MetricsState, MetricsStore, new_store, fresh_stats, is_inactive,
  stale_workers, remove_workers, prune_inactive,
}
use stratum_bee.Metrics.Store.Pruning.{IsStore}
use stratum_bee.Metrics.Shares.{ShareReport, record_share}
use stratum_bee.Metrics.Shares.Totals.{record_share-IsStore, record_share-counts}
use stratum_bee.Metrics.Blocks.{is_matured_block}
use stratum_bee.Metrics.Blocks.Chain.{IsConsistent, has_hash, IsBlocks}
use stratum_bee.Examples.Toys.{toy_floats}

abbrev a_miner : MinerStats ℕ
a_miner = fresh_stats toy_floats (codes "a") 16 0 0 1_000

abbrev toy_state : MetricsState ℕ
toy_state = record (new_store toy_floats 0 2 2 30).inner {
  miners =
      (codes "a", a_miner) ∷ (codes "b", fresh_stats toy_floats (codes "b") 16 0 0 60_000) ∷ [];
}

abbrev toy_store : MetricsStore ℕ
toy_store = record (new_store toy_floats 0 2 2 30) { inner = toy_state }

toy_state-IsStore : IsStore toy_state
unfolding new_store lookup text_eq
toy_state-IsStore = record {
  keyed = (refl, (refl, tt));
  few_samples = tt;
  few_events = omega arith;
}

abbrev toy_report : ShareReport ℕ
toy_report = record {
  worker = codes "a";
  target_difficulty = 16;
  share_difficulty = 40;
  accepted = true;
  is_block = false;
  notify_to_submit_ms = ℤ.pos 12;
  submit_rtt_ms = 1;
  job_age_secs = 3;
  notify_delay_ms = 12;
  reconnect_recent = false;
}

record_share-IsStore_example : IsStore (record_share toy_floats toy_store 70_000 toy_report).inner
record_share-IsStore_example =
    record_share-IsStore toy_floats toy_store 70_000 toy_report toy_state-IsStore

record_share-counts_example :
    let before = (prune_inactive 30_000 toy_state 70_000).miners in
    let after = (record_share toy_floats toy_store 70_000 toy_report).inner.miners in
    let old =
      Option.get_or
        (lookup (codes "a") before)
        (fresh_stats toy_floats (codes "a") 16 12 1 70_000) in
    ((stats : MinerStats ℕ) × (lookup (codes "a") after ≡ some stats)
      × (stats.shares ≡ old.shares + 1)
      × (stats.rejected ≡ old.rejected)
      × (stats.last_seen ≡ 70_000))
    × ((other : Text)
        → text_eq (codes "a") other ≡ false
        → lookup other after ≡ lookup other before)
unfolding new_store prune_inactive stale_workers is_inactive remove_workers remove lookup
    fresh_stats text_eq
record_share-counts_example =
    record_share-counts toy_floats toy_store 70_000 toy_report (omega arith) (omega arith)

abbrev a_block : BlockEvent ℕ
a_block = record {
  height = 7;
  hash = codes "00ab";
  worker = codes "a";
  difficulty = 40;
  status = codes "submitted";
  reason = none;
  confirmations = none;
  in_active_chain = none;
  reward_status = codes "pending_confirmation";
  created_at = 70_000;
}

a_block-IsConsistent : IsConsistent a_block
unfolding is_matured_block text_eq
a_block-IsConsistent = λ h. absurd (ground arith)

abbrev block_state : MetricsState ℕ
block_state = record toy_state { blocks = a_block ∷ [] }

block_state-IsBlocks : IsBlocks block_state
unfolding has_hash new_store
block_state-IsBlocks = record {
  few = omega arith;
  distinct = (refl, tt);
  consistent = (a_block-IsConsistent, tt);
}
