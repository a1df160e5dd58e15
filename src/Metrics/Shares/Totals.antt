-- ===== src/Metrics/Shares/Totals.antt =====
-- Theorems on `record_share` of src/metrics.rs.
use mathlib.Core.Option
use stratum_bee.Base.{
  if◌then◌else◌, Bool-cases, length, length-append, length-drop, Text, text_eq, ℕ, ◌+◌, ◌^◌, ◌≤◌,
  ◌<◌, ◌≡◌, refl, inl, inr, Bool, true, false, ◌&&◌, some, List, [], ◌∷◌, ◌++◌, arith,
}
use stratum_bee.Float.{FloatOps, FloatLaws}
use stratum_bee.Metrics.Store.{
  MinerStats, ShareSample, MetricsState, MetricsStore, length-trim_front, fresh_stats,
  stale_workers, remove_workers, prune_inactive,
}
use stratum_bee.Metrics.Store.Pruning.{
  Keyed-update_entry, All-update_entry, HasFewSamples, IsStore, prune_inactive-IsStore,
}
use stratum_bee.Metrics.Shares.{
  ShareReport, push_sample, count_share, sample_share, record_share_state, record_share,
}
use stratum_bee.Metrics.Maps.{lookup, lookup-update_entry, lookup-update_entry_other}
use stratum_bee.Metrics.Counters.{fetch_add}

module _ {F : Type 0} (f : FloatOps F) where
  length-push_sample :
      (now : ℕ) (d : F) (samples : List (ShareSample F))
      → length samples ≤ 40
      → length (push_sample f now d samples) ≤ 40
  unfolding push_sample
  length-push_sample now d samples h =
      let pushed = samples ++ (record { time = now; difficulty = d } ∷ []) in
      let len = length-append samples (record { time = now; difficulty = d } ∷ []) in
      ground (arith, h, len, length-drop 1 pushed)

  sample_share-IsStore :
      (r : ShareReport F) (now : ℕ) (s : MetricsState F)
      → IsStore s
      → IsStore (sample_share f r now s)
  unfolding sample_share
  sample_share-IsStore r now s v = elim (Bool-cases r.accepted) [
    | inr e ↦ rw e v
    | inl e ↦ rw e (record {
      keyed = v.keyed;
      few_samples =
          All-update_entry HasFewSamples r.worker [] (push_sample f now r.target_difficulty)
            s.share_samples (λ k. length-push_sample now r.target_difficulty [] (omega arith))
            (λ k samples h. length-push_sample now r.target_difficulty samples h) v.few_samples;
      few_events = v.few_events;
    })
  ]

  -- Recording a share keeps a well-formed store: its workers are all different, no worker has more
  -- than 40 samples, and the events stay within their bound.
  pub record_share-IsStore :
      (store : MetricsStore F) (now : ℕ) (r : ShareReport F)
      → IsStore store.inner
      → IsStore (record_share f store now r).inner
  unfolding record_share record_share_state
  record_share-IsStore store now r v =
      let pruned = prune_inactive store.miner_inactive_timeout store.inner now in
      let w =
        sample_share-IsStore r now pruned
          (prune_inactive-IsStore store.miner_inactive_timeout store.inner now v) in
      record {
        keyed = Keyed-update_entry r.worker _ _ _ w.keyed;
        few_samples = w.few_samples;
        few_events = length-trim_front _ _;
      }

  sample_share-kept :
      (r : ShareReport F) (now : ℕ) (s : MetricsState F)
      → ((sample_share f r now s).miners ≡ s.miners)
        × ((sample_share f r now s).global_best_difficulty ≡ s.global_best_difficulty)
        × ((sample_share f r now s).global_best_worker ≡ s.global_best_worker)
  unfolding sample_share
  sample_share-kept r now s = elim (Bool-cases r.accepted) [
    | inl e ↦ rw e (refl, refl, refl)
    | inr e ↦ rw e (refl, refl, refl)
  ]

  remove_workers-best :
      (workers : List Text) (s : MetricsState F)
      → ((remove_workers workers s).global_best_difficulty ≡ s.global_best_difficulty)
        × ((remove_workers workers s).global_best_worker ≡ s.global_best_worker)
  unfolding remove_workers
  remove_workers-best [] s = (refl, refl)
  remove_workers-best (worker ∷ workers) s = remove_workers-best workers _

  -- Where no number is less than itself, the best difficulty after an accepted share is not below
  -- the share's, and the best difficulty and its worker change together, to those of the share,
  -- exactly if the share is accepted and above the best before it.
  pub record_share-best :
      FloatLaws f
      → (store : MetricsStore F) (now : ℕ) (r : ShareReport F)
      → let before = store.inner in
        let after = (record_share f store now r).inner in
        let better = r.accepted && f.lt before.global_best_difficulty r.share_difficulty in
        (r.accepted ≡ true → f.lt after.global_best_difficulty r.share_difficulty ≡ false)
        × (after.global_best_difficulty
            ≡ (if better then r.share_difficulty else before.global_best_difficulty))
        × (after.global_best_worker ≡ (if better then some r.worker else before.global_best_worker))
  unfolding record_share record_share_state prune_inactive
  record_share-best laws store now r =
      let workers = stale_workers store.miner_inactive_timeout now store.inner.miners in
      let pruned = remove_workers workers store.inner in
      let (_, same, same_worker) = sample_share-kept r now pruned in
      let (best, worker) = remove_workers-best workers store.inner in
      (
        λ accepted. ground (arith, same, best, laws.lt-irrefl r.share_difficulty),
        ground (arith, same, best),
        ground (arith, same_worker, worker, best),
      )

  counted :
      (accepted : Bool) (n : ℕ)
      → n + 1 < 2 ^ 64
      → (if accepted then fetch_add n else n) ≡ (if accepted then n + 1 else n)
  counted true n small = omega (arith, small)
  counted false n small = refl

  counted' :
      (accepted : Bool) (n : ℕ)
      → n + 1 < 2 ^ 64
      → (if accepted then n else fetch_add n) ≡ (if accepted then n else n + 1)
  counted' true n small = refl
  counted' false n small = omega (arith, small)

  -- Where the worker's two counts after pruning are below the largest 64-bit number, an accepted
  -- share adds one to its worker's shares and none to the rejected ones, any other share adds one
  -- to the rejected ones and none to the shares, the worker is marked as seen now, and every other
  -- worker's figures are as pruning left them.
  pub record_share-counts :
      (store : MetricsStore F) (now : ℕ) (r : ShareReport F)
      → let before = (prune_inactive store.miner_inactive_timeout store.inner now).miners in
        let after = (record_share f store now r).inner.miners in
        let zero_stats =
          fresh_stats f r.worker r.target_difficulty
            (f.of_int r.notify_to_submit_ms)
            r.submit_rtt_ms
            now in
        let old = Option.get_or (lookup r.worker before) zero_stats in
        old.shares + 1 < 2 ^ 64
        → old.rejected + 1 < 2 ^ 64
        → ((stats : MinerStats F) × (lookup r.worker after ≡ some stats)
            × (stats.shares ≡ (if r.accepted then old.shares + 1 else old.shares))
            × (stats.rejected ≡ (if r.accepted then old.rejected else old.rejected + 1))
            × (stats.last_seen ≡ now))
          × ((other : Text)
              → text_eq r.worker other ≡ false
              → lookup other after ≡ lookup other before)
  unfolding record_share record_share_state count_share
  record_share-counts store now r small small' =
      let pruned = prune_inactive store.miner_inactive_timeout store.inner now in
      let (miners, _, _) = sample_share-kept r now pruned in
      rw miners (
        (
          _,
          lookup-update_entry r.worker _ _ pruned.miners,
          counted r.accepted _ small,
          counted' r.accepted _ small',
          refl,
        ),
        λ other h. lookup-update_entry_other r.worker other _ _ pruned.miners h,
      )
