-- ===== src/Metrics/Shares.antt =====
-- `record_share`, `record_stale` and `record_miner_seen` of src/metrics.rs.
pub mod Totals
use stratum_bee.Base.{
  ltb, if◌then◌else◌, length, drop, Text, ℤ, ℕ, ◌-◌, max, Bool, ◌&&◌, Option, none, some, List, [],
  ◌∷◌, ◌++◌,
}
use stratum_bee.Float.{FloatOps}
use stratum_bee.Metrics.Counters.{StaleReason, fetch_add, inc_stale}
use stratum_bee.Metrics.Maps.{lookup, update_entry}
use stratum_bee.Metrics.Store.{
  MinerStats, ShareEvent, ShareSample, MetricsState, MetricsStore, trim_front, fresh_stats,
  prune_inactive,
}
use mathlib.Core.Option

-- `SHARE_CACHE_SIZE`
abbrev pub share_cache_size : ℕ
share_cache_size = 40

-- The arguments of `record_share`.
pub record ShareReport (F : Type 0) : Type 0 where
  pub worker : Text
  pub target_difficulty : F
  pub share_difficulty : F
  pub accepted : Bool
  pub is_block : Bool
  pub notify_to_submit_ms : ℤ
  pub submit_rtt_ms : F
  pub job_age_secs : ℕ
  pub notify_delay_ms : ℕ
  pub reconnect_recent : Bool

module _ {F : Type 0} (f : FloatOps F) where
  -- The samples with the new one.
  unfoldable pub push_sample : ℕ → F → List (ShareSample F) → List (ShareSample F)
  push_sample now target_difficulty samples =
      let pushed = samples ++ (record { time = now; difficulty = target_difficulty } ∷ []) in
      if ltb share_cache_size (length pushed) then drop 1 pushed else pushed

  unfoldable pub sum_samples : F → List (ShareSample F) → F
  sum_samples sum [] = sum
  sum_samples sum (sample ∷ samples) = sum_samples (f.add sum sample.difficulty) samples

  unfoldable pub back_time : ℕ → List (ShareSample F) → ℕ
  back_time time [] = time
  back_time time (sample ∷ samples) = back_time sample.time samples

  -- The hash rate in GH/s over the samples, of which there are two at least.
  unfoldable pub sampled_hashrate : List (ShareSample F) → Option F
  sampled_hashrate [] = none
  sampled_hashrate (first ∷ []) = none
  sampled_hashrate (first ∷ second ∷ samples) =
      let window_ms = max (back_time first.time (second ∷ samples) - first.time) 1 in
      let sum_diff = sum_samples (f.of_nat 0) (second ∷ samples) in
      let window_sec = f.div (f.of_nat window_ms) (f.of_nat 1000) in
      some (f.div (f.div (f.mul sum_diff (f.of_nat 4294967296)) window_sec) (f.of_nat 1000000000))

  -- `x * 0.8 + y * 0.2`
  abbrev smoothed : F → F → F
  smoothed x y =
      f.add (f.mul x (f.div (f.of_nat 4) (f.of_nat 5))) (f.mul y (f.div (f.of_nat 1) (f.of_nat 5)))

  unfoldable pub count_share : ShareReport F → Option F → ℕ → MinerStats F → MinerStats F
  count_share r hashrate_update now stats = record stats {
    difficulty = r.target_difficulty;
    last_seen = now;
    best_submitted_difficulty =
        if f.lt stats.best_submitted_difficulty r.share_difficulty
        then r.share_difficulty
        else stats.best_submitted_difficulty;
    shares = if r.accepted then fetch_add stats.shares else stats.shares;
    best_difficulty =
        if r.accepted && f.lt stats.best_difficulty r.share_difficulty
        then r.share_difficulty
        else stats.best_difficulty;
    hashrate_gh =
        if r.accepted then Option.get_or hashrate_update stats.hashrate_gh else stats.hashrate_gh;
    last_share_time = if r.accepted then some now else stats.last_share_time;
    rejected = if r.accepted then stats.rejected else fetch_add stats.rejected;
    notify_to_submit_ms = smoothed stats.notify_to_submit_ms (f.of_int r.notify_to_submit_ms);
    submit_rtt_ms = smoothed stats.submit_rtt_ms r.submit_rtt_ms;
  }

  unfoldable pub share_event : ShareReport F → Option (MinerStats F) → ℕ → ShareEvent F
  share_event r stats now = record {
    worker = r.worker;
    user_agent = elim stats [ none ↦ none | some known ↦ known.user_agent ];
    protocol = elim stats [ none ↦ none | some known ↦ known.protocol ];
    session_id = elim stats [ none ↦ none | some known ↦ known.session_id ];
    difficulty = r.share_difficulty;
    accepted = r.accepted;
    is_block = r.is_block;
    created_at = now;
    job_age_secs = r.job_age_secs;
    notify_delay_ms = r.notify_delay_ms;
    reconnect_recent = r.reconnect_recent;
  }

  -- The sample of an accepted share, on the state.
  unfoldable pub sample_share : ShareReport F → ℕ → MetricsState F → MetricsState F
  sample_share r now s =
      if r.accepted
      then record s {
        share_samples =
            update_entry r.worker [] (push_sample now r.target_difficulty) s.share_samples;
      }
      else s

  -- `hashrate_update`, once the sample is stored.
  unfoldable pub hashrate_of : ShareReport F → MetricsState F → Option F
  hashrate_of r s =
      if r.accepted
      then sampled_hashrate (Option.get_or (lookup r.worker s.share_samples) [])
      else none

  unfoldable pub record_share_state : ℕ → MetricsState F → ℕ → ShareReport F → MetricsState F
  record_share_state timeout s now r =
      let pruned = prune_inactive timeout s now in
      let should_update_global_best =
        r.accepted && f.lt pruned.global_best_difficulty r.share_difficulty in
      let sampled = sample_share r now pruned in
      let fresh =
        fresh_stats f r.worker r.target_difficulty (f.of_int r.notify_to_submit_ms) r.submit_rtt_ms
          now in
      let miners =
        update_entry r.worker fresh (count_share r (hashrate_of r sampled) now) sampled.miners in
      let event = share_event r (lookup r.worker miners) now in
      record sampled {
        miners = miners;
        events = trim_front sampled.max_events (sampled.events ++ (event ∷ []));
        global_best_difficulty =
            if should_update_global_best
            then r.share_difficulty
            else sampled.global_best_difficulty;
        global_best_worker =
            if should_update_global_best then some r.worker else sampled.global_best_worker;
      }

  unfoldable pub record_share : MetricsStore F → ℕ → ShareReport F → MetricsStore F
  record_share store now r = record store {
    inner = record_share_state store.miner_inactive_timeout store.inner now r;
  }

  unfoldable pub count_stale : ℕ → MinerStats F → MinerStats F
  count_stale now stats = record stats { stale = fetch_add stats.stale; last_seen = now }

  unfoldable pub record_stale : MetricsStore F → ℕ → Text → StaleReason → MetricsStore F
  record_stale store now worker reason =
      let pruned = prune_inactive store.miner_inactive_timeout store.inner now in
      let fresh = fresh_stats f worker (f.of_nat 0) (f.of_nat 0) (f.of_nat 0) now in
      record store {
        counters = inc_stale store.counters reason;
        inner = record pruned {
          miners = update_entry worker fresh (count_stale now) pruned.miners;
        };
      }

  -- `if new.is_some() { old = new; }`
  abbrev or_else : Option Text → Option Text → Option Text
  or_else none old = old
  or_else (some new) old = some new

  unfoldable pub see_miner :
      F → Option Text → Option Text → Option Text → ℕ → MinerStats F → MinerStats F
  see_miner difficulty user_agent session_id protocol now stats = record stats {
    last_seen = now;
    difficulty = difficulty;
    user_agent = or_else user_agent stats.user_agent;
    session_id = or_else session_id stats.session_id;
    protocol = or_else protocol stats.protocol;
  }

  unfoldable pub record_miner_seen :
      MetricsStore F → ℕ → Text → F → Option Text → Option Text → Option Text → MetricsStore F
  record_miner_seen store now worker difficulty user_agent session_id protocol =
      let pruned = prune_inactive store.miner_inactive_timeout store.inner now in
      let fresh = fresh_stats f worker difficulty (f.of_nat 0) (f.of_nat 0) now in
      record store {
        inner = record pruned {
          miners =
              update_entry worker fresh (see_miner difficulty user_agent session_id protocol now)
                pruned.miners;
        };
      }
