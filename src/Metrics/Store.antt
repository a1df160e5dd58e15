-- ===== src/Metrics/Store.antt =====
-- The state of `MetricsStore` in src/metrics.rs, and its pruning. A time or duration is in
-- milliseconds.
pub mod Pruning
use stratum_bee.Float.{FloatOps}
use stratum_bee.Base.{
  ltb, if◌then◌else◌, length, Text, ℤ, ℕ, ◌-◌, ◌*◌, ◌≤◌, max, Bool, Option, none, List, [], ◌∷◌,
  arith,
}
use stratum_bee.Metrics.Counters.{PoolCounters, zero_counters}
use stratum_bee.Metrics.Maps.{remove}

pub record MinerStats (F : Type 0) : Type 0 where
  pub worker : Text
  pub difficulty : F
  pub best_difficulty : F
  pub best_submitted_difficulty : F
  pub shares : ℕ
  pub rejected : ℕ
  pub stale : ℕ
  pub hashrate_gh : F
  pub last_seen : ℕ
  pub notify_to_submit_ms : F
  pub submit_rtt_ms : F
  pub last_share_time : Option ℕ
  pub user_agent : Option Text
  pub protocol : Option Text
  pub session_id : Option Text

pub record ShareEvent (F : Type 0) : Type 0 where
  pub worker : Text
  pub user_agent : Option Text
  pub protocol : Option Text
  pub session_id : Option Text
  pub difficulty : F
  pub accepted : Bool
  pub is_block : Bool
  pub created_at : ℕ
  pub job_age_secs : ℕ
  pub notify_delay_ms : ℕ
  pub reconnect_recent : Bool

pub record BlockEvent (F : Type 0) : Type 0 where
  pub height : ℕ
  pub hash : Text
  pub worker : Text
  pub difficulty : F
  pub status : Text
  pub reason : Option Text
  pub confirmations : Option ℤ
  pub in_active_chain : Option Bool
  pub reward_status : Text
  pub created_at : ℕ

pub record ShareSample (F : Type 0) : Type 0 where
  pub time : ℕ
  pub difficulty : F

pub record MetricsState (F : Type 0) : Type 0 where
  pub miners : List (Text × MinerStats F)
  pub events : List (ShareEvent F)
  pub blocks : List (BlockEvent F)
  pub share_samples : List (Text × List (ShareSample F))
  pub global_best_difficulty : F
  pub global_best_worker : Option Text
  pub max_events : ℕ
  pub max_blocks : ℕ

pub record MetricsStore (F : Type 0) : Type 0 where
  pub inner : MetricsState F
  pub miner_inactive_timeout : ℕ
  pub counters : PoolCounters
  pub started_at : ℕ

-- `while list.len() > max { list.pop_front(); }`
unfoldable pub trim_front {ℓ} : {A : Type ℓ} → ℕ → List A → List A
trim_front max [] = []
trim_front max (x ∷ xs) =
    let rest = trim_front max xs in if ltb max (length (x ∷ xs)) then rest else x ∷ xs

pub length-trim_front {ℓ} : {A : Type ℓ} (max : ℕ) (xs : List A) → length (trim_front max xs) ≤ max
unfolding trim_front
length-trim_front max [] = omega arith
length-trim_front max (x ∷ xs) = ground (arith, length-trim_front max xs)

module _ {F : Type 0} (f : FloatOps F) where
  -- `MetricsStore::new`, with the timeout in seconds.
  unfoldable pub new_store : ℕ → ℕ → ℕ → ℕ → MetricsStore F
  new_store now max_events max_blocks miner_inactive_timeout_secs = record {
    inner = record {
      miners = [];
      events = [];
      blocks = [];
      share_samples = [];
      global_best_difficulty = f.of_nat 0;
      global_best_worker = none;
      max_events = max_events;
      max_blocks = max_blocks;
    };
    miner_inactive_timeout = miner_inactive_timeout_secs * 1000;
    counters = zero_counters;
    started_at = now;
  }

  -- `MinerStats` of a worker that is not known yet.
  unfoldable pub fresh_stats : Text → F → F → F → ℕ → MinerStats F
  fresh_stats worker difficulty notify_to_submit_ms submit_rtt_ms now = record {
    worker = worker;
    difficulty = difficulty;
    best_difficulty = f.of_nat 0;
    best_submitted_difficulty = f.of_nat 0;
    shares = 0;
    rejected = 0;
    stale = 0;
    hashrate_gh = f.of_nat 0;
    last_seen = now;
    notify_to_submit_ms = notify_to_submit_ms;
    submit_rtt_ms = submit_rtt_ms;
    last_share_time = none;
    user_agent = none;
    protocol = none;
    session_id = none;
  }

module _ {F : Type 0} where
  unfoldable pub is_inactive : ℕ → ℕ → MinerStats F → Bool
  is_inactive timeout now stats = ltb timeout (now - stats.last_seen)

  unfoldable pub stale_workers : ℕ → ℕ → List (Text × MinerStats F) → List Text
  stale_workers timeout now [] = []
  stale_workers timeout now ((worker, stats) ∷ miners) =
      if is_inactive timeout now stats
      then worker ∷ stale_workers timeout now miners
      else stale_workers timeout now miners

  unfoldable pub remove_workers : List Text → MetricsState F → MetricsState F
  remove_workers [] s = s
  remove_workers (worker ∷ workers) s =
      remove_workers workers (record s {
        miners = remove worker s.miners;
        share_samples = remove worker s.share_samples;
      })

  unfoldable pub prune_inactive : ℕ → MetricsState F → ℕ → MetricsState F
  prune_inactive timeout s now = remove_workers (stale_workers timeout now s.miners) s
