-- ===== src/Vardiff.antt =====
-- src/vardiff.rs: the controller of a session's difficulty. Times are in milliseconds; a time before
-- the earlier one counts as no time passed, which every test here takes alike.
pub mod Bounds
use stratum_bee.Base.{
  ltb, if◌then◌else◌, length, drop, is_empty, ℕ, ◌-◌, ◌/◌, Bool, true, false, not, ◌&&◌, ◌||◌,
  Option, none, some, List, [], ◌∷◌, ◌++◌,
}
use stratum_bee.Float.{FloatOps, float_max, float_clamp}

abbrev pub cache_size : ℕ
cache_size = 30

pub record VardiffController (F : Type 0) : Type 0 where
  pub target_share_time : F
  pub retarget_time : F
  pub min_diff : F
  pub max_diff : F
  pub last_retarget : ℕ
  pub session_start : ℕ
  pub ema_rate : F
  pub ema_seeded : Bool
  pub samples : List (ℕ × F)

module _ {F : Type 0} (f : FloatOps F) where
  -- `EMA_ALPHA`, `HYSTERESIS` and `OFFLINE_SECS`
  abbrev pub ema_alpha : F
  ema_alpha = f.div (f.of_nat 1) (f.of_nat 4)

  abbrev pub hysteresis : F
  hysteresis = f.div (f.of_nat 3) (f.of_nat 2)

  abbrev pub offline_secs : F
  offline_secs = f.of_nat 120

  unfoldable pub new_controller : ℕ → F → F → F → F → VardiffController F
  new_controller now target_share_time retarget_time min_diff max_diff =
      let least = float_max f min_diff f.min_positive in
      record {
        target_share_time = float_max f target_share_time (f.of_nat 1);
        retarget_time = float_max f retarget_time (f.of_nat 1);
        min_diff = least;
        max_diff = float_max f max_diff least;
        last_retarget = now;
        session_start = now;
        ema_rate = f.of_nat 0;
        ema_seeded = false;
        samples = [];
      }

  unfoldable pub record_sample : VardiffController F → ℕ → F → VardiffController F
  record_sample vardiff now difficulty =
      let samples = vardiff.samples ++ ((now, difficulty) ∷ []) in
      record vardiff {
        samples = if ltb cache_size (length samples) then drop 1 samples else samples;
      }

  unfoldable pub nearest_p2 : VardiffController F → F → F
  nearest_p2 vardiff value =
      if not (f.is_finite value) || f.le value (f.of_nat 0)
      then vardiff.min_diff
      else (let clamped = float_clamp f value vardiff.min_diff vardiff.max_diff in
          let exponent = f.log2 clamped in
          let lower = f.powf_two (f.floor exponent) in
          let upper = f.powf_two (f.ceil exponent) in
          let chosen = if f.le (f.sub clamped lower) (f.sub upper clamped) then lower else upper in
          float_clamp f chosen vardiff.min_diff vardiff.max_diff)

  unfoldable pub sum_diff : F → List (ℕ × F) → F
  sum_diff sum [] = sum
  sum_diff sum ((_, difficulty) ∷ samples) = sum_diff (f.add sum difficulty) samples

  unfoldable pub last_time : ℕ → List (ℕ × F) → ℕ
  last_time time [] = time
  last_time time ((next, _) ∷ samples) = last_time next samples

  -- `(back - front).num_milliseconds() as f64 / 1000.0`
  unfoldable pub span_secs : List (ℕ × F) → F
  span_secs [] = f.of_nat 0
  span_secs ((first, d) ∷ samples) =
      f.div (f.of_nat (last_time first samples - first)) (f.of_nat 1000)

  -- With no share yet: a miner that has been silent for two minutes is stepped down.
  unfoldable pub retarget_offline : VardiffController F → F → ℕ → Option F
  retarget_offline vardiff current_diff now =
      let age_secs = f.of_nat ((now - vardiff.session_start) / 1000) in
      let stepped =
        nearest_p2 vardiff (float_max f (f.div current_diff (f.of_nat 6)) vardiff.min_diff) in
      if f.lt offline_secs age_secs && f.lt f.epsilon (f.abs (f.sub stepped current_diff))
      then some stepped
      else none

  unfoldable pub update_ema : VardiffController F → F → VardiffController F
  update_ema vardiff instant_rate =
      if vardiff.ema_seeded
      then record vardiff {
        ema_rate =
            f.add (f.mul ema_alpha instant_rate)
              (f.mul (f.sub (f.of_nat 1) ema_alpha) vardiff.ema_rate);
      }
      else record vardiff { ema_rate = instant_rate; ema_seeded = true }

  unfoldable pub retarget_online : VardiffController F → F → VardiffController F × Option F
  retarget_online vardiff current_diff =
      let sum = sum_diff (f.of_nat 0) vardiff.samples in
      let span = span_secs vardiff.samples in
      if f.le span (f.of_nat 0)
      then (vardiff, none)
      else (let vardiff' = update_ema vardiff (f.div sum span) in
          let raw_target = f.mul vardiff'.ema_rate vardiff'.target_share_time in
          let target_diff =
            nearest_p2 vardiff' (float_clamp f raw_target vardiff'.min_diff vardiff'.max_diff) in
          let should_up = f.le (f.mul current_diff hysteresis) target_diff in
          let should_down = f.le target_diff (f.div current_diff hysteresis) in
          (vardiff', (if should_up || should_down then some target_diff else none)))

  unfoldable pub maybe_retarget : VardiffController F → F → ℕ → VardiffController F × Option F
  maybe_retarget vardiff current_diff now =
      let since_ms = now - vardiff.last_retarget in
      if ltb since_ms (f.trunc_i64 (f.mul vardiff.retarget_time (f.of_nat 1000)))
      then (vardiff, none)
      else (let vardiff' = record vardiff { last_retarget = now } in
          if is_empty vardiff'.samples
          then (vardiff', retarget_offline vardiff' current_diff now)
          else retarget_online vardiff' current_diff)
