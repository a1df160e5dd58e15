-- ===== src/Vardiff/Bounds.antt =====
-- Theorems on what the controller of src/vardiff.rs proposes.
use stratum_bee.Base.{
  length, length-append, length-drop, ℕ, ◌-◌, ◌≤◌, ◌≡◌, false, some, [], ◌∷◌, ◌++◌, arith,
}
use stratum_bee.Float.{FloatOps, FloatLaws, float_max, float_clamp}
use stratum_bee.Vardiff.{
  cache_size, VardiffController, new_controller, record_sample, nearest_p2, sum_diff, span_secs,
  retarget_offline, update_ema, retarget_online, maybe_retarget,
}

module _ {F : Type 0} (f : FloatOps F) (laws : FloatLaws f) where
  -- The number is neither below the least nor above the greatest difficulty.
  abbrev pub Within : F → F → F → Type 0
  Within lo hi x = (f.lt x lo ≡ false) × (f.lt hi x ≡ false)

  clamp-Within : (x lo hi : F) → f.lt hi lo ≡ false → Within lo hi (float_clamp f x lo hi)
  clamp-Within x lo hi h = ground (arith, laws.lt-irrefl lo, laws.lt-irrefl hi)

  nearest_p2-Within :
      (v : VardiffController F) (value : F)
      → f.lt v.max_diff v.min_diff ≡ false
      → Within v.min_diff v.max_diff (nearest_p2 f v value)
  unfolding nearest_p2
  nearest_p2-Within v value h =
      let clamped = float_clamp f value v.min_diff v.max_diff in
      let exponent = f.log2 clamped in
      ground (
        arith,
        laws.lt-irrefl v.min_diff,
        clamp-Within (f.powf_two (f.floor exponent)) v.min_diff v.max_diff h,
        clamp-Within (f.powf_two (f.ceil exponent)) v.min_diff v.max_diff h,
      )

  offline-Within :
      (v : VardiffController F) (current : F) (now : ℕ) (diff : F)
      → f.lt v.max_diff v.min_diff ≡ false
      → retarget_offline f v current now ≡ some diff
      → Within v.min_diff v.max_diff diff
  unfolding retarget_offline
  offline-Within v current now diff h e =
      ground (arith, nearest_p2-Within v (float_max f (f.div current (f.of_nat 6)) v.min_diff) h)

  -- The two moves of the rate leave all else alone.
  record Kept (v v' : VardiffController F) : Type 0 where
    last_retarget : v'.last_retarget ≡ v.last_retarget
    min_diff : v'.min_diff ≡ v.min_diff
    max_diff : v'.max_diff ≡ v.max_diff

  update_ema-Kept : (v : VardiffController F) (rate : F) → Kept v (update_ema f v rate)
  unfolding update_ema
  update_ema-Kept v rate = ground arith

  online-Within :
      (v : VardiffController F) (current : F) (diff : F)
      → f.lt v.max_diff v.min_diff ≡ false
      → (retarget_online f v current).1 ≡ some diff
      → Within v.min_diff v.max_diff diff × Kept v (retarget_online f v current).0
  unfolding retarget_online
  online-Within v current diff h e =
      let v' = update_ema f v (f.div (sum_diff f (f.of_nat 0) v.samples) (span_secs f v.samples)) in
      let raw = f.mul v'.ema_rate v'.target_share_time in
      let kept =
        update_ema-Kept v (f.div (sum_diff f (f.of_nat 0) v.samples) (span_secs f v.samples)) in
      let ordered : f.lt v'.max_diff v'.min_diff ≡ false = rw (kept.min_diff, kept.max_diff) h in
      let bounds = nearest_p2-Within v' (float_clamp f raw v'.min_diff v'.max_diff) ordered in
      ground (arith, bounds, kept)

  -- The controller of a new session has its bounds in order.
  pub new_controller-ordered :
      (now : ℕ) (target_time retarget lo hi : F)
      → let v = new_controller f now target_time retarget lo hi in
        f.lt v.max_diff v.min_diff ≡ false
  unfolding new_controller
  new_controller-ordered now target_time retarget lo hi =
      ground (arith, laws.lt-irrefl (float_max f lo f.min_positive))

  -- Where the upper bound is not below the lower one and no number is less than itself, a proposed
  -- difficulty lies within the bounds and is proposed no sooner than the retarget time after the
  -- last retargeting, which is then set to the present, while the bounds stay.
  pub maybe_retarget_bounds :
      (v : VardiffController F) (current : F) (now : ℕ) (diff : F)
      → f.lt v.max_diff v.min_diff ≡ false
      → (maybe_retarget f v current now).1 ≡ some diff
      → let v' = (maybe_retarget f v current now).0 in
        Within v.min_diff v.max_diff diff
        × (f.trunc_i64 (f.mul v.retarget_time (f.of_nat 1000)) ≤ now - v.last_retarget)
        × (v'.last_retarget ≡ now)
        × (v'.min_diff ≡ v.min_diff)
        × (v'.max_diff ≡ v.max_diff)
  unfolding maybe_retarget
  maybe_retarget_bounds v current now diff h e =
      let moved = record v { last_retarget = now } in
      ground (arith, offline-Within moved current now diff h, online-Within moved current diff h)

  -- Recording a sample keeps a controller that has at most 30 samples at no more than 30.
  pub length-record_sample :
      (v : VardiffController F) (now : ℕ) (diff : F)
      → length v.samples ≤ cache_size
      → length (record_sample f v now diff).samples ≤ cache_size
  unfolding record_sample
  length-record_sample v now diff h = ground (
    arith,
    length-append v.samples ((now, diff) ∷ []),
    length-drop 1 (v.samples ++ ((now, diff) ∷ [])),
  )
