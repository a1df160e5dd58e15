-- ===== src/Float.antt =====
-- `f64`. There are no floating-point numbers here, so their type and the operations that the code
-- makes are parameters.
use stratum_bee.Base.{if◌then◌else◌, ℤ, ℕ, ◌≡◌, Bool, false, not, ◌||◌, Option}

pub record FloatOps (F : Type 0) : Type 0 where
  pub of_nat : ℕ → F
  -- `x as f64` of an `i64`
  pub of_int : ℤ → F
  pub add : F → F → F
  pub sub : F → F → F
  pub mul : F → F → F
  pub div : F → F → F
  -- `<`, `<=` and `is_finite`
  pub lt : F → F → Bool
  pub le : F → F → Bool
  pub is_finite : F → Bool
  pub infinity : F
  pub max_value : F
  pub min_positive : F
  pub epsilon : F
  pub abs : F → F
  -- `x.round() as u128`
  pub round_u128 : F → ℕ
  -- `x as i64` of a number that is not negative
  pub trunc_i64 : F → ℕ
  pub log2 : F → F
  -- `2f64.powf(x)`
  pub powf_two : F → F
  -- `x.powi(n)`
  pub powi : F → ℤ → F
  pub floor : F → F
  pub ceil : F → F
  -- `BigUint::to_f64`
  pub of_biguint : ℕ → Option F

-- No number is less than itself, not-a-number included.
pub record FloatLaws {F : Type 0} (f : FloatOps F) : Type 0 where
  pub lt-irrefl : (x : F) → f.lt x x ≡ false

module _ {F : Type 0} (f : FloatOps F) where
  -- Not-a-number alone is not at most itself.
  abbrev pub is_nan : F → Bool
  is_nan x = not (f.le x x)

  -- `x.max(y)` and `x.min(y)`, which give the other operand where one is not-a-number.
  abbrev pub float_max : F → F → F
  float_max x y = if f.lt x y || is_nan x then y else x

  abbrev pub float_min : F → F → F
  float_min x y = if f.lt y x || is_nan x then y else x

  -- `x.clamp(lo, hi)`
  abbrev pub float_clamp : F → F → F → F
  float_clamp x lo hi = if f.lt x lo then lo else if f.lt hi x then hi else x
