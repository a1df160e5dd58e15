-- ===== src/Share/Target.antt =====
-- Theorems on the number that a share target of src/share.rs stands for.
use mathlib.Core.List.{reverse-append}
use native.Mathlib.Nat.{pow-suc}
use native.Mathlib.Decide.{dec_lt}
use stratum_bee.Base.{
  ltb, ltb→lt, Bool-cases, length, replicate, length-append, length-replicate, length-reverse,
  Bytes, from_le_bytes, ok, bail, ℕ, zero, suc, ◌+◌, ◌-◌, ◌*◌, ◌/◌, ◌^◌, ◌≤◌, ◌<◌, min, max, ◌≡◌,
  refl, ap, ◌∙◌, ◌⊎◌, inl, inr, true, false, [], ◌∷◌, ◌++◌, reverse, arith,
}
use stratum_bee.Crates.{Crates, CrateLaws}
use stratum_bee.Float.{FloatOps}
use stratum_bee.Share.{diff1_target, scale, share_target_le}

pub from_le_bytes-append :
    (xs ys : Bytes)
    → from_le_bytes (xs ++ ys) ≡ from_le_bytes xs + 256 ^ length xs * from_le_bytes ys
from_le_bytes-append [] ys = omega arith
from_le_bytes-append (x ∷ xs) ys = omega (
  arith,
  from_le_bytes-append xs ys,
  ap (λ (p : ℕ). p * from_le_bytes ys) (pow-suc 256 (length xs)),
)

from_le_bytes-zeros : (k : ℕ) → from_le_bytes (reverse (replicate k 0)) ≡ 0
from_le_bytes-zeros zero = refl
from_le_bytes-zeros (suc k) =
    ap from_le_bytes (reverse-append (0 ∷ []) (replicate k 0))
    ∙ omega (arith, from_le_bytes-append (reverse (replicate k 0)) (0 ∷ []), from_le_bytes-zeros k)

-- Zeros in front of big-endian digits change nothing.
from_le_bytes-pad :
    (k : ℕ) (be : Bytes)
    → from_le_bytes (reverse (replicate k 0 ++ be)) ≡ from_le_bytes (reverse be)
from_le_bytes-pad k be =
    ap from_le_bytes (reverse-append (replicate k 0) be)
    ∙ omega (
      arith,
      from_le_bytes-append (reverse be) (reverse (replicate k 0)),
      ap (λ (t : ℕ). 256 ^ length (reverse be) * t) (from_le_bytes-zeros k),
    )

length-pad :
    (be : Bytes) → length be ≤ 32 → length (reverse (replicate (32 - length be) 0 ++ be)) ≡ 32
length-pad be h = omega (
  arith,
  length-reverse (replicate (32 - length be) 0 ++ be),
  length-append (replicate (32 - length be) 0) be,
  length-replicate {A = ℕ} (32 - length be) 0,
)

module _ {F : Type 0} (c : Crates) (f : FloatOps F) (laws : CrateLaws c) where
  -- The difficulty in units of 10^-12, at least one.
  abbrev pub scaled_difficulty : F → ℕ
  scaled_difficulty diff = max (f.round_u128 (f.mul diff (f.of_nat scale))) 1

  long_target : (n : ℕ) → 32 < length (c.to_bytes_be n) → 2 ^ 256 ≤ n
  long_target n long = elim (dec_lt n (2 ^ 256)) [
    | yes p ↦ absurd (omega (arith, (laws.length-to_bytes_be n).1 p))
    | no p ↦ omega arith
  ]

  -- A positive finite difficulty has a target of 32 bytes: the first target divided by the
  -- difficulty in units of 10^-12, or the largest 256-bit number where that is more.
  pub share_target_le-value :
      (diff : F)
      → f.is_finite diff ≡ true
      → f.le diff (f.of_nat 0) ≡ false
      → (target : Bytes) × (share_target_le c f diff ≡ ok target)
        × (length target ≡ 32)
        × (from_le_bytes target ≡ min (diff1_target * scale / scaled_difficulty diff) (2 ^ 256 - 1))
  unfolding share_target_le
  share_target_le-value diff finite positive =
      let n = diff1_target * scale / scaled_difficulty diff in
      let be = c.to_bytes_be n in
      elim (Bool-cases (ltb 32 (length be))) [
        | inl long ↦ (
          replicate 32 0xff,
          rw (finite, positive, long),
          refl,
          omega (arith, long_target n (ltb→lt 32 (length be) long)),
        )
        | inr short ↦ (
          reverse (replicate (32 - length be) 0 ++ be),
          rw (finite, positive, short),
          length-pad be (ground arith),
          omega (
            arith,
            from_le_bytes-pad (32 - length be) be,
            laws.to_bytes_be-value n,
            (laws.length-to_bytes_be n).0 (ground arith),
          ),
        )
      ]

  -- Any other difficulty is refused.
  pub share_target_le-refused :
      (diff : F)
      → (f.is_finite diff ≡ false) ⊎ (f.le diff (f.of_nat 0) ≡ true)
      → share_target_le c f diff ≡ bail "diff must be finite and > 0"
  unfolding share_target_le
  share_target_le-refused diff h = ground arith
