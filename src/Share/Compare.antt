-- ===== src/Share/Compare.antt =====
-- Theorems on `leq_le256` of src/share.rs.
use mathlib.Core.Path.{ap₂}
use stratum_bee.Base.{
  leb, length, get_or, take, All, length-take, take-append_left, Bytes, IsByte, from_le_bytes, ℕ,
  zero, suc, ◌+◌, ◌*◌, ◌^◌, ◌≤◌, ◌<◌, ◌≡◌, refl, sym, ap, ◌∙◌, subst, [], ◌∷◌, append-nil, arith,
}
use stratum_bee.Share.{leq_loop, leq_le256}
use native.Mathlib.Nat.{pow-suc}

from_le_bytes-take :
    (n : ℕ) (a : Bytes)
    → n < length a
    → from_le_bytes (take (suc n) a) ≡ from_le_bytes (take n a) + 256 ^ n * get_or a n 0
from_le_bytes-take n [] h = absurd (omega arith)
from_le_bytes-take zero (x ∷ a) h = omega arith
from_le_bytes-take (suc n) (x ∷ a) h =
    omega (
      arith,
      from_le_bytes-take n a (omega arith),
      ap (λ (p : ℕ). p * get_or a n 0) (pow-suc 256 n),
    )

pub from_le_bytes-lt : (bs : Bytes) → All IsByte bs → from_le_bytes bs < 256 ^ length bs
from_le_bytes-lt [] h = omega arith
from_le_bytes-lt (b ∷ bs) (hb, h) = omega (arith, from_le_bytes-lt bs h, pow-suc 256 (length bs))

All-take : (n : ℕ) (bs : Bytes) → All IsByte bs → All IsByte (take n bs)
All-take zero bs h = tt
All-take (suc n) [] h = tt
All-take (suc n) (b ∷ bs) (hb, h) = (hb, All-take n bs h)

take-lt : (n : ℕ) (bs : Bytes) → All IsByte bs → n ≤ length bs → from_le_bytes (take n bs) < 256 ^ n
take-lt n bs h fits =
    subst (λ k. from_le_bytes (take n bs) < 256 ^ k) (length-take n bs fits)
      (from_le_bytes-lt (take n bs) (All-take n bs h))

-- The higher digit decides.
digit_lt : (p x y a b : ℕ) → x < p → a < b → x + p * a < y + p * b
digit_lt p x y a b hx h = grind arith

leq_loop-leb :
    (n : ℕ) (a b : Bytes)
    → All IsByte a
    → All IsByte b
    → n ≤ length a
    → n ≤ length b
    → leq_loop n a b ≡ leb (from_le_bytes (take n a)) (from_le_bytes (take n b))
unfolding leq_loop
leq_loop-leb zero a b ha hb la lb = refl
leq_loop-leb (suc n) a b ha hb la lb = ground (
  arith,
  leq_loop-leb n a b ha hb (omega arith) (omega arith),
  from_le_bytes-take n a la,
  from_le_bytes-take n b lb,
  take-lt n a ha (omega arith),
  take-lt n b hb (omega arith),
  digit_lt (256 ^ n) (from_le_bytes (take n a)) (from_le_bytes (take n b)) (get_or a n 0)
      (get_or b n 0),
  digit_lt (256 ^ n) (from_le_bytes (take n b)) (from_le_bytes (take n a)) (get_or b n 0)
      (get_or a n 0),
)

take_all : (bs : Bytes) (n : ℕ) → length bs ≡ n → take n bs ≡ bs
take_all bs n h = ap (take n) (sym (append-nil bs)) ∙ take-append_left n bs [] h

-- On two arrays of 32 bytes the comparison of hash and target is the order of the 256-bit little-
-- endian numbers.
pub leq_le256-leb :
    (a b : Bytes)
    → All IsByte a
    → All IsByte b
    → length a ≡ 32
    → length b ≡ 32
    → leq_le256 a b ≡ leb (from_le_bytes a) (from_le_bytes b)
unfolding leq_le256
leq_le256-leb a b ha hb la lb =
    leq_loop-leb 32 a b ha hb (omega arith) (omega arith)
    ∙ ap₂ (λ x y. leb (from_le_bytes x) (from_le_bytes y)) (take_all a 32 la) (take_all b 32 lb)
