-- ===== src/Base/Bits.antt =====
-- Laws of `&` on words, and of the words that a mask puts together.
use Prim.Native.Nat.{
  ℕ, zero, suc, ◌+◌, ◌-◌, ◌*◌, ◌/◌, ◌%◌, ◌^◌, ◌≤◌, min, bit_and, digits, bit_and-bitwise,
}
use mathlib.Core.Path.{◌≡◌, refl}
use native.Mathlib.Omega.{arith}

-- Any fuel that the first number does not exceed gives the same digits.
and_digits-fuel :
    (fuel fuel' a b : ℕ)
    → a ≤ fuel
    → a ≤ fuel'
    → digits (λ y. zero) min fuel a b ≡ digits (λ y. zero) min fuel' a b
and_digits-fuel zero zero a b h h' = refl
and_digits-fuel zero (suc fuel') zero b h h' = refl
and_digits-fuel zero (suc fuel') (suc a) b h h' = absurd (omega arith)
and_digits-fuel (suc fuel) zero zero b h h' = refl
and_digits-fuel (suc fuel) zero (suc a) b h h' = absurd (omega arith)
and_digits-fuel (suc fuel) (suc fuel') zero b h h' = refl
and_digits-fuel (suc fuel) (suc fuel') (suc a) b h h' =
    omega (arith, and_digits-fuel fuel fuel' (suc a / 2) (b / 2) (omega arith) (omega arith))

zero-bit_and : (b : ℕ) → bit_and 0 b ≡ 0
zero-bit_and b = bit_and-bitwise 0 b

-- The digits of the two numbers meet at each place.
pub bit_and-digit : (a b : ℕ) → bit_and a b ≡ bit_and (a / 2) (b / 2) * 2 + min (a % 2) (b % 2)
bit_and-digit zero b = omega (arith, zero-bit_and b, zero-bit_and (b / 2))
bit_and-digit (suc a) b = omega (
  arith,
  bit_and-bitwise (suc a) b,
  bit_and-bitwise (suc a / 2) (b / 2),
  and_digits-fuel a (suc a / 2) (suc a / 2) (b / 2) (omega arith) (omega arith),
)

bit_and-none : (fuel a : ℕ) → a ≤ fuel → bit_and a 0 ≡ 0
bit_and-none fuel zero h = zero-bit_and 0
bit_and-none zero (suc a) h = absurd (omega arith)
bit_and-none (suc fuel) (suc a) h =
    omega (arith, bit_and-digit (suc a) 0, bit_and-none fuel (suc a / 2) (omega arith))

bit_and-again : (fuel a mask : ℕ) → a ≤ fuel → bit_and (bit_and a mask) mask ≡ bit_and a mask
bit_and-again fuel zero mask h = rw (zero-bit_and mask) (zero-bit_and mask)
bit_and-again zero (suc a) mask h = absurd (omega arith)
bit_and-again (suc fuel) (suc a) mask h =
    let first = bit_and-digit (suc a) mask in
    let half : bit_and (suc a) mask / 2 ≡ bit_and (suc a / 2) (mask / 2) = omega (arith, first) in
    let rest : bit_and (bit_and (suc a) mask / 2) (mask / 2) ≡ bit_and (suc a / 2) (mask / 2) =
      rw half (bit_and-again fuel (suc a / 2) (mask / 2) (omega arith)) in
    omega (arith, first, rest, bit_and-digit (bit_and (suc a) mask) mask)

-- A word put together of the digits of one word outside a mask and those of another inside it has,
-- inside and outside the mask, the digits of the two.
pub masked :
    (width inside outside mask : ℕ)
    → let kept = 2 ^ width - 1 - mask in
      let word = bit_and outside kept + bit_and inside mask in
      (bit_and word mask ≡ bit_and inside mask) × (bit_and word kept ≡ bit_and outside kept)
masked zero inside outside mask =
    let nothing = bit_and-none outside outside (omega arith) in
    let all = bit_and-none (bit_and inside mask) (bit_and inside mask) (omega arith) in
    let no_kept : 2 ^ 0 - 1 - mask ≡ 0 = omega arith in
    let alone : 0 + bit_and inside mask ≡ bit_and inside mask = omega arith in
    rw (no_kept, nothing, alone) (bit_and-again inside inside mask (omega arith), all)
masked (suc width) inside outside mask =
    let kept = 2 ^ suc width - 1 - mask in
    let word = bit_and outside kept + bit_and inside mask in
    let outer = bit_and-digit outside kept in
    let inner = bit_and-digit inside mask in
    let kept_half : kept / 2 ≡ 2 ^ width - 1 - mask / 2 = omega arith in
    let word_half : word / 2 ≡ bit_and (outside / 2) (kept / 2) + bit_and (inside / 2) (mask / 2) =
      omega (arith, outer, inner) in
    let (rest_in, rest_out) = masked width (inside / 2) (outside / 2) (mask / 2) in
    let same_in : bit_and (word / 2) (mask / 2) ≡ bit_and (inside / 2) (mask / 2) =
      rw (word_half, kept_half) rest_in in
    let same_out : bit_and (word / 2) (kept / 2) ≡ bit_and (outside / 2) (kept / 2) =
      rw (word_half, kept_half) rest_out in
    (
      omega (arith, outer, inner, same_in, bit_and-digit word mask),
      omega (arith, outer, inner, same_out, bit_and-digit word kept),
    )
