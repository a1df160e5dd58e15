-- ===== src/Template/Compact/Value.antt =====
-- Theorems on the number that a compact target of src/template.rs stands for.
use mathlib.Core.List.{reverse-append}
use native.Mathlib.Numerals.{add-one, add-two}
use stratum_bee.Base.{
  leb, if◌then◌else◌, lt→leb_false, Bool-cases, length, set, All, length-replicate, length-reverse,
  Bytes, IsByte, zeros, from_le_bytes, ok, ℕ, zero, suc, ◌+◌, ◌-◌, ◌*◌, ◌/◌, ◌%◌, ◌^◌, ◌≤◌, ◌<◌,
  ◌≡◌, refl, sym, ap, ◌∙◌, ◌⊎◌, inl, inr, none, some, [], ◌∷◌, ◌++◌, reverse, arith,
}
use stratum_bee.Share.Target.{from_le_bytes-append}
use stratum_bee.Crates.{Crates, CrateLaws}
use stratum_bee.Share.Compare.{leq_le256-leb}
use stratum_bee.Template.Compact.{
  write_reduced, compact_bytes, compact_target_to_le, block_hash_meets_compact_target,
}

replicate-append : (a b n : ℕ) → n ≡ a + b → zeros n ≡ zeros a ++ zeros b
replicate-append zero b n e = let e' : n ≡ b = omega arith in rw e'
replicate-append (suc a) b zero e = absurd (omega arith)
replicate-append (suc a) b (suc n) e = ap (◌∷◌ 0) (replicate-append a b n (omega arith))

set_three :
    (a x y z p q r : ℕ) (rest : Bytes)
    → set (set (set (zeros a ++ (p ∷ q ∷ r ∷ rest)) a x) (suc a) y) (suc (suc a)) z
      ≡ zeros a ++ (x ∷ y ∷ z ∷ rest)
set_three zero x y z p q r rest = refl
set_three (suc a) x y z p q r rest = ap (◌∷◌ 0) (set_three a x y z p q r rest)

from_le_bytes-replicate : (k : ℕ) → from_le_bytes (zeros k) ≡ 0
from_le_bytes-replicate zero = refl
from_le_bytes-replicate (suc k) = omega (arith, from_le_bytes-replicate k)

reverse-replicate : (k : ℕ) → reverse (zeros k) ≡ zeros k
reverse-replicate zero = refl
reverse-replicate (suc k) =
    reverse-append (0 ∷ []) (zeros k)
    ∙ ap (λ (z : Bytes). z ++ (0 ∷ [])) (reverse-replicate k)
    ∙ sym (replicate-append k 1 (suc k) (omega arith))

-- Three digits of a number in base 256 with `k` zero bytes below them.
digits_value :
    (a k x y z : ℕ)
    → from_le_bytes (reverse (zeros a ++ (x ∷ y ∷ z ∷ zeros k)))
      ≡ (65536 * x + 256 * y + z) * 256 ^ k
digits_value a k x y z =
    let low = x ∷ y ∷ z ∷ [] in
    ap from_le_bytes (reverse-append (zeros a) (low ++ zeros k))
    ∙ from_le_bytes-append (reverse (low ++ zeros k)) (reverse (zeros a))
    ∙ rw
        (
          reverse-append low (zeros k),
          reverse-replicate a,
          reverse-replicate k,
          from_le_bytes-replicate a,
          from_le_bytes-append (zeros k) (z ∷ y ∷ x ∷ []),
          from_le_bytes-replicate k,
          length-replicate {A = ℕ} k 0,
        )
        (omega arith)

set-zeros :
    (n a k x y z : ℕ)
    → n ≡ a + suc (suc (suc k))
    → set (set (set (zeros n) a x) (a + 1) y) (a + 2) z ≡ zeros a ++ (x ∷ y ∷ z ∷ zeros k)
set-zeros n a k x y z e =
    rw (replicate-append a (suc (suc (suc k))) n e, add-one, add-two)
      (set_three a x y z 0 0 0 (zeros k))

large_value :
    (exponent mantissa : ℕ)
    → 3 < exponent
    → exponent ≤ 32
    → mantissa < 2 ^ 24
    → from_le_bytes (reverse (compact_bytes exponent mantissa)) ≡ mantissa * 256 ^ (exponent - 3)
unfolding compact_bytes
large_value exponent mantissa h fits m =
    let x = mantissa / 2 ^ 16 % 256 in
    let y = mantissa / 2 ^ 8 % 256 in
    let z = mantissa % 256 in
    let placed = set-zeros 32 (32 - exponent) (exponent - 3) x y z (omega arith) in
    rw (lt→leb_false exponent 3 h) (
      ap (λ (t : Bytes). from_le_bytes (reverse t)) placed
      ∙ digits_value (32 - exponent) (exponent - 3) x y z
      ∙ ap (λ (t : ℕ). t * 256 ^ (exponent - 3)) {y = mantissa} (omega arith))

small_one :
    (mantissa : ℕ)
    → mantissa < 2 ^ 23
    → from_le_bytes (reverse (compact_bytes 1 mantissa)) ≡ mantissa / 2 ^ 16
unfolding compact_bytes write_reduced
small_one mantissa m = omega arith

small_two :
    (mantissa : ℕ)
    → mantissa < 2 ^ 23
    → from_le_bytes (reverse (compact_bytes 2 mantissa)) ≡ mantissa / 2 ^ 8
unfolding compact_bytes write_reduced
small_two mantissa m = omega arith

small_three :
    (mantissa : ℕ)
    → mantissa < 2 ^ 23
    → from_le_bytes (reverse (compact_bytes 3 mantissa)) ≡ mantissa
unfolding compact_bytes write_reduced
small_three mantissa m = omega arith

All-set : (bs : Bytes) (i v : ℕ) → All IsByte bs → IsByte v → All IsByte (set bs i v)
All-set [] i v h hv = tt
All-set (b ∷ bs) zero v h hv = (hv, h.1)
All-set (b ∷ bs) (suc i) v h hv = (h.0, All-set bs i v h.1 hv)

length-set : (bs : Bytes) (i v : ℕ) → length (set bs i v) ≡ length bs
length-set [] i v = refl
length-set (b ∷ bs) zero v = refl
length-set (b ∷ bs) (suc i) v = ap suc (length-set bs i v)

-- Written arrays keep their length and hold bytes.
abbrev IsArray : ℕ → Bytes → Type 0
IsArray n bs = (length bs ≡ n) × All IsByte bs

set-IsArray : (n : ℕ) (bs : Bytes) (i v : ℕ) → IsArray n bs → IsByte v → IsArray n (set bs i v)
set-IsArray n bs i v (l, h) hv = (length-set bs i v ∙ l, All-set bs i v h hv)

write_reduced-IsArray :
    (m : ℕ) (n idx exponent reduced : ℕ) (bs : Bytes)
    → IsArray n bs
    → IsArray n (write_reduced m idx exponent reduced bs)
unfolding write_reduced
write_reduced-IsArray zero n idx exponent reduced bs h = h
write_reduced-IsArray (suc m) n idx exponent reduced bs h =
    write_reduced-IsArray m n (idx + 1) exponent reduced _ (set-IsArray n bs _ _ h (omega arith))

zeros-IsArray : IsArray 32 (zeros 32)
zeros-IsArray = omega arith

compact_bytes-IsArray : (exponent mantissa : ℕ) → IsArray 32 (compact_bytes exponent mantissa)
unfolding compact_bytes
compact_bytes-IsArray exponent mantissa = elim (Bool-cases (leb exponent 3)) [
  | inl small ↦ rw small (write_reduced-IsArray exponent 32 0 exponent _ (zeros 32) zeros-IsArray)
  | inr large ↦ rw large (
      set-IsArray 32 _ _ _
        (set-IsArray 32 _ _ _ (set-IsArray 32 (zeros 32) _ _ zeros-IsArray (omega arith))
          (omega arith))
        (omega arith))
]

All-append : (xs ys : Bytes) → All IsByte xs → All IsByte ys → All IsByte (xs ++ ys)
All-append [] ys hx hy = hy
All-append (x ∷ xs) ys hx hy = (hx.0, All-append xs ys hx.1 hy)

pub All-reverse : (bs : Bytes) → All IsByte bs → All IsByte (reverse bs)
All-reverse [] h = tt
All-reverse (b ∷ bs) h =
    rw (reverse-append (b ∷ []) bs)
      (All-append (reverse bs) (b ∷ []) (All-reverse bs h.1) (h.0, tt))

-- The value of a compact target: a mantissa with a base-256 exponent, three of whose digits are
-- the mantissa's own.
abbrev pub compact_value : ℕ → ℕ → ℕ
compact_value exponent mantissa =
    if leb exponent 3 then mantissa / 256 ^ (3 - exponent) else mantissa * 256 ^ (exponent - 3)

compact_bytes-value :
    (exponent mantissa : ℕ)
    → 0 < exponent
    → exponent ≤ 32
    → mantissa < 2 ^ 23
    → from_le_bytes (reverse (compact_bytes exponent mantissa)) ≡ compact_value exponent mantissa
compact_bytes-value zero mantissa p h m = absurd (omega arith)
compact_bytes-value (suc zero) mantissa p h m = small_one mantissa m
compact_bytes-value (suc (suc zero)) mantissa p h m = small_two mantissa m ∙ omega arith
compact_bytes-value (suc (suc (suc zero))) mantissa p h m = small_three mantissa m ∙ omega arith
compact_bytes-value (suc (suc (suc (suc e)))) mantissa p h m =
    let n = suc (suc (suc (suc e))) in
    rw (lt→leb_false n 3 (omega arith)) (large_value n mantissa (omega arith) h (omega arith))

-- A compact target whose sign bit is clear, with a mantissa that is not zero and an exponent of 1
-- to 32, is an array of 32 bytes whose number is the mantissa shifted by the exponent.
pub compact_target_to_le-value :
    (nbits : ℕ)
    → nbits / 2 ^ 23 % 2 ≡ 0
    → 0 < nbits % 2 ^ 23
    → 0 < nbits / 2 ^ 24
    → nbits / 2 ^ 24 ≤ 32
    → (target : Bytes) × (compact_target_to_le nbits ≡ some target)
      × (length target ≡ 32)
      × All IsByte target
      × (from_le_bytes target ≡ compact_value (nbits / 2 ^ 24) (nbits % 2 ^ 23))
unfolding compact_target_to_le
compact_target_to_le-value nbits sign mantissa positive fits =
    let bytes = compact_bytes (nbits / 2 ^ 24) (nbits % 2 ^ 23) in
    let (size, small) = compact_bytes-IsArray (nbits / 2 ^ 24) (nbits % 2 ^ 23) in
    (
      reverse bytes,
      ground arith,
      length-reverse bytes ∙ size,
      All-reverse bytes small,
      compact_bytes-value (nbits / 2 ^ 24) (nbits % 2 ^ 23) positive fits (omega arith),
    )

-- Any other compact target is none.
pub compact_target_to_le-none :
    (nbits : ℕ)
    → (nbits / 2 ^ 23 % 2 ≡ 1) ⊎ (nbits % 2 ^ 23 ≡ 0) ⊎ (nbits / 2 ^ 24 ≡ 0) ⊎ (32 < nbits / 2 ^ 24)
    → compact_target_to_le nbits ≡ none
unfolding compact_target_to_le
compact_target_to_le-none nbits h = ground arith

module _ (c : Crates) (laws : CrateLaws c) where
  -- For a displayed block hash of 32 bytes and a valid compact target, the proof-of-work test
  -- answers whether the number of the hash is at most the value of the target.
  pub block_hash_meets_compact_target-leb :
      (hash : Bytes) (nbits : ℕ)
      → length hash ≡ 32
      → All IsByte hash
      → nbits / 2 ^ 23 % 2 ≡ 0
      → 0 < nbits % 2 ^ 23
      → 0 < nbits / 2 ^ 24
      → nbits / 2 ^ 24 ≤ 32
      → block_hash_meets_compact_target c (c.hex_encode hash) nbits
        ≡ ok (leb (from_le_bytes (reverse hash)) (compact_value (nbits / 2 ^ 24) (nbits % 2 ^ 23)))
  unfolding block_hash_meets_compact_target
  block_hash_meets_compact_target-leb hash nbits size small sign mantissa positive fits =
      let (target, made, lt, ht, value) =
        compact_target_to_le-value nbits sign mantissa positive fits in
      rw (laws.hex_decode-hex_encode hash small, size, made)
        (ap ok (
          leq_le256-leb (reverse hash) target (All-reverse hash small) ht
            (length-reverse hash ∙ size) lt
          ∙ ap (leb (from_le_bytes (reverse hash))) value))
