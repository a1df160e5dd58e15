-- ===== src/Template/Script/Number.antt =====
-- Readers of script numbers and BIP 34 heights, and theorems on the encoders of src/template.rs.
use native.Mathlib.Nat.{pow-suc}
use native.Mathlib.Decide.{dec_lt}
use stratum_bee.Base.{
  leb, ◌==◌, if◌then◌else◌, lt→ltb, length, take, take-append_left, Bytes, ok, bail, ℤ, pos, negsuc,
  unsigned_abs, is_negative, ℕ, zero, suc, ◌+◌, ◌-◌, ◌*◌, ◌/◌, ◌%◌, ◌^◌, ◌≤◌, ◌<◌, ◌≡◌, refl, ap,
  ◌∙◌, Bool, true, false, ◌&&◌, [], ◌∷◌, ◌++◌, arith,
}
use stratum_bee.Template.Script.{abs_bytes, sign_last, encode_script_num, encode_coinbase_height}

-- The magnitude and the sign of a script number: little-endian, the top bit of the last byte for
-- the sign.
abbrev pub script_num : Bytes → ℕ × Bool
script_num [] = (0, false)
script_num (last ∷ []) = (last % 128, leb 128 last)
script_num (byte ∷ next ∷ bytes) =
    let rest = script_num (next ∷ bytes) in (byte + 256 * rest.0, rest.1)

script_num-sign_last :
    (is_neg : Bool) (byte next : ℕ) (out : Bytes)
    → script_num (sign_last is_neg (byte ∷ next ∷ out)) ≡ (
      byte + 256 * (script_num (sign_last is_neg (next ∷ out))).0,
      (script_num (sign_last is_neg (next ∷ out))).1,
    )
unfolding sign_last
script_num-sign_last is_neg byte next [] = ground arith
script_num-sign_last is_neg byte next (o ∷ out) = refl

one_byte :
    (is_neg : Bool) (v : ℕ) → 0 < v → v < 256 → script_num (sign_last is_neg (v ∷ [])) ≡ (v, is_neg)
unfolding sign_last
one_byte is_neg v p h = ground arith

abs_bytes_step : (fuel v : ℕ) → 0 < v → abs_bytes (suc fuel) v ≡ v % 256 ∷ abs_bytes fuel (v / 256)
unfolding abs_bytes
abs_bytes_step fuel v p = rw (lt→ltb 0 v p)

abs_bytes-zero : (fuel : ℕ) → abs_bytes fuel 0 ≡ []
unfolding abs_bytes
abs_bytes-zero zero = refl
abs_bytes-zero (suc fuel) = refl

sign_last-abs_bytes :
    (fuel v : ℕ) (is_neg : Bool)
    → 0 < v
    → v < 256 ^ fuel
    → script_num (sign_last is_neg (abs_bytes (suc fuel) v)) ≡ (v, is_neg)
sign_last-abs_bytes zero v is_neg p h = absurd (omega arith)
sign_last-abs_bytes (suc fuel) v is_neg p h = elim (dec_lt v 256) [
  | yes small ↦
      let z : v / 256 ≡ 0 = omega arith in
      let m : v % 256 ≡ v = omega arith in
      rw (abs_bytes_step (suc fuel) v p, z, abs_bytes-zero (suc fuel), m)
        (one_byte is_neg v p small)
  | no large ↦
      let q : 0 < v / 256 = omega arith in
      let ih = sign_last-abs_bytes fuel (v / 256) is_neg q (omega (arith, pow-suc 256 fuel)) in
      let ih' = rw (abs_bytes_step fuel (v / 256) q) at ih in
      ap (λ out. script_num (sign_last is_neg out))
        (abs_bytes_step (suc fuel) v p ∙ ap (◌∷◌ (v % 256)) (abs_bytes_step fuel (v / 256) q))
      ∙ script_num-sign_last is_neg (v % 256) (v / 256 % 256) (abs_bytes fuel (v / 256 / 256))
      ∙ ap (λ (r : ℕ × Bool). (v % 256 + 256 * r.0, r.1)) ih'
      ∙ ground arith
]

nonzero : (n : ℕ) → (suc n == 0) ≡ false
nonzero n = ground arith

-- An integer of at most 64 bits in size is read back from its script number, with its sign.
pub script_num-encode_script_num :
    (value : ℤ)
    → unsigned_abs value < 2 ^ 64
    → script_num (encode_script_num value) ≡ (unsigned_abs value, is_negative value)
unfolding encode_script_num
script_num-encode_script_num (pos zero) h = refl
script_num-encode_script_num (pos (suc n)) h =
    rw (nonzero n) (sign_last-abs_bytes 8 (suc n) false (omega arith) h)
script_num-encode_script_num (negsuc n) h =
    rw (nonzero n) (sign_last-abs_bytes 8 (suc n) true (omega arith) h)

-- The height that a coinbase begins with, by the rule of BIP 34: a small-number opcode or a push of
-- a script number.
abbrev pub read_height : Bytes → ℕ
read_height [] = 0
read_height (op ∷ script) =
    if op == 0
    then 0
    else if leb 0x51 op && leb op 0x60
    then op - 0x50
    else (script_num (take op script)).0

length-abs_bytes : (fuel v : ℕ) → length (abs_bytes fuel v) ≤ fuel
unfolding abs_bytes
length-abs_bytes zero v = omega arith
length-abs_bytes (suc fuel) v = ground (arith, length-abs_bytes fuel (v / 256))

length-sign_last : (is_neg : Bool) (out : Bytes) → length (sign_last is_neg out) ≤ length out + 1
unfolding sign_last
length-sign_last is_neg [] = omega arith
length-sign_last is_neg (last ∷ []) = ground arith
length-sign_last is_neg (byte ∷ next ∷ out) = omega (arith, length-sign_last is_neg (next ∷ out))

length-encode_script_num : (value : ℤ) → length (encode_script_num value) ≤ 10
unfolding encode_script_num
length-encode_script_num value = ground (
  arith,
  length-sign_last (is_negative value) (abs_bytes 9 (unsigned_abs value)),
  length-abs_bytes 9 (unsigned_abs value),
)

read_number :
    (bytes rest : Bytes) (height : ℕ)
    → length bytes ≤ 10
    → 0 < height
    → (script_num bytes).0 ≡ height
    → read_height ((length bytes % 256 ∷ bytes) ++ rest) ≡ height
read_number [] rest height short p value = absurd (omega arith)
read_number (byte ∷ bytes) rest height short p value =
    let n = length (byte ∷ bytes) in
    let fits : n % 256 ≡ n = omega arith in
    let op : (n == 0) ≡ false = ground arith in
    let plain : leb 0x51 n ≡ false = ground arith in
    rw (fits, op, plain, take-append_left (length bytes) bytes rest refl, value)

-- A height up to the largest signed 64-bit number has an encoding of 11 bytes at most that is read
-- back in front of the rest of the script.
pub read_height-encode_coinbase_height :
    (height : ℕ) (rest : Bytes)
    → height < 2 ^ 63
    → (script : Bytes) × (encode_coinbase_height height ≡ ok script)
      × (length script ≤ 11)
      × (read_height (script ++ rest) ≡ height)
unfolding encode_coinbase_height
read_height-encode_coinbase_height height rest h = elim (dec_lt height 17) [
  | yes small ↦ elim (dec_lt 0 height) [
    | yes p ↦ ((0x50 + height) ∷ [], ground arith, omega arith, ground arith)
    | no p ↦ (0x00 ∷ [], ground arith, omega arith, ground arith)
  ]
  | no large ↦
      let bytes = encode_script_num (pos height) in
      let value = script_num-encode_script_num (pos height) (omega arith) in
      let short = length-encode_script_num (pos height) in
      (
        length bytes % 256 ∷ bytes,
        ground arith,
        omega (arith, short),
        read_number bytes rest height short (omega arith) (ap (λ (r : ℕ × Bool). r.0) value),
      )
]

-- Larger heights are refused.
pub encode_coinbase_height-refused :
    (height : ℕ)
    → 2 ^ 63 ≤ height
    → encode_coinbase_height height ≡ bail "coinbase height exceeds i64 range"
unfolding encode_coinbase_height
encode_coinbase_height-refused height h = ground arith
