-- ===== src/Template/Compact.antt =====
-- Compact targets of src/template.rs and the proof-of-work check of an announced block. `& 0xff`
-- and the mask of 23 bits are remainders, and a right shift is a division.
pub mod Value
use stratum_bee.Base.{
  ltb, leb, ◌==◌, if◌then◌else◌, length, set, replicate, Bytes, Text, Result, ok, ◌>>=◌, ◌>>◌,
  ok_or, ensure, ℕ, zero, suc, ◌+◌, ◌-◌, ◌*◌, ◌/◌, ◌%◌, ◌^◌, Bool, ◌||◌, Option, none, some,
  reverse,
}
use stratum_bee.Crates.{Crates, context}
use stratum_bee.Share.{leq_le256}

-- `for idx in 0..exponent`: the rounds that are left, and the index.
unfoldable pub write_reduced : ℕ → ℕ → ℕ → ℕ → Bytes → Bytes
write_reduced zero idx exponent reduced target_be = target_be
write_reduced (suc n) idx exponent reduced target_be =
    write_reduced n (idx + 1) exponent reduced
      (set target_be (32 - exponent + idx) (reduced / 2 ^ (8 * (exponent - 1 - idx)) % 256))

unfoldable pub compact_bytes : ℕ → ℕ → Bytes
compact_bytes exponent mantissa =
    if leb exponent 3
    then write_reduced exponent 0 exponent (mantissa / 2 ^ (8 * (3 - exponent))) (replicate 32 0)
    else (let start = 32 - exponent in
        set
          (set (set (replicate 32 0) start (mantissa / 2 ^ 16 % 256)) (start + 1)
            (mantissa / 2 ^ 8 % 256))
          (start + 2) (mantissa % 256))

unfoldable pub compact_target_to_le : ℕ → Option Bytes
compact_target_to_le nbits =
    let exponent = nbits / 2 ^ 24 in
    let mantissa = nbits % 2 ^ 23 in
    if (nbits / 2 ^ 23 % 2 == 1) || ((mantissa == 0) || ((exponent == 0) || ltb 32 exponent))
    then none
    else some (reverse (compact_bytes exponent mantissa))

module _ (c : Crates) where
  -- The message of a bad target names it.
  unfoldable pub block_hash_meets_compact_target : Text → ℕ → Result Bool
  block_hash_meets_compact_target block_hash_hex nbits = do
    hash_be ← context (c.hex_decode block_hash_hex) "decode fast block hash"
    ensure (length hash_be == 32) "fast block hash must be 32 bytes"
    target_le ← ok_or (compact_target_to_le nbits) "invalid compact target"
    ok (leq_le256 (reverse hash_be) target_le)
