-- ===== src/Template/Script.antt =====
-- The script encodings of src/template.rs: numbers, heights, pushes, and the block subsidy.
pub mod Number
pub mod Push
pub mod Subsidy
use stratum_bee.Base.{
  ltb, leb, ◌==◌, if◌then◌else◌, length, Bytes, to_le_bytes, Result, ok, bail, ℤ, pos, unsigned_abs,
  is_negative, ℕ, zero, suc, ◌+◌, ◌-◌, ◌*◌, ◌/◌, ◌%◌, ◌^◌, Bool, [], ◌∷◌, ◌++◌,
}

-- `while abs_value > 0`; a 64-bit value has eight bytes at most, and a last round finds zero.
unfoldable pub abs_bytes : ℕ → ℕ → Bytes
abs_bytes zero abs_value = []
abs_bytes (suc fuel) abs_value =
    let rest = abs_bytes fuel (abs_value / 256) in
    if ltb 0 abs_value then abs_value % 256 ∷ rest else []

-- `if let Some(last) = out.last_mut()`. The last byte `b` has its top bit set from 128 on, and
-- `*last |= 0x80` adds 128 where it has not.
unfoldable pub sign_last : Bool → Bytes → Bytes
sign_last is_neg [] = []
sign_last is_neg (last ∷ []) =
    if leb 128 last
    then last ∷ (if is_neg then 0x80 else 0x00) ∷ []
    else if is_neg
    then (last + 128) ∷ []
    else last ∷ []
sign_last is_neg (byte ∷ next ∷ out) = byte ∷ sign_last is_neg (next ∷ out)

unfoldable pub encode_script_num : ℤ → Bytes
encode_script_num value =
    if unsigned_abs value == 0
    then []
    else sign_last (is_negative value) (abs_bytes 9 (unsigned_abs value))

unfoldable pub encode_coinbase_height : ℕ → Result Bytes
encode_coinbase_height height =
    if ltb (2 ^ 63 - 1) height
    then bail "coinbase height exceeds i64 range"
    else if height == 0
    then ok (0x00 ∷ [])
    else if leb height 16
    then ok ((0x50 + height) ∷ [])
    else (let height_bytes = encode_script_num (pos height) in
        ok (length height_bytes % 256 ∷ height_bytes))

-- `data` is pushed onto the script `out`; the message names the length.
unfoldable pub encode_script_pushdata : Bytes → Bytes → Result Bytes
encode_script_pushdata bytes out =
    if leb (length bytes) 75
    then ok ((out ++ (length bytes ∷ [])) ++ bytes)
    else if leb (length bytes) 0xff
    then ok (((out ++ (0x4c ∷ [])) ++ (length bytes ∷ [])) ++ bytes)
    else if leb (length bytes) 0xffff
    then ok (((out ++ (0x4d ∷ [])) ++ to_le_bytes 2 (length bytes)) ++ bytes)
    else bail "script pushdata too long"

unfoldable pub block_subsidy_sat : ℕ → ℕ
block_subsidy_sat height =
    let halvings = height / 210_000 in
    if leb 64 halvings then 0 else 50 * 100_000_000 / 2 ^ halvings
