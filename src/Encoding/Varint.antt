-- ===== src/Encoding/Varint.antt =====
-- CompactSize integers: `encode_varint` (src/bitcoin_encoding.rs), `varint_len` (src/template.rs)
-- and `read_varint` (src/p2p.rs).
pub mod RoundTrip
use stratum_bee.Base.{
  leb, ◌==◌, if◌then◌else◌, get_elem?, get_range, Bytes, to_le_bytes, from_le_bytes, Result, ok,
  ◌>>=◌, ok_or, ℕ, ◌+◌, ◌%◌, [], ◌∷◌, ◌++◌,
}

-- `out` is the vector that the bytes are pushed to.
unfoldable pub encode_varint : ℕ → Bytes → Bytes
encode_varint value out =
    if leb value 0xfc
    then out ++ (value % 256 ∷ [])
    else if leb value 0xffff
    then (out ++ (0xfd ∷ [])) ++ to_le_bytes 2 value
    else if leb value 0xffff_ffff
    then (out ++ (0xfe ∷ [])) ++ to_le_bytes 4 value
    else (out ++ (0xff ∷ [])) ++ to_le_bytes 8 value

unfoldable pub varint_len : ℕ → ℕ
varint_len value =
    if leb value 0xfc
    then 1
    else if leb value 0xffff
    then 3
    else if leb value 0xffff_ffff
    then 5
    else 9

-- The match on the prefix byte, at the position behind it.
unfoldable pub read_varint_tail : Bytes → ℕ → ℕ → Result (ℕ × ℕ)
read_varint_tail payload pos prefix =
    if leb prefix 0xfc
    then ok (prefix, pos)
    else if prefix == 0xfd
    then (do
      bytes ← ok_or (get_range payload pos 2) "varint u16 truncated"
      ok (from_le_bytes bytes, pos + 2))
    else if prefix == 0xfe
    then (do
      bytes ← ok_or (get_range payload pos 4) "varint u32 truncated"
      ok (from_le_bytes bytes, pos + 4))
    else (do
      bytes ← ok_or (get_range payload pos 8) "varint u64 truncated"
      ok (from_le_bytes bytes, pos + 8))

-- The value and the new `*pos`.
unfoldable pub read_varint : Bytes → ℕ → Result (ℕ × ℕ)
unfolding read_varint_tail
read_varint payload pos = do
  prefix ← ok_or (get_elem? payload pos) "varint prefix missing"
  read_varint_tail payload (pos + 1) prefix
