-- ===== src/Encoding/Varint/RoundTrip.antt =====
-- Theorems on `encode_varint` and `read_varint`.
use stratum_bee.Base.{
  length, get_elem?, length-append, take-append_left, drop-append_left, get_range, Bytes, IsU64,
  to_le_bytes, length-to_le_bytes, from_le_bytes-to_le_bytes, ok, ℕ, ◌+◌, ◌%◌, ◌≡◌, refl, some, [],
  ◌∷◌, ◌++◌, append_assoc, arith,
}
use stratum_bee.Encoding.Varint.{encode_varint, varint_len, read_varint_tail, read_varint}

-- The writer only appends.
pub encode_varint-append : (v : ℕ) (out : Bytes) → encode_varint v out ≡ out ++ encode_varint v []
unfolding encode_varint
encode_varint-append v out = ground (
  arith,
  append_assoc out (0xfd ∷ []) (to_le_bytes 2 v),
  append_assoc out (0xfe ∷ []) (to_le_bytes 4 v),
  append_assoc out (0xff ∷ []) (to_le_bytes 8 v),
)

-- The length that the template code computes is the length written.
pub length-encode_varint : (v : ℕ) → length (encode_varint v []) ≡ varint_len v
unfolding encode_varint varint_len
length-encode_varint v = ground arith

get_elem?-append :
    (pre : Bytes) (b : ℕ) (rest : Bytes) → get_elem? (pre ++ (b ∷ rest)) (length pre) ≡ some b
get_elem?-append [] b rest = refl
get_elem?-append (x ∷ pre) b rest = get_elem?-append pre b rest

-- A range that holds exactly the middle part.
get_range-append :
    (pre mid rest : Bytes) (pos n : ℕ)
    → length pre ≡ pos
    → length mid ≡ n
    → get_range (pre ++ (mid ++ rest)) pos n ≡ some mid
get_range-append pre mid rest pos n p q = ground (
  arith,
  length-append pre (mid ++ rest),
  length-append mid rest,
  drop-append_left pos pre (mid ++ rest) p,
  take-append_left n mid rest q,
)

get_range-tail :
    (pre : Bytes) (prefix n : ℕ) (v : ℕ) (rest : Bytes)
    → get_range (pre ++ (prefix ∷ (to_le_bytes n v ++ rest))) (length pre + 1) n
      ≡ some (to_le_bytes n v)
get_range-tail pre prefix n v rest =
    rw (← append_assoc pre (prefix ∷ []) (to_le_bytes n v ++ rest)) (
      get_range-append (pre ++ (prefix ∷ [])) (to_le_bytes n v) rest (length pre + 1) n
        (omega (arith, length-append pre (prefix ∷ []))) (length-to_le_bytes n v))

read_byte :
    (pre : Bytes) (prefix : ℕ) (rest : Bytes)
    → read_varint (pre ++ (prefix ∷ rest)) (length pre)
      ≡ read_varint_tail (pre ++ (prefix ∷ rest)) (length pre + 1) prefix
unfolding read_varint
read_byte pre prefix rest = rw (get_elem?-append pre prefix rest)

-- Between any bytes before it and any behind it, an encoded 64-bit value is read back, and the
-- reader stops just behind it.
pub read_varint-encode_varint :
    (pre : Bytes) (v : ℕ) (rest : Bytes)
    → IsU64 v
    → read_varint (pre ++ (encode_varint v [] ++ rest)) (length pre)
      ≡ ok (v, length pre + varint_len v)
unfolding encode_varint varint_len read_varint_tail
read_varint-encode_varint pre v rest h = ground (
  arith,
  read_byte pre (v % 256) rest,
  read_byte pre 0xfd (to_le_bytes 2 v ++ rest),
  read_byte pre 0xfe (to_le_bytes 4 v ++ rest),
  read_byte pre 0xff (to_le_bytes 8 v ++ rest),
  get_range-tail pre 0xfd 2 v rest,
  get_range-tail pre 0xfe 4 v rest,
  get_range-tail pre 0xff 8 v rest,
  from_le_bytes-to_le_bytes 2 v,
  from_le_bytes-to_le_bytes 4 v,
  from_le_bytes-to_le_bytes 8 v,
)
