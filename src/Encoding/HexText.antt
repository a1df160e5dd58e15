-- ===== src/Encoding/HexText.antt =====
-- Hexadecimal text: `parse_u32_be_hex` (src/bitcoin_encoding.rs) and what it and the session code
-- use of the standard library, `u32::from_str_radix(_, 16)`, `trim_start_matches("0x")` and the
-- format `{:08x}`.
pub mod RoundTrip
use stratum_bee.Base.{
  ltb, leb, ◌==◌, if◌then◌else◌, Text, ℕ, zero, suc, ◌+◌, ◌-◌, ◌*◌, ◌/◌, ◌%◌, ◌^◌, Bool, ◌&&◌, ◌||◌,
  Option, none, some, [], ◌∷◌, ◌++◌,
}

-- The value of a hexadecimal digit, of either case.
unfoldable pub hex_digit : ℕ → Option ℕ
hex_digit c =
    if leb b'0' c && leb c b'9'
    then some (c - b'0')
    else if leb b'a' c && leb c b'f'
    then some (c - b'a' + 10)
    else if leb b'A' c && leb c b'F'
    then some (c - b'A' + 10)
    else none

-- `is_ascii_hexdigit`.
unfoldable pub is_ascii_hexdigit : ℕ → Bool
is_ascii_hexdigit c =
    (leb b'0' c && leb c b'9') || ((leb b'a' c && leb c b'f') || (leb b'A' c && leb c b'F'))

-- The digits from the left, onto the value read so far; none on a bad digit or past 32 bits.
unfoldable pub read_hex_digits : ℕ → Text → Option ℕ
read_hex_digits acc [] = some acc
read_hex_digits acc (c ∷ cs) = elim (hex_digit c) [
  | none ↦ none
  | some d ↦
      let rest = read_hex_digits (acc * 16 + d) cs in
      if ltb (acc * 16 + d) (2 ^ 32) then rest else none
]

-- Behind an optional `+` there is one digit at least.
unfoldable pub from_str_radix_16 : Text → Option ℕ
from_str_radix_16 [] = none
from_str_radix_16 (c ∷ []) = read_hex_digits 0 (c ∷ [])
from_str_radix_16 (c ∷ d ∷ cs) =
    if c == b'+' then read_hex_digits 0 (d ∷ cs) else read_hex_digits 0 (c ∷ d ∷ cs)

-- `trim_start_matches("0x")`: every leading `0x` goes.
unfoldable pub trim_0x : Text → Text
trim_0x [] = []
trim_0x (c ∷ []) = c ∷ []
trim_0x (c ∷ d ∷ cs) = let rest = trim_0x cs in if c == b'0' && d == b'x' then rest else c ∷ d ∷ cs

unfoldable pub parse_u32_be_hex : Text → Option ℕ
parse_u32_be_hex value = from_str_radix_16 (trim_0x value)

unfoldable pub hex_char : ℕ → ℕ
hex_char d = if ltb d 10 then b'0' + d else b'a' + (d - 10)

-- The last `n` hexadecimal digits of a number, in lower case.
unfoldable pub hex_digits : ℕ → ℕ → Text
hex_digits zero v = []
hex_digits (suc n) v = hex_digits n (v / 16) ++ (hex_char (v % 16) ∷ [])

-- `format!("{v:08x}")` of a 32-bit value, which has eight digits at most.
unfoldable pub format_08x : ℕ → Text
format_08x v = hex_digits 8 v
