-- ===== src/Encoding/HexText/RoundTrip.antt =====
-- Theorems on printing and parsing 32-bit values (src/bitcoin_encoding.rs, src/stratum.rs).
use stratum_bee.Base.{
  ◌==◌, length, all, length-append, all-append, IsU32, Text, ℕ, zero, suc, ◌+◌, ◌*◌, ◌/◌, ◌%◌, ◌^◌,
  ◌<◌, ◌≡◌, refl, sym, ap, ◌∙◌, true, false, some, [], ◌∷◌, ◌++◌, append_assoc, append-nil, arith,
}
use stratum_bee.Encoding.HexText.{
  hex_digit, is_ascii_hexdigit, read_hex_digits, from_str_radix_16, trim_0x, parse_u32_be_hex,
  hex_char, hex_digits, format_08x,
}
use native.Mathlib.Nat.{pow-suc}

pub length-hex_digits : (n v : ℕ) → length (hex_digits n v) ≡ n
unfolding hex_digits
length-hex_digits zero v = refl
length-hex_digits (suc n) v = omega (
  arith,
  length-append (hex_digits n (v / 16)) (hex_char (v % 16) ∷ []),
  length-hex_digits n (v / 16),
)

pub hex_digit-hex_char : (d : ℕ) → d < 16 → hex_digit (hex_char d) ≡ some d
unfolding hex_digit hex_char
hex_digit-hex_char d h = ground arith

is_ascii_hexdigit-hex_char : (d : ℕ) → d < 16 → is_ascii_hexdigit (hex_char d) ≡ true
unfolding is_ascii_hexdigit hex_char
is_ascii_hexdigit-hex_char d h = ground arith

read_hex_digits-step :
    (acc d : ℕ) (rest : Text)
    → d < 16
    → acc * 16 + d < 2 ^ 32
    → read_hex_digits acc (hex_char d ∷ rest) ≡ read_hex_digits (acc * 16 + d) rest
unfolding read_hex_digits
read_hex_digits-step acc d rest h fits = ground (arith, hex_digit-hex_char d)

-- The digits of `v` in front of `rest` are read onto the value so far.
pub read_hex_digits-hex_digits :
    (n acc v : ℕ) (rest : Text)
    → v < 16 ^ n
    → acc * 16 ^ n + v < 2 ^ 32
    → read_hex_digits acc (hex_digits n v ++ rest) ≡ read_hex_digits (acc * 16 ^ n + v) rest
unfolding hex_digits
read_hex_digits-hex_digits zero acc v rest h fits =
    ap (λ (a : ℕ). read_hex_digits a rest) (omega arith)
read_hex_digits-hex_digits (suc n) acc v rest h fits =
    ap (read_hex_digits acc) (append_assoc (hex_digits n (v / 16)) (hex_char (v % 16) ∷ []) rest)
    ∙ read_hex_digits-hex_digits n acc (v / 16) (hex_char (v % 16) ∷ rest)
        (omega (arith, pow-suc 16 n)) (omega (arith, widen))
    ∙ read_hex_digits-step (acc * 16 ^ n + v / 16) (v % 16) rest (omega arith)
        (omega (arith, widen))
    ∙ ap (λ (a : ℕ). read_hex_digits a rest) (omega (arith, widen))
  where
    widen : acc * 16 ^ suc n ≡ acc * 16 ^ n * 16
    widen = omega (arith, ap (λ (t : ℕ). acc * t) (pow-suc 16 n))

hex_char_plain : (d : ℕ) → d < 16 → ((hex_char d == b'+') ≡ false) × ((hex_char d == b'x') ≡ false)
unfolding hex_char
hex_char_plain d h = ground arith

read_eight : (v : ℕ) → IsU32 v → read_hex_digits 0 (hex_digits 8 v) ≡ some v
unfolding read_hex_digits
read_eight v h =
    ap (read_hex_digits 0) (sym (append-nil (hex_digits 8 v)))
    ∙ read_hex_digits-hex_digits 8 0 v [] (omega arith) (omega arith)
    ∙ ap some (omega arith)

-- Eight digits never begin with a sign, so the parser reads all of them.
pub from_str_radix_16-format_08x : (v : ℕ) → IsU32 v → from_str_radix_16 (format_08x v) ≡ some v
unfolding format_08x from_str_radix_16 hex_digits
from_str_radix_16-format_08x v h =
    rw (hex_char_plain (v / 16 / 16 / 16 / 16 / 16 / 16 / 16 % 16) (omega arith)).0 (read_eight v h)

trim_0x-format_08x : (v : ℕ) → trim_0x (format_08x v) ≡ format_08x v
unfolding format_08x trim_0x hex_digits
trim_0x-format_08x v =
    ground (arith, hex_char_plain (v / 16 / 16 / 16 / 16 / 16 / 16 % 16) (omega arith))

-- A 32-bit value formatted as eight hexadecimal digits is parsed back.
pub parse_u32_be_hex-format_08x : (v : ℕ) → IsU32 v → parse_u32_be_hex (format_08x v) ≡ some v
unfolding parse_u32_be_hex
parse_u32_be_hex-format_08x v h = rw (trim_0x-format_08x v) (from_str_radix_16-format_08x v h)

pub all-hex_digits : (n v : ℕ) → all is_ascii_hexdigit (hex_digits n v) ≡ true
unfolding hex_digits
all-hex_digits zero v = refl
all-hex_digits (suc n) v =
    all-append is_ascii_hexdigit (hex_digits n (v / 16)) (hex_char (v % 16) ∷ [])
    ∙ rw (all-hex_digits n (v / 16), is_ascii_hexdigit-hex_char (v % 16) (omega arith))

pub length-format_08x : (v : ℕ) → length (format_08x v) ≡ 8
unfolding format_08x
length-format_08x v = length-hex_digits 8 v

pub all-format_08x : (v : ℕ) → all is_ascii_hexdigit (format_08x v) ≡ true
unfolding format_08x
all-format_08x v = all-hex_digits 8 v
