-- ===== src/Examples/Toys.antt =====
-- Concrete functions in the places of the third-party crates, with the laws that the code relies on, and the
-- natural numbers in the place of the floating-point numbers.
use Prim.Native.Nat.{compare, Ordering}
use mathlib.Core.List.{reverse-reverse}
use native.Mathlib.Nat.{pow-suc}
use stratum_bee.Base.{
  ltb, leb, length, replicate, All, length-replicate, length-reverse, Bytes, IsByte, from_le_bytes,
  Text, Result, ok, bail, ok_or, ◌>>=◌, >>=-eq-ok, ok-injective, ok_or-eq-ok, ℤ, ℕ, zero, suc, ◌+◌,
  ◌-◌, ◌*◌, ◌/◌, ◌%◌, ◌^◌, ◌≤◌, ◌<◌, ◌≡◌, refl, subst, ◌↔◌, true, some, [], ◌∷◌, reverse, arith,
}
use stratum_bee.Encoding.HexText.{hex_digit, hex_char}
use stratum_bee.Crates.{Crates, CrateLaws}
use stratum_bee.Float.{FloatOps, FloatLaws}
use stratum_bee.Encoding.HexText.RoundTrip.{hex_digit-hex_char}

unfoldable pub checksum : Bytes → ℕ
checksum [] = 7
checksum (b ∷ bs) = (b + 31 * checksum bs) % 256

checksum-IsByte : (bs : Bytes) → IsByte (checksum bs)
unfolding checksum
checksum-IsByte [] = omega arith
checksum-IsByte (b ∷ bs) = omega arith

replicate-IsByte : (n b : ℕ) → IsByte b → All IsByte (replicate n b)
replicate-IsByte zero b h = tt
replicate-IsByte (suc n) b h = (h, replicate-IsByte n b h)

-- 32 equal bytes that depend on all the data.
unfoldable pub toy_sha256 : Bytes → Bytes
toy_sha256 data' = replicate 32 (checksum data')

unfoldable pub toy_hex_encode : Bytes → Text
toy_hex_encode [] = []
toy_hex_encode (b ∷ bs) = hex_char (b / 16) ∷ hex_char (b % 16) ∷ toy_hex_encode bs

unfoldable pub toy_hex_decode : Text → Result Bytes
toy_hex_decode [] = ok []
toy_hex_decode (c ∷ []) = bail "Odd number of digits"
toy_hex_decode (c ∷ d ∷ text) = do
  hi ← ok_or (hex_digit c) "Invalid character"
  lo ← ok_or (hex_digit d) "Invalid character"
  rest ← toy_hex_decode text
  ok ((16 * hi + lo) ∷ rest)

-- The digits to base 256, the lowest first: as many as the number needs, but one at least.
unfoldable pub le_digits : ℕ → ℕ → Bytes
le_digits zero n = n ∷ []
le_digits (suc fuel) n = elim (compare n 256) [
  | Ordering.lt ↦ n ∷ []
  | _ ↦ n % 256 ∷ le_digits fuel (n / 256)
]

unfoldable pub toy_to_bytes_be : ℕ → Bytes
toy_to_bytes_be n = reverse (le_digits n n)

le_digits-value : (fuel n : ℕ) → from_le_bytes (le_digits fuel n) ≡ n
unfolding le_digits
le_digits-value zero n = ground arith
le_digits-value (suc fuel) n = ground (arith, le_digits-value fuel (n / 256))

le_digits-some : (fuel n : ℕ) → 0 < length (le_digits fuel n)
unfolding le_digits
le_digits-some zero n = omega arith
le_digits-some (suc fuel) n = ground arith

pow_positive : (k : ℕ) → 0 < 256 ^ k
pow_positive zero = omega arith
pow_positive (suc k) = omega (arith, pow-suc 256 k, pow_positive k)

length-le_digits :
    (fuel n k : ℕ) → n ≤ fuel → (length (le_digits fuel n) ≤ suc k) ↔ (n < 256 ^ suc k)
unfolding le_digits
length-le_digits zero n zero h = (λ _. omega arith, λ _. omega arith)
length-le_digits zero n (suc k) h =
    (λ _. omega (arith, pow_positive (suc (suc k))), λ _. omega arith)
length-le_digits (suc fuel) n zero h = ground (arith, le_digits-some fuel (n / 256))
length-le_digits (suc fuel) n (suc k) h = ground (
  arith,
  length-le_digits fuel (n / 256) k (omega arith),
  pow-suc 256 (suc k),
  pow_positive (suc k),
)

toy_round_trip : (bs : Bytes) → All IsByte bs → toy_hex_decode (toy_hex_encode bs) ≡ ok bs
unfolding toy_hex_decode toy_hex_encode
toy_round_trip [] h = refl
toy_round_trip (b ∷ bs) (h, hs) = ground (
  arith,
  hex_digit-hex_char (b / 16) (omega arith),
  hex_digit-hex_char (b % 16) (omega arith),
  toy_round_trip bs hs,
)

hex_digit-small : (d n : ℕ) → hex_digit d ≡ some n → n < 16
unfolding hex_digit
hex_digit-small d n e = ground arith

toy_hex_decode-IsByte : (text : Text) (bs : Bytes) → toy_hex_decode text ≡ ok bs → All IsByte bs
unfolding toy_hex_decode
toy_hex_decode-IsByte [] bs e = subst (All IsByte) (ok-injective e) tt
toy_hex_decode-IsByte (d ∷ []) bs e = cc
toy_hex_decode-IsByte (d ∷ d' ∷ text) bs e =
    let (hi, eh, e1) = >>=-eq-ok (ok_or (hex_digit d) "Invalid character") _ e in
    let (lo, el, e2) = >>=-eq-ok (ok_or (hex_digit d') "Invalid character") _ e1 in
    let (rest, er, e3) = >>=-eq-ok (toy_hex_decode text) _ e2 in
    let high = hex_digit-small d hi (ok_or-eq-ok _ "Invalid character" eh) in
    let low = hex_digit-small d' lo (ok_or-eq-ok _ "Invalid character" el) in
    subst (All IsByte) (ok-injective e3)
      (omega (arith, high, low), toy_hex_decode-IsByte text rest er)

length-toy_hex_encode : (bs : Bytes) → length (toy_hex_encode bs) ≡ 2 * length bs
unfolding toy_hex_encode
length-toy_hex_encode [] = refl
length-toy_hex_encode (b ∷ bs) = omega (arith, length-toy_hex_encode bs)

abbrev pub toy_crates : Crates
toy_crates = record {
  sha256 = toy_sha256;
  hex_encode = toy_hex_encode;
  hex_decode = toy_hex_decode;
  to_bytes_be = toy_to_bytes_be;
  from_bytes_be = λ bs. from_le_bytes (reverse bs);
  address_script = λ address network. ok (0x00 ∷ 0x14 ∷ replicate 20 7);
  magic = λ network. 0xf9 ∷ 0xbe ∷ 0xb4 ∷ 0xd9 ∷ [];
}

pub toy_laws : CrateLaws toy_crates
unfolding toy_sha256 toy_to_bytes_be
toy_laws = record {
  length-sha256 = λ data'. length-replicate 32 (checksum data');
  sha256-IsByte = λ data'. replicate-IsByte 32 (checksum data') (checksum-IsByte data');
  hex_decode-hex_encode = toy_round_trip;
  hex_decode-IsByte = toy_hex_decode-IsByte;
  length-hex_encode = length-toy_hex_encode;
  to_bytes_be-value = λ n. rw (reverse-reverse (le_digits n n)) (le_digits-value n n);
  length-to_bytes_be =
      λ n. rw (length-reverse (le_digits n n)) (length-le_digits n n 31 (omega arith));
  from_bytes_be-value = λ bs. refl;
  length-magic = λ network. refl;
}

-- The number of halvings that lead to 1 or 0, of 64 at most.
unfoldable pub toy_log2 : ℕ → ℕ → ℕ
toy_log2 zero n = 0
toy_log2 (suc fuel) n = elim (compare n 2) [ Ordering.lt ↦ 0 | _ ↦ suc (toy_log2 fuel (n / 2)) ]

abbrev pub toy_floats : FloatOps ℕ
toy_floats = record {
  of_nat = λ n. n;
  of_int = λ z. elim z [ ℤ.pos n ↦ n | ℤ.negsuc n ↦ 0 ];
  add = λ x y. x + y;
  sub = λ x y. x - y;
  mul = λ x y. x * y;
  div = λ x y. x / y;
  lt = ltb;
  le = leb;
  is_finite = λ x. true;
  infinity = 2 ^ 1024;
  max_value = 2 ^ 1024 - 2 ^ 970;
  min_positive = 1;
  epsilon = 0;
  abs = λ x. x;
  round_u128 = λ x. x;
  trunc_i64 = λ x. x;
  log2 = toy_log2 64;
  powf_two = λ x. 2 ^ x;
  powi = λ x z. elim z [ ℤ.pos n ↦ x ^ n | ℤ.negsuc n ↦ 1 / x ^ (n + 1) ];
  floor = λ x. x;
  ceil = λ x. x;
  of_biguint = some;
}

pub toy_float_laws : FloatLaws toy_floats
toy_float_laws = record { lt-irrefl = λ x. ground arith }
