-- ===== src/Crates.antt =====
-- The third-party crates that the modelled code calls: `sha2`, `hex`, `bitcoin` and
-- `num_bigint`, whose `BigUint` is a natural number. Their functions are
-- parameters; what the code relies on is a record of laws.
use Prim.Native.String.{String}
use stratum_bee.Base.{
  length, All, Bytes, IsByte, from_le_bytes, Text, Result, ok, err, bail, ℕ, ◌*◌, ◌^◌, ◌≤◌, ◌<◌,
  ◌≡◌, ◌↔◌, reverse,
}

-- `bitcoin::Network`, with one constructor for the networks that the code does not name.
pub data Network : Type 0 where
  bitcoin : Network
  testnet : Network
  signet : Network
  regtest : Network
  other_network : Network

pub record Crates : Type 0 where
  -- `Sha256::digest`
  pub sha256 : Bytes → Bytes
  -- `hex::encode` and `hex::decode`, which fails with a message of its own
  pub hex_encode : Bytes → Text
  pub hex_decode : Text → Result Bytes
  -- `BigUint::to_bytes_be` and `BigUint::from_bytes_be`
  pub to_bytes_be : ℕ → Bytes
  pub from_bytes_be : Bytes → ℕ
  -- `Address::from_str`, `require_network` and `script_pubkey`
  pub address_script : Text → Network → Result Bytes
  -- `network.magic().to_bytes()`
  pub magic : Network → Bytes

-- A digest has 32 bytes, `decode` reads back what `encode` wrote of bytes, and gives bytes.
pub record CrateLaws (c : Crates) : Type 0 where
  pub length-sha256 : (data' : Bytes) → length (c.sha256 data') ≡ 32
  pub sha256-IsByte : (data' : Bytes) → All IsByte (c.sha256 data')
  pub hex_decode-hex_encode : (bs : Bytes) → All IsByte bs → c.hex_decode (c.hex_encode bs) ≡ ok bs
  pub hex_decode-IsByte : (text : Text) (bs : Bytes) → c.hex_decode text ≡ ok bs → All IsByte bs
  pub length-hex_encode : (bs : Bytes) → length (c.hex_encode bs) ≡ 2 * length bs
  -- The big-endian digits of a number, with no more of them than it needs.
  pub to_bytes_be-value : (n : ℕ) → from_le_bytes (reverse (c.to_bytes_be n)) ≡ n
  pub length-to_bytes_be : (n : ℕ) → (length (c.to_bytes_be n) ≤ 32) ↔ (n < 2 ^ 256)
  pub from_bytes_be-value : (bs : Bytes) → c.from_bytes_be bs ≡ from_le_bytes (reverse bs)
  -- A magic is four bytes.
  pub length-magic : (network : Network) → length (c.magic network) ≡ 4

-- `result.context(message)`.
abbrev pub context {ℓ} : {A : Type ℓ} → Result A → String → Result A
context (ok a) message = ok a
context (err e) message = bail message

pub context-eq-ok {ℓ} :
    {A : Type ℓ} (r : Result A) (message : String) {a : A} → context r message ≡ ok a → r ≡ ok a
context-eq-ok (ok a) message e = e
context-eq-ok (err m) message e = cc
