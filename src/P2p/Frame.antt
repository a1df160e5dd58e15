-- ===== src/P2p/Frame.antt =====
-- The message frames of src/p2p.rs. A command is kept as its bytes: the lossy conversion to text
-- changes none of the names that the code compares it with.
pub mod RoundTrip
use stratum_bee.Base.{
  leb, ◌==◌, if◌then◌else◌, length, take, drop, get_range, Bytes, zeros, to_le_bytes, from_le_bytes,
  Text, text_eq, Result, ok, ok_or, ensure, ◌>>=◌, ◌>>◌, ℕ, ◌+◌, ◌-◌, ◌*◌, [], ◌∷◌, ◌++◌,
}
use stratum_bee.Crates.{Network, Crates}
use stratum_bee.Hash.{double_sha256}

abbrev pub max_payload_len : ℕ
max_payload_len = 4 * 1024 * 1024

pub record MessageFrame : Type 0 where
  pub command : Text
  pub payload : Bytes

-- `iter().position(|byte| *byte == 0).unwrap_or(12)`, as the bytes before it.
unfoldable pub until_zero : Bytes → Bytes
until_zero [] = []
until_zero (b ∷ bs) = if b == 0 then [] else b ∷ until_zero bs

module _ (c : Crates) where
  unfoldable pub payload_checksum : Bytes → Bytes
  payload_checksum payload = take 4 (double_sha256 c payload)

  unfoldable pub message_header : Network → Text → Bytes → Bytes
  message_header network command payload =
      c.magic network
      ++ ((command ++ zeros (12 - length command))
          ++ (to_le_bytes 4 (length payload) ++ payload_checksum payload))

  -- The bytes that `send_message` writes.
  unfoldable pub send_message : Network → Text → Bytes → Result Bytes
  send_message network command payload = do
    ensure (leb (length command) 12) "p2p command too long"
    ensure (leb (length payload) max_payload_len) "p2p payload too large"
    ok (message_header network command payload ++ payload)

  -- `header[20..24]` and `&checksum[..]`, once the header and payload are read.
  unfoldable pub check_payload : Bytes → Bytes → Bytes → Result (MessageFrame × Bytes)
  check_payload header payload rest = do
    ensure (text_eq (drop 20 header) (payload_checksum payload)) "bad p2p checksum"
    ok (record { command = until_zero (take 12 (drop 4 header)); payload = payload }, rest)

  -- A message from the bytes that the peer sends, and the bytes behind it. Where they end too soon,
  -- `read_exact` fails.
  unfoldable pub read_message : Network → Bytes → Result (MessageFrame × Bytes)
  read_message network stream = do
    header ← ok_or (get_range stream 0 24) "early eof"
    ensure (text_eq (take 4 header) (c.magic network)) "unexpected p2p magic"
    let payload_len = from_le_bytes (take 4 (drop 16 header))
    ensure (leb payload_len max_payload_len) "p2p payload too large"
    payload ← ok_or (get_range stream 24 payload_len) "early eof"
    check_payload header payload (drop (24 + payload_len) stream)
