-- ===== src/P2p/Announce.antt =====
-- The announcements that src/p2p.rs reads: inventories, headers and compact blocks, and the request for
-- headers. A `usize` has 64 bits.
pub mod Lists
pub mod Header
use stratum_bee.Base.{
  leb, ◌==◌, if◌then◌else◌, length, take, drop, get_range, Bytes, zeros, to_le_bytes, from_le_bytes,
  Text, Result, ok, ok_or, ensure, ◌>>=◌, ◌>>◌, ℕ, zero, suc, ◌+◌, ◌-◌, ◌*◌, ◌/◌, ◌%◌, ◌^◌, Bool,
  ◌||◌, List, [], ◌∷◌, ◌++◌, reverse,
}
use stratum_bee.Crates.{Crates}
use stratum_bee.Hash.{double_sha256}
use stratum_bee.Encoding.Varint.{encode_varint, read_varint}

pub record BlockAnnouncement : Type 0 where
  pub prevhash_hex : Text
  pub block_hash_hex : Text
  pub block_time : ℕ
  pub block_nbits : ℕ

-- `inv_type & !MSG_WITNESS_FLAG` is a block, filtered block or compact block.
unfoldable pub is_block_inventory_type : ℕ → Bool
is_block_inventory_type inv_type =
    let plain = inv_type - inv_type / 2 ^ 30 % 2 * 2 ^ 30 in
    (plain == 2) || ((plain == 3) || (plain == 4))

-- The entries that are left to read, from a position: the hashes of blocks and the position behind.
unfoldable pub inv_loop : ℕ → Bytes → ℕ → Result (List Bytes × ℕ)
inv_loop zero payload offset = ok ([], offset)
inv_loop (suc count) payload offset = do
  type_bytes ← ok_or (get_range payload offset 4) "inv type truncated"
  hash_bytes ← ok_or (get_range payload (offset + 4) 32) "inv hash truncated"
  rest ← inv_loop count payload (offset + 36)
  ok (
    if is_block_inventory_type (from_le_bytes type_bytes) then hash_bytes ∷ rest.0 else rest.0,
    rest.1,
  )

unfoldable pub parse_inv_block_hashes : Bytes → Result (List Bytes)
parse_inv_block_hashes payload = do
  start ← read_varint payload 0
  read ← inv_loop start.0 payload start.1
  ensure (read.1 == length payload) "inv payload has trailing bytes"
  ok read.0

-- `PROTOCOL_VERSION`
abbrev pub protocol_version : ℕ
protocol_version = 70016

unfoldable pub build_getheaders_payload : Bytes → Bytes
build_getheaders_payload locator_hash_le =
    to_le_bytes 4 protocol_version ++ (encode_varint 1 [] ++ (locator_hash_le ++ zeros 32))

unfoldable pub build_sendcmpct_payload : ℕ → Bytes
build_sendcmpct_payload version = 1 ∷ to_le_bytes 8 version

module _ (c : Crates) where
  -- What a header of 80 bytes announces.
  unfoldable pub announcement_of : Bytes → BlockAnnouncement
  announcement_of header = record {
    prevhash_hex = c.hex_encode (reverse (take 32 (drop 4 header)));
    block_hash_hex = c.hex_encode (reverse (double_sha256 c header));
    block_time = from_le_bytes (take 4 (drop 68 header));
    block_nbits = from_le_bytes (take 4 (drop 72 header));
  }

  unfoldable pub parse_block_announcement_from_header : Bytes → Result BlockAnnouncement
  parse_block_announcement_from_header header = do
    ensure (length header == 80) "block header must be 80 bytes"
    ok (announcement_of header)

  unfoldable pub headers_loop : ℕ → Bytes → ℕ → Result (List BlockAnnouncement × ℕ)
  headers_loop zero payload offset = ok ([], offset)
  headers_loop (suc count) payload offset = do
    header ← ok_or (get_range payload offset 80) "headers payload truncated"
    announcement ← parse_block_announcement_from_header header
    txn_count ← read_varint payload (offset + 80)
    ensure (txn_count.0 == 0) "headers transaction count must be zero"
    rest ← headers_loop count payload txn_count.1
    ok (announcement ∷ rest.0, rest.1)

  unfoldable pub parse_headers_announcements : Bytes → Result (List BlockAnnouncement)
  parse_headers_announcements payload = do
    start ← read_varint payload 0
    read ← headers_loop start.0 payload start.1
    ensure (read.1 == length payload) "headers payload has trailing bytes"
    ok read.0

  unfoldable pub parse_cmpctblock_announcement : Bytes → Result BlockAnnouncement
  parse_cmpctblock_announcement payload = do
    ensure (leb 90 (length payload)) "cmpctblock payload too short"
    parse_block_announcement_from_header (take 80 payload)
