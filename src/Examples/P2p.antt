-- ===== src/Examples/P2p.antt =====
-- Messages of a peer at concrete values.
use stratum_bee.Base.{
  length, take, drop, replicate, Bytes, Text, codes, text_eq, ok, ℤ, ℕ, ◌-◌, ◌^◌, ◌≤◌, min, ◌≡◌,
  refl, List, [], ◌∷◌, ◌++◌, map, reverse, arith,
}
use stratum_bee.Crates.{Network}
use stratum_bee.Share.{build_header}
use stratum_bee.Job.{JobTemplate}
use stratum_bee.Hash.{double_sha256}
use stratum_bee.Encoding.Varint.{encode_varint}
use stratum_bee.P2p.Frame.{
  max_payload_len, MessageFrame, until_zero, payload_checksum, message_header, send_message,
  check_payload, read_message,
}
use stratum_bee.P2p.Frame.RoundTrip.{read_message-send_message, read_message_sound}
use stratum_bee.P2p.Announce.{
  parse_inv_block_hashes, announcement_of, parse_block_announcement_from_header,
  parse_headers_announcements,
}
use stratum_bee.P2p.Announce.Lists.{
  inv_entries, block_hashes, parse_inv_block_hashes-entries, header_entries,
  parse_headers_announcements-entries,
}
use stratum_bee.P2p.Announce.Header.{parse_block_announcement_from_header-build_header}
use stratum_bee.P2p.Version.{IpAddr, build_version_payload, parse_peer_version}
use stratum_bee.P2p.Version.RoundTrip.{parse_peer_version-build_version_payload}
use stratum_bee.Examples.Toys.{checksum, toy_sha256, toy_crates, toy_laws}
use stratum_bee.Examples.Shares.{toy_job}

abbrev ping_payload : Bytes
ping_payload = 1 ∷ 2 ∷ 3 ∷ 4 ∷ 5 ∷ 6 ∷ 7 ∷ 8 ∷ []

abbrev rest : Bytes
rest = 9 ∷ 9 ∷ []

abbrev ping : MessageFrame
ping = record { command = codes "ping"; payload = ping_payload }

ping_is_small : length ping_payload ≤ max_payload_len
ping_is_small = omega arith

read_message-send_message_example :
    (sent : Bytes) × (send_message toy_crates Network.bitcoin (codes "ping") ping_payload ≡ ok sent)
    × (read_message toy_crates Network.bitcoin (sent ++ rest) ≡ ok (ping, rest))
read_message-send_message_example =
    read_message-send_message toy_crates toy_laws Network.bitcoin (codes "ping") ping_payload rest
      (omega arith) (omega arith, (omega arith, (omega arith, (omega arith, tt)))) ping_is_small

abbrev sent_ping : Bytes
sent_ping = message_header toy_crates Network.bitcoin (codes "ping") ping_payload ++ ping_payload

ping_read : read_message toy_crates Network.bitcoin (sent_ping ++ rest) ≡ ok (ping, rest)
unfolding read_message check_payload message_header payload_checksum until_zero max_payload_len
    toy_sha256 checksum double_sha256 text_eq
ping_read = refl

read_message_sound_example :
    (length ping.payload ≤ max_payload_len)
    × (take 4 (sent_ping ++ rest) ≡ toy_crates.magic Network.bitcoin)
    × (take 4 (drop 20 (sent_ping ++ rest)) ≡ payload_checksum toy_crates ping.payload)
    × (sent_ping ++ rest ≡ take 24 (sent_ping ++ rest) ++ (ping.payload ++ rest))
read_message_sound_example =
    read_message_sound toy_crates toy_laws Network.bitcoin (sent_ping ++ rest) rest ping ping_read

-- A transaction, a block and a compact block with the flag of a witness.
abbrev entries : List (ℕ × Bytes)
entries = (1, replicate 32 1) ∷ (2, replicate 32 2) ∷ (0x40000004, replicate 32 3) ∷ []

parse_inv_block_hashes-entries_example :
    parse_inv_block_hashes (encode_varint (length entries) [] ++ inv_entries entries)
    ≡ ok (block_hashes entries)
parse_inv_block_hashes-entries_example =
    parse_inv_block_hashes-entries entries (omega arith)
      ((omega arith, refl), ((omega arith, refl), ((omega arith, refl), tt)))

abbrev header : Bytes
header = build_header 0x20000000 (replicate 32 1) (replicate 32 2) 1000 0x207fffff 7

parse_headers_announcements-entries_example :
    parse_headers_announcements toy_crates
      (encode_varint (length (header ∷ [])) [] ++ header_entries toy_crates (header ∷ []))
    ≡ ok (map (announcement_of toy_crates) (header ∷ []))
parse_headers_announcements-entries_example =
    parse_headers_announcements-entries toy_crates (header ∷ []) (omega arith)
      ((unfold build_header in refl), tt)

parse_block_announcement_from_header-build_header_example :
    parse_block_announcement_from_header toy_crates header
    ≡ ok (record {
      prevhash_hex = toy_crates.hex_encode (reverse (replicate 32 1));
      block_hash_hex = toy_crates.hex_encode (reverse (double_sha256 toy_crates header));
      block_time = 1000;
      block_nbits = 0x207fffff;
    })
parse_block_announcement_from_header-build_header_example =
    parse_block_announcement_from_header-build_header toy_crates 0x20000000 (replicate 32 1)
      (replicate 32 2) 1000 0x207fffff 7 refl refl (omega arith) (omega arith)

parse_peer_version-build_version_payload_example :
    parse_peer_version (
      build_version_payload 900_000
        (IpAddr.v4 (127 ∷ 0 ∷ 0 ∷ 1 ∷ []))
        8333
        1_700_000_000
        5
        (codes "1.0.0"))
    ≡ ok (record { version = ℤ.pos 70016; start_height = ℤ.pos (min (900_000 - 1) (2 ^ 31 - 1)) })
parse_peer_version-build_version_payload_example =
    parse_peer_version-build_version_payload 900_000 (IpAddr.v4 (127 ∷ 0 ∷ 0 ∷ 1 ∷ [])) 8333
      1_700_000_000 5 (codes "1.0.0") refl (omega arith)

abbrev message_of : Text → JobTemplate ℕ × MessageFrame
message_of command = (toy_job, record { command = command; payload = [] })

abbrev handshake : List (JobTemplate ℕ × MessageFrame)
handshake =
    message_of (codes "version") ∷ message_of (codes "verack") ∷ message_of (codes "verack") ∷ []

abbrev half : List (JobTemplate ℕ × MessageFrame)
half = message_of (codes "version") ∷ message_of (codes "headers") ∷ []
