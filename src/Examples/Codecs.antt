-- ===== src/Examples/Codecs.antt =====
-- Encodings at concrete values.
use stratum_bee.Base.{
  leb, length, replicate, Bytes, from_le_bytes, Text, codes, ok, ◌+◌, ◌-◌, ◌*◌, ◌/◌, ◌^◌, min, ◌≡◌,
  refl, some, List, [], ◌∷◌, ◌++◌, reverse, arith,
}
use stratum_bee.Encoding.Varint.{encode_varint, varint_len, read_varint}
use stratum_bee.Encoding.Varint.RoundTrip.{read_varint-encode_varint}
use stratum_bee.Encoding.HexText.{
  hex_digit, is_ascii_hexdigit, read_hex_digits, from_str_radix_16, hex_char, hex_digits,
  format_08x,
}
use stratum_bee.Session.JobId.{
  format_session_job_id, parse_session_job_id, normalize_session_job_id,
}
use stratum_bee.Template.Compact.{block_hash_meets_compact_target}
use stratum_bee.Template.Compact.Value.{compact_value, block_hash_meets_compact_target-leb}
use stratum_bee.Share.{diff1_target, scale, leq_le256, share_target_le}
use stratum_bee.Share.Compare.{leq_le256-leb}
use stratum_bee.Share.Target.{scaled_difficulty, share_target_le-value}
use stratum_bee.Examples.Toys.{toy_crates, toy_laws, toy_floats}

read_varint-encode_varint_example :
    read_varint ((1 ∷ 2 ∷ []) ++ (encode_varint 70_000 [] ++ (9 ∷ []))) 2
    ≡ ok (70_000, 2 + varint_len 70_000)
read_varint-encode_varint_example =
    read_varint-encode_varint (1 ∷ 2 ∷ []) 70_000 (9 ∷ []) (omega arith)

upper_case : normalize_session_job_id (codes "0000ABCD") ≡ some (codes "0000abcd")
unfolding normalize_session_job_id parse_session_job_id is_ascii_hexdigit from_str_radix_16
    read_hex_digits hex_digit format_session_job_id format_08x hex_digits hex_char
upper_case = refl

block_hash_meets_compact_target-leb_example :
    block_hash_meets_compact_target toy_crates (toy_crates.hex_encode (replicate 32 3)) 0x207fffff
    ≡ ok (leb (from_le_bytes (reverse (replicate 32 3))) (compact_value 0x20 0x7fffff))
block_hash_meets_compact_target-leb_example =
    block_hash_meets_compact_target-leb toy_crates toy_laws (replicate 32 3) 0x207fffff refl
      (ground arith) (omega arith) (omega arith) (omega arith) (omega arith)

leq_le256-leb_example :
    leq_le256 (replicate 32 3) (9 ∷ replicate 31 3)
    ≡ leb (from_le_bytes (replicate 32 3)) (from_le_bytes (9 ∷ replicate 31 3))
leq_le256-leb_example =
    leq_le256-leb (replicate 32 3) (9 ∷ replicate 31 3) (ground arith) (ground arith) refl refl

share_target_le-value_example :
    (target : Bytes) × (share_target_le toy_crates toy_floats 1024 ≡ ok target)
    × (length target ≡ 32)
    × (from_le_bytes target
        ≡ min
            (diff1_target * scale / scaled_difficulty toy_crates toy_floats toy_laws 1024)
            (2 ^ 256 - 1))
share_target_le-value_example = share_target_le-value toy_crates toy_floats toy_laws 1024 refl refl

abbrev toy_rules : List Text
toy_rules = codes "csv" ∷ codes "!segwit" ∷ codes "!signet" ∷ []
