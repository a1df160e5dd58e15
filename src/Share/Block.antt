-- ===== src/Share/Block.antt =====
-- Theorems on the serialized block of src/share.rs.
use stratum_bee.Base.{
  if◌then◌else◌, lt→ltb, le→ltb_false, length, replicate, All, length-append, take-append_left,
  drop-append_left, length-map, Bytes, IsByte, ok, bail, ◌+◌, ◌-◌, ◌<◌, ◌≡◌, refl, Bool, true,
  false, List, [], ◌∷◌, ◌++◌, map, arith,
}
use stratum_bee.Crates.{Crates, CrateLaws}
use stratum_bee.Encoding.Varint.{encode_varint}
use stratum_bee.Encoding.Varint.RoundTrip.{encode_varint-append}
use stratum_bee.Share.{build_coinbase_with_witness, decode_transactions, build_block_hex}

-- The bytes of a list of transactions.
abbrev pub join : List Bytes → Bytes
join [] = []
join (tx ∷ txs) = tx ++ join txs

-- For a coinbase of a four-byte version, a core and a four-byte lock time, the witness form has the
-- marker and flag behind the version and one witness item of 32 zero bytes before the lock time.
pub build_coinbase_with_witness_lem :
    (version core locktime : Bytes)
    → length version ≡ 4
    → length locktime ≡ 4
    → build_coinbase_with_witness (version ++ (core ++ locktime))
      ≡ ok (
          version
          ++ ((0x00 ∷ 0x01 ∷ []) ++ (core ++ ((0x01 ∷ 0x20 ∷ []) ++ (replicate 32 0 ++ locktime)))))
unfolding build_coinbase_with_witness
build_coinbase_with_witness_lem version core locktime hv hl =
    let size : length (version ++ (core ++ locktime)) ≡ 8 + length core =
      omega (arith, length-append version (core ++ locktime), length-append core locktime) in
    let split : length (core ++ locktime) - 4 ≡ length core =
      omega (arith, length-append core locktime) in
    rw (
      le→ltb_false (length (version ++ (core ++ locktime))) 8 (omega (arith, size)),
      take-append_left 4 version (core ++ locktime) hv,
      drop-append_left 4 version (core ++ locktime) hv,
      split,
      take-append_left (length core) core locktime refl,
      drop-append_left (length core) core locktime refl,
    )

pub build_coinbase_with_witness-short :
    (legacy : Bytes)
    → length legacy < 8
    → build_coinbase_with_witness legacy ≡ bail "coinbase tx too short"
unfolding build_coinbase_with_witness
build_coinbase_with_witness-short legacy h = rw (lt→ltb (length legacy) 8 h)

module _ (c : Crates) (laws : CrateLaws c) where
  pub decode_transactions-map :
      (txs : List Bytes)
      → All (All IsByte) txs
      → decode_transactions c (map c.hex_encode txs) ≡ ok (join txs)
  unfolding decode_transactions
  decode_transactions-map [] h = refl
  decode_transactions-map (tx ∷ txs) (ht, h) =
      rw (laws.hex_decode-hex_encode tx ht, decode_transactions-map txs h)

  -- For a coinbase with a four-byte version and lock time and transactions that are bytes in
  -- hexadecimal, the block is the header, the count of its transactions, the coinbase in its
  -- witness or legacy form, and the transactions in their order, all in hexadecimal.
  pub build_block_hex_lem :
      (header version core locktime : Bytes) (txs : List Bytes) (use_witness : Bool)
      → length version ≡ 4
      → length locktime ≡ 4
      → All (All IsByte) txs
      → build_block_hex c header (version ++ (core ++ locktime)) (map c.hex_encode txs) use_witness
        ≡ ok (
            c.hex_encode (
              ((header ++ encode_varint (length txs + 1) [])
                ++ (if use_witness
                    then version
                      ++ ((0x00 ∷ 0x01 ∷ [])
                          ++ (core ++ ((0x01 ∷ 0x20 ∷ []) ++ (replicate 32 0 ++ locktime))))
                    else version ++ (core ++ locktime)))
              ++ join txs))
  unfolding build_block_hex
  build_block_hex_lem header version core locktime txs true hv hl h = rw (
    build_coinbase_with_witness_lem version core locktime hv hl,
    decode_transactions-map txs h,
    encode_varint-append (length (map c.hex_encode txs) + 1) header,
    length-map c.hex_encode txs,
  )
  build_block_hex_lem header version core locktime txs false hv hl h = rw (
    decode_transactions-map txs h,
    encode_varint-append (length (map c.hex_encode txs) + 1) header,
    length-map c.hex_encode txs,
  )
