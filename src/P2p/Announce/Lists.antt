-- ===== src/P2p/Announce/Lists.antt =====
-- Writers of inventories and headers, and theorems on the readers of src/p2p.rs.
use stratum_bee.Base.{
  ◌==◌, if◌then◌else◌, length, All, length-append, get_range, Bytes, IsU32, IsU64, to_le_bytes,
  length-to_le_bytes, from_le_bytes-to_le_bytes, ok, ℕ, ◌+◌, ◌≡◌, refl, sym, ap, ◌∙◌, Bool, ◌||◌,
  some, List, [], ◌∷◌, ◌++◌, map, append_assoc, append-nil, arith,
}
use stratum_bee.Crates.{Crates}
use stratum_bee.Encoding.Varint.{encode_varint, varint_len, read_varint}
use stratum_bee.Encoding.Varint.RoundTrip.{length-encode_varint, read_varint-encode_varint}
use stratum_bee.P2p.Frame.RoundTrip.{get_range-middle}
use stratum_bee.P2p.Announce.{
  is_block_inventory_type, inv_loop, parse_inv_block_hashes, announcement_of,
  parse_block_announcement_from_header, headers_loop, parse_headers_announcements,
}

-- An inventory's entries on the wire: a type and a hash each.
abbrev pub inv_entries : List (ℕ × Bytes) → Bytes
inv_entries [] = []
inv_entries ((kind, hash) ∷ entries) = to_le_bytes 4 kind ++ (hash ++ inv_entries entries)

abbrev pub IsEntry : ℕ × Bytes → Type 0
IsEntry (kind, hash) = IsU32 kind × (length hash ≡ 32)

-- The types of blocks, filtered blocks and compact blocks, without and with the flag of a witness.
abbrev pub is_block_kind : ℕ → Bool
is_block_kind kind =
    (kind == 2)
    || ((kind == 3)
        || ((kind == 4)
            || ((kind == 0x40000002) || ((kind == 0x40000003) || (kind == 0x40000004)))))

-- The hashes of those entries that are blocks.
abbrev pub block_hashes : List (ℕ × Bytes) → List Bytes
block_hashes [] = []
block_hashes ((kind, hash) ∷ entries) =
    if is_block_kind kind then hash ∷ block_hashes entries else block_hashes entries

-- The test of the type, which takes the flag away, finds these six.
is_block_inventory_type-is_block_kind :
    (kind : ℕ) → is_block_inventory_type kind ≡ is_block_kind kind
unfolding is_block_inventory_type
is_block_inventory_type-is_block_kind kind = ground arith

step_on : (pre a b rest : Bytes) → (pre ++ (a ++ b)) ++ rest ≡ pre ++ (a ++ (b ++ rest))
step_on pre a b rest = simp append_assoc

inv_loop-entries :
    (entries : List (ℕ × Bytes)) (pre : Bytes)
    → All IsEntry entries
    → inv_loop (length entries) (pre ++ inv_entries entries) (length pre)
      ≡ ok (block_hashes entries, length (pre ++ inv_entries entries))
unfolding inv_loop
inv_loop-entries [] pre h = rw (append-nil pre) refl
inv_loop-entries ((kind, hash) ∷ entries) pre ((small, size), hs) =
    let rest = inv_entries entries in
    let pre' = pre ++ (to_le_bytes 4 kind ++ hash) in
    let four = length-to_le_bytes 4 kind in
    let same : pre ++ (to_le_bytes 4 kind ++ (hash ++ rest)) ≡ pre' ++ rest =
      sym (step_on pre (to_le_bytes 4 kind) hash rest) in
    let len : length pre' ≡ length pre + 36 = omega (
      arith,
      length-append pre (to_le_bytes 4 kind ++ hash),
      length-append (to_le_bytes 4 kind) hash,
      four,
      size,
    ) in
    let first : get_range (pre ++ (to_le_bytes 4 kind ++ (hash ++ rest))) (length pre) 4
        ≡ some (to_le_bytes 4 kind) =
      get_range-middle pre (to_le_bytes 4 kind) (hash ++ rest) (length pre) 4 refl four in
    let second : get_range (pre ++ (to_le_bytes 4 kind ++ (hash ++ rest))) (length pre + 4) 32
        ≡ some hash =
      ap (λ (xs : Bytes). get_range xs (length pre + 4) 32)
        (sym (append_assoc pre (to_le_bytes 4 kind) (hash ++ rest)))
      ∙ get_range-middle (pre ++ to_le_bytes 4 kind) hash rest (length pre + 4) 32
          (omega (arith, length-append pre (to_le_bytes 4 kind), four)) size in
    let others : inv_loop (length entries) (pre ++ (to_le_bytes 4 kind ++ (hash ++ rest)))
          (length pre + 36)
        ≡ ok (block_hashes entries, length (pre ++ (to_le_bytes 4 kind ++ (hash ++ rest)))) =
      rw (same, ← len) (inv_loop-entries entries pre' hs) in
    rw
      (
        first,
        second,
        others,
        from_le_bytes-to_le_bytes 4 kind small,
        is_block_inventory_type-is_block_kind kind,
      )
      refl

read_start :
    (n : ℕ) (rest : Bytes)
    → IsU64 n
    → read_varint (encode_varint n [] ++ rest) 0 ≡ ok (n, varint_len n)
read_start n rest h =
    read_varint-encode_varint [] n rest h
    ∙ ap (λ (k : ℕ). ok (n, k)) {x = 0 + varint_len n} {y = varint_len n} (omega arith)

-- An inventory of entries of a 32-bit type and a hash of 32 bytes, fewer than 2^64, is read as the
-- hashes of those entries whose type is 2, 3 or 4, alone or with bit 30 set, in their order.
pub parse_inv_block_hashes-entries :
    (entries : List (ℕ × Bytes))
    → IsU64 (length entries)
    → All IsEntry entries
    → parse_inv_block_hashes (encode_varint (length entries) [] ++ inv_entries entries)
      ≡ ok (block_hashes entries)
unfolding parse_inv_block_hashes
parse_inv_block_hashes-entries entries small h =
    let pre = encode_varint (length entries) [] in
    rw
      (
        read_start (length entries) (inv_entries entries) small,
        ← length-encode_varint (length entries),
        inv_loop-entries entries pre h,
      )
      (ground arith)

zero_behind :
    (pre rest : Bytes) (n m : ℕ)
    → length pre ≡ n
    → m ≡ n + 1
    → read_varint (pre ++ (0 ∷ rest)) n ≡ ok (0, m)
unfolding encode_varint varint_len
zero_behind pre rest n m h e = rw (e, ← h) (read_varint-encode_varint pre 0 rest (omega arith))

module _ (c : Crates) where
  -- Headers on the wire, each with no transactions.
  abbrev pub header_entries : List Bytes → Bytes
  header_entries [] = []
  header_entries (header ∷ headers) = header ++ (0 ∷ header_entries headers)

  abbrev pub IsHeader : Bytes → Type 0
  IsHeader header = length header ≡ 80

  headers_loop-entries :
      (headers : List Bytes) (pre : Bytes)
      → All IsHeader headers
      → headers_loop c (length headers) (pre ++ header_entries headers) (length pre)
        ≡ ok (map (announcement_of c) headers, length (pre ++ header_entries headers))
  unfolding headers_loop parse_block_announcement_from_header
  headers_loop-entries [] pre h = rw (append-nil pre) refl
  headers_loop-entries (header ∷ headers) pre (size, hs) =
      let rest = header_entries headers in
      let payload = pre ++ (header ++ (0 ∷ rest)) in
      let pre' = pre ++ (header ++ (0 ∷ [])) in
      let same : payload ≡ pre' ++ rest = sym (step_on pre header (0 ∷ []) rest) in
      let len : length pre' ≡ length pre + 81 =
        omega
          (arith, length-append pre (header ++ (0 ∷ [])), length-append header (0 ∷ []), size) in
      let first : get_range payload (length pre) 80 ≡ some header =
        get_range-middle pre header (0 ∷ rest) (length pre) 80 refl size in
      let none_inside : read_varint payload (length pre + 80) ≡ ok (0, length pre + 81) =
        ap (λ (xs : Bytes). read_varint xs (length pre + 80))
          (sym (append_assoc pre header (0 ∷ rest)))
        ∙ zero_behind (pre ++ header) rest (length pre + 80) (length pre + 81)
            (omega (arith, length-append pre header, size)) (omega arith) in
      let others : headers_loop c (length headers) payload (length pre + 81)
          ≡ ok (map (announcement_of c) headers, length payload) =
        rw (same, ← len) (headers_loop-entries headers pre' hs) in
      rw (first, size, none_inside, others) refl

  -- A list of headers of 80 bytes, fewer than 2^64 and each with no transactions, is read as the
  -- announcement of each of them, in their order.
  pub parse_headers_announcements-entries :
      (headers : List Bytes)
      → IsU64 (length headers)
      → All IsHeader headers
      → parse_headers_announcements c (encode_varint (length headers) [] ++ header_entries headers)
        ≡ ok (map (announcement_of c) headers)
  unfolding parse_headers_announcements
  parse_headers_announcements-entries headers small h =
      let pre = encode_varint (length headers) [] in
      rw
        (
          read_start (length headers) (header_entries headers) small,
          ← length-encode_varint (length headers),
          headers_loop-entries headers pre h,
        )
        (ground arith)
