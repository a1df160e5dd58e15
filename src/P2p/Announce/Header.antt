-- ===== src/P2p/Announce/Header.antt =====
-- Theorems on what the header of a block announces (src/p2p.rs, src/share.rs).
use stratum_bee.Base.{
  length, take, drop, take-append_left, drop-append_left, drop-drop, Bytes, IsU32, to_le_bytes,
  length-to_le_bytes, from_le_bytes-to_le_bytes, ok, ℕ, ◌≡◌, refl, sym, ap, ◌∙◌, ◌++◌, reverse,
}
use stratum_bee.Crates.{Crates}
use stratum_bee.Hash.{double_sha256}
use stratum_bee.Share.{build_header}
use stratum_bee.Share.Header.{length-build_header}
use stratum_bee.P2p.Announce.{announcement_of, parse_block_announcement_from_header}

module _ (c : Crates) where
  -- The fields of a header, where they stand.
  fields :
      (version prev root time nbits nonce : Bytes)
      → length version ≡ 4
      → length prev ≡ 32
      → length root ≡ 32
      → length time ≡ 4
      → length nbits ≡ 4
      → let header = version ++ (prev ++ (root ++ (time ++ (nbits ++ nonce)))) in
        (take 32 (drop 4 header) ≡ prev)
        × (take 4 (drop 68 header) ≡ time)
        × (take 4 (drop 72 header) ≡ nbits)
  fields version prev root time nbits nonce hv hp hr ht hn =
      let header = version ++ (prev ++ (root ++ (time ++ (nbits ++ nonce)))) in
      let d4 = drop-append_left 4 version (prev ++ (root ++ (time ++ (nbits ++ nonce)))) hv in
      let d36 : drop 36 header ≡ root ++ (time ++ (nbits ++ nonce)) =
        sym (drop-drop 4 32 header) ∙ ap (drop 32) d4 ∙ drop-append_left 32 prev _ hp in
      let d68 : drop 68 header ≡ time ++ (nbits ++ nonce) =
        sym (drop-drop 36 32 header) ∙ ap (drop 32) d36 ∙ drop-append_left 32 root _ hr in
      let d72 : drop 72 header ≡ nbits ++ nonce =
        sym (drop-drop 68 4 header) ∙ ap (drop 4) d68 ∙ drop-append_left 4 time _ ht in
      (
        ap (take 32) d4 ∙ take-append_left 32 prev _ hp,
        ap (take 4) d68 ∙ take-append_left 4 time _ ht,
        ap (take 4) d72 ∙ take-append_left 4 nbits _ hn,
      )

  build_header-fields :
      (version : ℕ) (prev root : Bytes) (ntime nbits nonce : ℕ)
      → length prev ≡ 32
      → length root ≡ 32
      → let header = build_header version prev root ntime nbits nonce in
        (take 32 (drop 4 header) ≡ prev)
        × (take 4 (drop 68 header) ≡ to_le_bytes 4 ntime)
        × (take 4 (drop 72 header) ≡ to_le_bytes 4 nbits)
  unfolding build_header
  build_header-fields version prev root ntime nbits nonce hp hr =
      fields (to_le_bytes 4 version) prev root (to_le_bytes 4 ntime) (to_le_bytes 4 nbits)
        (to_le_bytes 4 nonce) (length-to_le_bytes 4 version) hp hr (length-to_le_bytes 4 ntime)
        (length-to_le_bytes 4 nbits)

  -- The header that a share is hashed over, with a previous hash and a Merkle root of 32 bytes and
  -- a time and target of 32 bits, is read as the announcement of its double hash on its previous
  -- hash, with that time and target.
  pub parse_block_announcement_from_header-build_header :
      (version : ℕ) (prev root : Bytes) (ntime nbits nonce : ℕ)
      → length prev ≡ 32
      → length root ≡ 32
      → IsU32 ntime
      → IsU32 nbits
      → let header = build_header version prev root ntime nbits nonce in
        parse_block_announcement_from_header c header
        ≡ ok (record {
          prevhash_hex = c.hex_encode (reverse prev);
          block_hash_hex = c.hex_encode (reverse (double_sha256 c header));
          block_time = ntime;
          block_nbits = nbits;
        })
  unfolding parse_block_announcement_from_header announcement_of
  parse_block_announcement_from_header-build_header version prev root ntime nbits nonce hp hr ht
        hn =
      let (p, t, n) = build_header-fields version prev root ntime nbits nonce hp hr in
      rw
        (
          length-build_header version prev root ntime nbits nonce hp hr,
          p,
          t,
          n,
          from_le_bytes-to_le_bytes 4 ntime ht,
          from_le_bytes-to_le_bytes 4 nbits hn,
        )
        refl
