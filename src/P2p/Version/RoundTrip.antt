-- ===== src/P2p/Version/RoundTrip.antt =====
-- Theorems on the version message of src/p2p.rs.
use stratum_bee.Base.{
  le→leb, length, take, length-append, length-reverse, take-append_left, get_range, Bytes, zeros,
  to_le_bytes, length-to_le_bytes, from_le_bytes-to_le_bytes, Text, codes, ok, ℤ, ℕ, ◌+◌, ◌-◌, ◌%◌,
  ◌^◌, ◌≤◌, ◌<◌, min, ◌≡◌, refl, ap, ◌∙◌, some, [], ◌∷◌, ◌++◌, reverse, append_assoc, arith,
}
use stratum_bee.Encoding.Varint.{encode_varint, varint_len, read_varint}
use stratum_bee.Encoding.Varint.RoundTrip.{length-encode_varint, read_varint-encode_varint}
use stratum_bee.P2p.Frame.RoundTrip.{get_range-middle}
use stratum_bee.P2p.Version.{
  IpAddr, encode_network_address, start_height_of, build_version_payload, from_le_bytes_i32,
  parse_peer_version,
}

-- An address of either kind with all its octets.
abbrev pub IsAddress : IpAddr → Type 0
IsAddress (IpAddr.v4 octets) = length octets ≡ 4
IsAddress (IpAddr.v6 octets) = length octets ≡ 16

length-port : (port : ℕ) → length (reverse (to_le_bytes 2 port)) ≡ 2
length-port port = length-reverse (to_le_bytes 2 port) ∙ length-to_le_bytes 2 port

length-encode_network_address :
    (ip : IpAddr) (port : ℕ) → IsAddress ip → length (encode_network_address ip port) ≡ 26
unfolding encode_network_address
length-encode_network_address (IpAddr.v4 octets) port h =
    omega (arith, length-append octets (reverse (to_le_bytes 2 port)), length-port port, h)
length-encode_network_address (IpAddr.v6 octets) port h =
    omega (arith, length-append octets (reverse (to_le_bytes 2 port)), length-port port, h)

-- A payload of a fixed part of 80 bytes, a user agent, a height and a flag.
parse_parts :
    (version rest agent height : Bytes)
    → length version ≡ 4
    → length rest ≡ 76
    → length height ≡ 4
    → length agent < 2 ^ 32
    → let payload =
        (version ++ rest) ++ (encode_varint (length agent) [] ++ (agent ++ (height ++ (0 ∷ [])))) in
      parse_peer_version payload
      ≡ ok (record { version = from_le_bytes_i32 version; start_height = from_le_bytes_i32 height })
unfolding parse_peer_version
parse_parts version rest agent height hv hr hh short =
    let n = length agent in
    let size = encode_varint n [] in
    let tail = height ++ (0 ∷ []) in
    let payload = (version ++ rest) ++ (size ++ (agent ++ tail)) in
    let fixed : length (version ++ rest) ≡ 80 = omega (arith, length-append version rest, hv, hr) in
    let agent_at : read_varint payload 80 ≡ ok (n, 80 + varint_len n) =
      rw (← fixed) (read_varint-encode_varint (version ++ rest) n (agent ++ tail) (omega arith)) in
    let long : length payload ≡ 80 + varint_len n + n + 5 = omega (
      arith,
      length-append (version ++ rest) (size ++ (agent ++ tail)),
      length-append size (agent ++ tail),
      length-append agent tail,
      length-append height (0 ∷ []),
      fixed,
      length-encode_varint n,
      hh,
    ) in
    let bound : varint_len n ≤ 9 = unfold varint_len in ground arith in
    let behind : (80 + varint_len n + n) % 2 ^ 64 ≡ 80 + varint_len n + n = omega (arith, bound) in
    let front : take 4 payload ≡ version =
      ap (take 4) (append_assoc version rest (size ++ (agent ++ tail)))
      ∙ take-append_left 4 version _ hv in
    let height_at : get_range payload (80 + varint_len n + n) 4 ≡ some height =
      ap (λ (xs : Bytes). get_range xs (80 + varint_len n + n) 4)
        (regroup (version ++ rest) size agent tail)
      ∙ get_range-middle ((version ++ rest) ++ (size ++ agent)) height (0 ∷ [])
          (80 + varint_len n + n) 4
          (omega (
            arith,
            length-append (version ++ rest) (size ++ agent),
            length-append size agent,
            fixed,
            length-encode_varint n,
          ))
          hh in
    rw
      (
        agent_at,
        behind,
        height_at,
        front,
        le→leb 80 (length payload) (omega (arith, long)),
        le→leb (80 + varint_len n + n) (length payload) (omega (arith, long)),
      )
      refl
  where
    regroup : (a b c d : Bytes) → a ++ (b ++ (c ++ d)) ≡ (a ++ (b ++ c)) ++ d
    regroup a b c d = simp append_assoc

small_i32 : (v : ℕ) → v < 2 ^ 31 → from_le_bytes_i32 (to_le_bytes 4 v) ≡ ℤ.pos v
small_i32 v h = rw (from_le_bytes-to_le_bytes 4 v (omega arith)) (ground arith)

-- The version message that is sent, with an address of the right size and a package version below
-- 2^31 bytes, is read as the protocol version and the height before the current one, cut to a
-- signed 32-bit number.
pub parse_peer_version-build_version_payload :
    (current_height : ℕ) (ip : IpAddr) (port now nonce : ℕ) (package_version : Text)
    → IsAddress ip
    → length package_version < 2 ^ 31
    → parse_peer_version (build_version_payload current_height ip port now nonce package_version)
      ≡ ok (record {
        version = ℤ.pos 70016;
        start_height = ℤ.pos (min (current_height - 1) (2 ^ 31 - 1));
      })
unfolding build_version_payload start_height_of
parse_peer_version-build_version_payload current_height ip port now nonce package_version h short =
    let height = min (current_height - 1) (2 ^ 31 - 1) in
    let agent = codes "/stratumbee:" ++ (package_version ++ codes "/") in
    let to = encode_network_address ip port in
    let from = encode_network_address (IpAddr.v4 (zeros 4)) 0 in
    parse_parts (to_le_bytes 4 70016)
      (to_le_bytes 8 0 ++ (to_le_bytes 8 now ++ (to ++ (from ++ to_le_bytes 8 nonce)))) agent
      (to_le_bytes 4 height) refl
      (omega (
        arith,
        length-append to (from ++ to_le_bytes 8 nonce),
        length-append from (to_le_bytes 8 nonce),
        length-encode_network_address ip port h,
        length-encode_network_address (IpAddr.v4 (zeros 4)) 0 refl,
      ))
      refl (omega (arith, length-append package_version (codes "/"), short))
    ∙ ap (λ z. ok (record { version = ℤ.pos 70016; start_height = z }))
        (small_i32 height (omega arith))
