-- ===== src/P2p/Frame/RoundTrip.antt =====
-- Theorems on the frames of src/p2p.rs.
use stratum_bee.Base.{
  leb→le, le→leb, length, take, drop, All, length-append, length-replicate, length-take,
  length-drop, take-append-drop, take-append_left, drop-append_left, drop-drop, get_range,
  get_range-some, take-take, drop-take, Bytes, zeros, to_le_bytes, from_le_bytes,
  length-to_le_bytes, from_le_bytes-to_le_bytes, Text, text_eq→eq, text_eq_refl, ok, >>=-eq-ok,
  ok-injective, ok_or-eq-ok, ensure-eq-ok, ℕ, zero, suc, ◌+◌, ◌-◌, ◌≤◌, ◌<◌, ◌≡◌, refl, sym, ap,
  ◌∙◌, some, [], ◌∷◌, ◌++◌, append_assoc, arith,
}
use stratum_bee.Crates.{Network, Crates, CrateLaws}
use stratum_bee.Hash.{length-double_sha256}
use stratum_bee.P2p.Frame.{
  max_payload_len, MessageFrame, until_zero, payload_checksum, message_header, send_message,
  check_payload, read_message,
}

until_zero-pad :
    (command : Text) (n : ℕ) → All (λ b. 0 < b) command → until_zero (command ++ zeros n) ≡ command
unfolding until_zero
until_zero-pad [] zero h = refl
until_zero-pad [] (suc n) h = refl
until_zero-pad (b ∷ bs) n (h, hs) = ground (arith, until_zero-pad bs n hs)

pub get_range-middle :
    (pre mid post : Bytes) (n m : ℕ)
    → length pre ≡ n
    → length mid ≡ m
    → get_range (pre ++ (mid ++ post)) n m ≡ some mid
get_range-middle pre mid post n m hn hm =
    rw (drop-append_left n pre (mid ++ post) hn, take-append_left m mid post hm)
      (ground (arith, length-append pre (mid ++ post), length-append mid post))

module _ (c : Crates) (laws : CrateLaws c) where
  length-payload_checksum : (payload : Bytes) → length (payload_checksum c payload) ≡ 4
  unfolding payload_checksum
  length-payload_checksum payload =
      length-take 4 _ (omega (arith, length-double_sha256 c laws payload))

  -- The parts of a header, where they stand.
  record Fields (header : Bytes) (network : Network) (command : Text) (payload : Bytes)
      : Type 0 where
    size : length header ≡ 24
    magic : take 4 header ≡ c.magic network
    name : take 12 (drop 4 header) ≡ command ++ zeros (12 - length command)
    count : take 4 (drop 16 header) ≡ to_le_bytes 4 (length payload)
    checksum : drop 20 header ≡ payload_checksum c payload

  parts :
      (magic name count checksum : Bytes)
      → length magic ≡ 4
      → length name ≡ 12
      → length count ≡ 4
      → length checksum ≡ 4
      → let header = magic ++ (name ++ (count ++ checksum)) in
        (length header ≡ 24)
        × (take 4 header ≡ magic)
        × (take 12 (drop 4 header) ≡ name)
        × (take 4 (drop 16 header) ≡ count)
        × (drop 20 header ≡ checksum)
  parts magic name count checksum hm hn hc hs =
      let header = magic ++ (name ++ (count ++ checksum)) in
      let d4 : drop 4 header ≡ name ++ (count ++ checksum) = drop-append_left 4 magic _ hm in
      let d16 : drop 16 header ≡ count ++ checksum =
        sym (drop-drop 4 12 header) ∙ ap (drop 12) d4 ∙ drop-append_left 12 name _ hn in
      let d20 : drop 20 header ≡ checksum =
        sym (drop-drop 16 4 header) ∙ ap (drop 4) d16 ∙ drop-append_left 4 count _ hc in
      (
        omega (
          arith,
          length-append magic (name ++ (count ++ checksum)),
          length-append name (count ++ checksum),
          length-append count checksum,
          hm,
          hn,
          hc,
          hs,
        ),
        take-append_left 4 magic _ hm,
        ap (take 12) d4 ∙ take-append_left 12 name _ hn,
        ap (take 4) d16 ∙ take-append_left 4 count _ hc,
        d20,
      )

  message_header-Fields :
      (network : Network) (command : Text) (payload : Bytes)
      → length command ≤ 12
      → Fields (message_header c network command payload) network command payload
  unfolding message_header
  message_header-Fields network command payload h =
      let (size, magic, name, count, checksum) =
        parts (c.magic network) (command ++ zeros (12 - length command))
          (to_le_bytes 4 (length payload)) (payload_checksum c payload) (laws.length-magic network)
          (omega (
            arith,
            length-append command (zeros (12 - length command)),
            length-replicate {A = ℕ} (12 - length command) 0,
            h,
          ))
          (length-to_le_bytes 4 (length payload)) (length-payload_checksum payload) in
      record { size = size; magic = magic; name = name; count = count; checksum = checksum }

  check_payload-Fields :
      (header : Bytes) (network : Network) (command : Text) (payload rest : Bytes)
      → Fields header network command payload
      → All (λ b. 0 < b) command
      → check_payload c header payload rest
        ≡ ok (record { command = command; payload = payload }, rest)
  unfolding check_payload
  check_payload-Fields header network command payload rest h named =
      rw
        (
          h.checksum,
          text_eq_refl (payload_checksum c payload),
          h.name,
          until_zero-pad command (12 - length command) named,
        )
        refl

  read_message-Fields :
      (network : Network) (command : Text) (header payload rest : Bytes)
      → Fields header network command payload
      → length payload ≤ max_payload_len
      → read_message c network (header ++ (payload ++ rest)) ≡ check_payload c header payload rest
  unfolding read_message
  read_message-Fields network command header payload rest h small =
      let count : from_le_bytes (take 4 (drop 16 header)) ≡ length payload =
        ap from_le_bytes h.count ∙ from_le_bytes-to_le_bytes 4 (length payload) (omega arith) in
      let tail : drop (24 + length payload) (header ++ (payload ++ rest)) ≡ rest =
        sym (drop-drop 24 (length payload) (header ++ (payload ++ rest)))
        ∙ ap (drop (length payload)) (drop-append_left 24 header (payload ++ rest) h.size)
        ∙ drop-append_left (length payload) payload rest refl in
      rw
        (
          get_range-middle [] header (payload ++ rest) 0 24 refl h.size,
          h.magic,
          text_eq_refl (c.magic network),
          count,
          le→leb _ _ small,
          get_range-middle header payload rest 24 (length payload) h.size refl,
          tail,
        )
        refl

  -- A message with a command of at most 12 bytes, none of them zero, and a payload within the bound
  -- is sent as a frame that is read back as that message, in front of any further bytes of the
  -- stream.
  pub read_message-send_message :
      (network : Network) (command : Text) (payload rest : Bytes)
      → length command ≤ 12
      → All (λ b. 0 < b) command
      → length payload ≤ max_payload_len
      → (sent : Bytes) × (send_message c network command payload ≡ ok sent)
        × (read_message c network (sent ++ rest)
            ≡ ok (record { command = command; payload = payload }, rest))
  unfolding send_message
  read_message-send_message network command payload rest short named small =
      let header = message_header c network command payload in
      let fields = message_header-Fields network command payload short in
      (
        header ++ payload,
        ground (arith, short, small),
        ap (read_message c network) (append_assoc header payload rest)
            ∙ read_message-Fields network command header payload rest fields small
            ∙ check_payload-Fields header network command payload rest fields named,
      )

  check_payload_sound :
      (header payload behind rest : Bytes) (message : MessageFrame)
      → check_payload c header payload behind ≡ ok (message, rest)
      → (payload ≡ message.payload)
        × (behind ≡ rest)
        × (drop 20 header ≡ payload_checksum c message.payload)
  unfolding check_payload
  check_payload_sound header payload behind rest message e =
      let (u, checked, e') = >>=-eq-ok _ _ e in
      let both = ok-injective e' in
      let same : payload ≡ message.payload = ap (λ (m : MessageFrame × Bytes). m.0.payload) both in
      (
        same,
        ap (λ (m : MessageFrame × Bytes). m.1) both,
        text_eq→eq _ _ (ensure-eq-ok _ "bad p2p checksum" checked) ∙ ap (payload_checksum c) same,
      )

  -- A message that is read from a stream has a payload within the bound, and stands in the stream
  -- behind a header of 24 bytes with the magic of the network and the checksum of that payload.
  pub read_message_sound :
      (network : Network) (stream rest : Bytes) (message : MessageFrame)
      → read_message c network stream ≡ ok (message, rest)
      → (length message.payload ≤ max_payload_len)
        × (take 4 stream ≡ c.magic network)
        × (take 4 (drop 20 stream) ≡ payload_checksum c message.payload)
        × (stream ≡ take 24 stream ++ (message.payload ++ rest))
  unfolding read_message
  read_message_sound network stream rest message e =
      let (header, eh, e1) = >>=-eq-ok _ _ e in
      let (u1, magic, e2) = >>=-eq-ok _ _ e1 in
      let (u2, small, e3) = >>=-eq-ok _ _ e2 in
      let (payload, ep, e4) = >>=-eq-ok _ _ e3 in
      let (same, behind, checked) = check_payload_sound header payload _ rest message e4 in
      let (long, is_header) = get_range-some stream 0 24 header (ok_or-eq-ok _ "early eof" eh) in
      let n = from_le_bytes (take 4 (drop 16 header)) in
      let (longer, is_payload) =
        get_range-some stream 24 n payload (ok_or-eq-ok _ "early eof" ep) in
      let bound = leb→le n max_payload_len (ensure-eq-ok _ "p2p payload too large" small) in
      let size : length payload ≡ n =
        ap length is_payload
        ∙ length-take n (drop 24 stream) (omega (arith, length-drop 24 stream, longer)) in
      (
        omega (arith, ap length same, size, bound),
        sym (take-take 4 20 stream)
            ∙ ap (take 4) (sym is_header)
            ∙ text_eq→eq _ _ (ensure-eq-ok _ "unexpected p2p magic" magic),
        sym (drop-take 20 4 stream) ∙ ap (drop 20) (sym is_header) ∙ checked,
        rw (← same, ← behind, is_payload)
            (sym (take-append-drop 24 stream)
              ∙ ap (◌++◌ (take 24 stream)) (
                  sym (take-append-drop n (drop 24 stream))
                  ∙ ap (◌++◌ (take n (drop 24 stream))) (drop-drop 24 n stream))),
      )
