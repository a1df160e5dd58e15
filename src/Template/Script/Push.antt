-- ===== src/Template/Script/Push.antt =====
-- A reader of script pushes, and theorems on `encode_script_pushdata` of src/template.rs.
use stratum_bee.Base.{
  leb, ◌==◌, if◌then◌else◌, le→leb, Bool-cases, length, take, drop, take-append_left,
  drop-append_left, Bytes, to_le_bytes, from_le_bytes, from_le_bytes-to_le_bytes, ok, bail, ℕ, ◌^◌,
  ◌≤◌, ◌<◌, ◌≡◌, refl, ap, ◌∙◌, ◌⊎◌, inl, inr, Option, none, some, [], ◌∷◌, ◌++◌, append_assoc,
  arith,
}
use stratum_bee.Template.Script.{encode_script_pushdata}

-- The first push of a script and what follows it: a length of one byte up to 75, or one or two
-- bytes of length behind OP_PUSHDATA1 and OP_PUSHDATA2.
abbrev pub read_push : Bytes → Option (Bytes × Bytes)
read_push [] = none
read_push (op ∷ script) =
    if leb op 75
    then some (take op script, drop op script)
    else if op == 0x4c
    then some (
      take (from_le_bytes (take 1 script)) (drop 1 script),
      drop (from_le_bytes (take 1 script)) (drop 1 script),
    )
    else if op == 0x4d
    then some (
      take (from_le_bytes (take 2 script)) (drop 2 script),
      drop (from_le_bytes (take 2 script)) (drop 2 script),
    )
    else none

read_push-append :
    (op : ℕ) (len bytes rest : Bytes) (n : ℕ)
    → length bytes ≡ n
    → from_le_bytes len ≡ n
    → (length len ≡ 1) × (op ≡ 0x4c) ⊎ (length len ≡ 2) × (op ≡ 0x4d)
    → read_push (op ∷ (len ++ (bytes ++ rest))) ≡ some (bytes, rest)
read_push-append op len bytes rest n hn hv (inl (hl, ho)) = rw (
  ho,
  take-append_left 1 len (bytes ++ rest) hl,
  drop-append_left 1 len (bytes ++ rest) hl,
  hv,
  take-append_left n bytes rest hn,
  drop-append_left n bytes rest hn,
)
read_push-append op len bytes rest n hn hv (inr (hl, ho)) = rw (
  ho,
  take-append_left 2 len (bytes ++ rest) hl,
  drop-append_left 2 len (bytes ++ rest) hl,
  hv,
  take-append_left n bytes rest hn,
  drop-append_left n bytes rest hn,
)

regroup :
    (out : Bytes) (op : ℕ) (len bytes : Bytes)
    → ((out ++ (op ∷ [])) ++ len) ++ bytes ≡ out ++ (op ∷ (len ++ bytes))
regroup out op len bytes =
    append_assoc (out ++ (op ∷ [])) len bytes ∙ append_assoc out (op ∷ []) (len ++ bytes)

-- Data of up to 65535 bytes that is pushed onto a script is appended to it and is the next push
-- that is read behind it.
pub encode_script_pushdata-read_push :
    (bytes out rest : Bytes)
    → length bytes < 2 ^ 16
    → (pushed : Bytes) × (encode_script_pushdata bytes out ≡ ok (out ++ pushed))
      × (read_push (pushed ++ rest) ≡ some (bytes, rest))
unfolding encode_script_pushdata
encode_script_pushdata-read_push bytes out rest h = elim (Bool-cases (leb (length bytes) 75)) [
  | inl short ↦ (
    length bytes ∷ bytes,
    rw short (ap ok (append_assoc out (length bytes ∷ []) bytes)),
    rw (
      short,
      take-append_left (length bytes) bytes rest refl,
      drop-append_left (length bytes) bytes rest refl,
    ),
  )
  | inr long ↦ elim (Bool-cases (leb (length bytes) 0xff)) [
    | inl middle ↦ (
      0x4c ∷ (length bytes ∷ bytes),
      rw (long, middle) (ap ok (regroup out 0x4c (length bytes ∷ []) bytes)),
      read_push-append 0x4c (length bytes ∷ []) bytes rest (length bytes) refl (omega arith)
          (inl (refl, refl)),
    )
    | inr large ↦ (
      0x4d ∷ (to_le_bytes 2 (length bytes) ++ bytes),
      rw (long, large, le→leb (length bytes) 0xffff (omega arith))
          (ap ok (regroup out 0x4d (to_le_bytes 2 (length bytes)) bytes)),
      read_push-append 0x4d (to_le_bytes 2 (length bytes)) bytes rest (length bytes) refl
          (from_le_bytes-to_le_bytes 2 (length bytes) (omega arith)) (inr (refl, refl)),
    )
  ]
]

-- Longer data is refused.
pub encode_script_pushdata-refused :
    (bytes out : Bytes)
    → 2 ^ 16 ≤ length bytes
    → encode_script_pushdata bytes out ≡ bail "script pushdata too long"
unfolding encode_script_pushdata
encode_script_pushdata-refused bytes out h = ground arith
