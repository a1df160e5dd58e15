-- ===== src/Session/Lines.antt =====
-- `read_limited_line` of src/stratum.rs. A buffered reader is the list of the chunks that it has to
-- give, none of them empty; an error of the socket is not modelled.
pub mod Split
use stratum_bee.Base.{
  ltb, ◌==◌, if◌then◌else◌, length, take, drop, is_empty, Bytes, ℕ, ◌+◌, Option, none, some, List,
  [], ◌∷◌, ◌++◌,
}

pub data LimitedLineRead : Type 0 where
  eof : LimitedLineRead
  line : (size : ℕ) → LimitedLineRead
  too_long : (observed_at_least : ℕ) → LimitedLineRead

-- `iter().position(|byte| *byte == b'\n')`
unfoldable pub newline_position : Bytes → Option ℕ
newline_position [] = none
newline_position (byte ∷ bytes) =
    if byte == 0x0a
    then some 0
    else elim (newline_position bytes) [ none ↦ none | some n ↦ some (n + 1) ]

-- `reader.consume(size)`, of the first chunk.
unfoldable pub consume : ℕ → Bytes → List Bytes → List Bytes
consume size chunk chunks =
    let rest = drop size chunk in if is_empty rest then chunks else rest ∷ chunks

-- One turn of the loop, for the newline's position in the available bytes, with what the later turns give.
unfoldable pub limited_step :
    ℕ
    → Bytes
    → Bytes
    → List Bytes
    → LimitedLineRead × Bytes × List Bytes
    → Option ℕ
    → LimitedLineRead × Bytes × List Bytes
limited_step max_bytes out available chunks later (some newline_pos) =
    let size = newline_pos + 1 in
    let observed = length out + size in
    let behind = consume size available chunks in
    if ltb max_bytes observed then (LimitedLineRead.too_long observed, out, behind) else (
      LimitedLineRead.line (length (out ++ take size available)),
      out ++ take size available,
      behind,
    )
limited_step max_bytes out available chunks later none =
    let observed = length out + length available in
    if ltb max_bytes observed then (LimitedLineRead.too_long observed, out, chunks) else later

-- The line's bytes so far and the chunks: what was read, the bytes, and the chunks behind it.
unfoldable pub limited_loop : ℕ → Bytes → List Bytes → LimitedLineRead × Bytes × List Bytes
limited_loop max_bytes out [] =
    (if is_empty out then LimitedLineRead.eof else LimitedLineRead.line (length out), out, [])
limited_loop max_bytes out (available ∷ chunks) =
    let later = limited_loop max_bytes (out ++ available) chunks in
    limited_step max_bytes out available chunks later (newline_position available)

unfoldable pub read_limited_line : ℕ → List Bytes → LimitedLineRead × Bytes × List Bytes
read_limited_line max_bytes chunks = limited_loop max_bytes [] chunks
