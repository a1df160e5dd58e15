-- ===== src/Session/Lines/Split.antt =====
-- Theorems on `read_limited_line` of src/stratum.rs.
use stratum_bee.Base.{
  ltb, ◌==◌, if◌then◌else◌, ltb→lt, ltb_false→le, Bool-cases, length, take, drop, is_empty,
  length-append, Bytes, ℕ, ◌+◌, ◌≤◌, ◌<◌, ◌≡◌, refl, sym, ◌∙◌, ◌⊎◌, inl, inr, Option, none, some,
  List, [], ◌∷◌, ◌++◌, append_assoc, append-nil, arith,
}
use stratum_bee.Session.Lines.{
  LimitedLineRead, newline_position, consume, limited_step, limited_loop, read_limited_line,
}

-- The stream up to its first newline, that included, and the rest.
abbrev pub first_line : Bytes → Bytes
first_line [] = []
first_line (byte ∷ bytes) = if byte == 0x0a then byte ∷ [] else byte ∷ first_line bytes

abbrev pub behind_line : Bytes → Bytes
behind_line [] = []
behind_line (byte ∷ bytes) = if byte == 0x0a then bytes else behind_line bytes

abbrev pub join_chunks : List Bytes → Bytes
join_chunks [] = []
join_chunks (chunk ∷ chunks) = chunk ++ join_chunks chunks

-- What is read of a line, given how many of its bytes came before.
abbrev pub IsRead : ℕ → Bytes → Bytes → Bytes → LimitedLineRead × Bytes × List Bytes → Type 0
IsRead max_bytes out first rest (LimitedLineRead.eof, read, chunks) =
    (out ++ first ≡ []) × (read ≡ []) × (join_chunks chunks ≡ [])
IsRead max_bytes out first rest (LimitedLineRead.line size, read, chunks) =
    (size ≡ length read)
    × (read ≡ out ++ first)
    × (length read ≤ max_bytes)
    × (join_chunks chunks ≡ rest)
IsRead max_bytes out first rest (LimitedLineRead.too_long observed, read, chunks) =
    (max_bytes < observed) × (observed ≤ length out + length first)

Option-split : {A : Type 0} (o : Option A) → (o ≡ none) ⊎ ((a : A) × (o ≡ some a))
Option-split none = inl refl
Option-split (some a) = inr (a, refl)

newline_position-some :
    (chunk rest : Bytes) (n : ℕ)
    → newline_position chunk ≡ some n
    → (first_line (chunk ++ rest) ≡ take (n + 1) chunk)
      × (behind_line (chunk ++ rest) ≡ drop (n + 1) chunk ++ rest)
      × (length (take (n + 1) chunk) ≡ n + 1)
unfolding newline_position
newline_position-some [] rest n e = cc
newline_position-some (b ∷ chunk) rest n e = elim (Option-split (newline_position chunk)) [
  | inl missing ↦ ground (arith, missing)
  | inr (m, found) ↦ ground (arith, found, newline_position-some chunk rest m found)
]

newline_position-none :
    (chunk rest : Bytes)
    → newline_position chunk ≡ none
    → (first_line (chunk ++ rest) ≡ chunk ++ first_line rest)
      × (behind_line (chunk ++ rest) ≡ behind_line rest)
unfolding newline_position
newline_position-none [] rest e = (refl, refl)
newline_position-none (b ∷ chunk) rest e = ground (arith, newline_position-none chunk rest)

join-consume :
    (size : ℕ) (chunk : Bytes) (chunks : List Bytes)
    → join_chunks (consume size chunk chunks) ≡ drop size chunk ++ join_chunks chunks
unfolding consume
join-consume size chunk chunks = go (drop size chunk)
  where
    go :
        (rest : Bytes)
        → join_chunks (if is_empty rest then chunks else rest ∷ chunks) ≡ rest ++ join_chunks chunks
    go [] = refl
    go (b ∷ rest) = refl

IsRead-append :
    (max_bytes : ℕ) (out chunk first rest : Bytes) (r : LimitedLineRead × Bytes × List Bytes)
    → IsRead max_bytes (out ++ chunk) first rest r
    → IsRead max_bytes out (chunk ++ first) rest r
IsRead-append max_bytes out chunk first rest (LimitedLineRead.eof, read, chunks) (e, r, r') =
    (sym (append_assoc out chunk first) ∙ e, r, r')
IsRead-append max_bytes out chunk first rest (LimitedLineRead.line size, read, chunks)
      (a, b, r, r') =
    (a, b ∙ append_assoc out chunk first, r, r')
IsRead-append max_bytes out chunk first rest (LimitedLineRead.too_long observed, read, chunks)
      (a, b) =
    (a, omega (arith, b, length-append out chunk, length-append chunk first))

limited_loop-IsRead :
    (max_bytes : ℕ) (out : Bytes) (chunks : List Bytes)
    → length out ≤ max_bytes
    → IsRead max_bytes out
        (first_line (join_chunks chunks))
        (behind_line (join_chunks chunks))
        (limited_loop max_bytes out chunks)
unfolding limited_loop limited_step
limited_loop-IsRead max_bytes [] [] h = (refl, refl, refl)
limited_loop-IsRead max_bytes (b ∷ out) [] h = (refl, sym (append-nil (b ∷ out)), h, refl)
limited_loop-IsRead max_bytes out (chunk ∷ chunks) h =
    elim (Option-split (newline_position chunk)) [
      | inl missing ↦
          let (line_eq, rest_eq) = newline_position-none chunk (join_chunks chunks) missing in
          let observed = length out + length chunk in
          elim (Bool-cases (ltb max_bytes observed)) [
            | inl long ↦
                rw (line_eq, rest_eq, missing, long)
                  (
                    omega (arith, ltb→lt _ _ long),
                    omega (arith, length-append chunk (first_line (join_chunks chunks))),
                  )
            | inr short ↦
                rw (line_eq, rest_eq, missing, short)
                  (IsRead-append max_bytes out chunk _ _ _ (
                    limited_loop-IsRead max_bytes (out ++ chunk) chunks
                      (omega (arith, length-append out chunk, ltb_false→le _ _ short))))
          ]
      | inr (n, found) ↦
          let (line_eq, rest_eq, size) = newline_position-some chunk (join_chunks chunks) n found in
          let observed = length out + (n + 1) in
          let joined = join-consume (n + 1) chunk chunks in
          elim (Bool-cases (ltb max_bytes observed)) [
            | inl long ↦
                rw (line_eq, rest_eq, found, long)
                  (omega (arith, ltb→lt _ _ long), omega (arith, size))
            | inr short ↦
                rw (line_eq, rest_eq, found, short)
                  (
                    refl,
                    refl,
                    omega (
                      arith,
                      length-append out (take (n + 1) chunk),
                      size,
                      ltb_false→le _ _ short,
                    ),
                    joined,
                  )
          ]
    ]

-- However a stream is cut into chunks, reading a line ends with its first line and leaves the rest,
-- where the line is within the limit; it is told too long only where the line is longer than the
-- limit, by no more than the line has, and at its end only where nothing is left.
pub read_limited_line-IsRead :
    (max_bytes : ℕ) (chunks : List Bytes)
    → IsRead max_bytes []
        (first_line (join_chunks chunks))
        (behind_line (join_chunks chunks))
        (read_limited_line max_bytes chunks)
unfolding read_limited_line
read_limited_line-IsRead max_bytes chunks = limited_loop-IsRead max_bytes [] chunks (omega arith)
