-- ===== src/Session/JobId/RoundTrip.antt =====
-- Theorems on the job identifiers of src/stratum.rs.
use stratum_bee.Base.{Option-cases, IsU32, Text, ℕ, ◌+◌, ◌*◌, ◌≡◌, inl, inr, some, [], ◌∷◌, arith}
use stratum_bee.Encoding.HexText.{hex_digit, read_hex_digits, from_str_radix_16}
use stratum_bee.Encoding.HexText.RoundTrip.{
  from_str_radix_16-format_08x, length-format_08x, all-format_08x,
}
use stratum_bee.Session.JobId.{
  format_session_job_id, parse_session_job_id, normalize_session_job_id,
}

-- The identifier that is formatted for a 32-bit number is parsed as that number.
pub parse_session_job_id-format :
    (id : ℕ) → IsU32 id → parse_session_job_id (format_session_job_id id) ≡ some id
unfolding parse_session_job_id format_session_job_id
parse_session_job_id-format id h =
    rw (length-format_08x id, all-format_08x id) (from_str_radix_16-format_08x id h)

-- It is its own normal form.
pub normalize_session_job_id-format :
    (id : ℕ)
    → IsU32 id
    → normalize_session_job_id (format_session_job_id id) ≡ some (format_session_job_id id)
unfolding normalize_session_job_id
normalize_session_job_id-format id h = rw (parse_session_job_id-format id h)

read_hex_digits-IsU32 :
    (acc : ℕ) (s : Text) (v : ℕ) → IsU32 acc → read_hex_digits acc s ≡ some v → IsU32 v
unfolding read_hex_digits
read_hex_digits-IsU32 acc [] v h e = ground arith
read_hex_digits-IsU32 acc (c ∷ s) v h e = elim (Option-cases (hex_digit c)) [
  | inl bad ↦ ground arith
  | inr (d, good) ↦ ground (arith, read_hex_digits-IsU32 (acc * 16 + d) s v)
]

from_str_radix_16-IsU32 : (s : Text) (v : ℕ) → from_str_radix_16 s ≡ some v → IsU32 v
unfolding from_str_radix_16
from_str_radix_16-IsU32 [] v e = cc
from_str_radix_16-IsU32 (c ∷ []) v e = read_hex_digits-IsU32 0 (c ∷ []) v (omega arith) e
from_str_radix_16-IsU32 (c ∷ d ∷ s) v e = ground (
  arith,
  read_hex_digits-IsU32 0 (d ∷ s) v (omega arith),
  read_hex_digits-IsU32 0 (c ∷ d ∷ s) v (omega arith),
)

-- The normal form of a job identifier that has one is the identifier of a 32-bit number, and is its
-- own normal form.
pub normalize_session_job_id_idem :
    (job_id normal : Text)
    → normalize_session_job_id job_id ≡ some normal
    → (id : ℕ) × IsU32 id
      × (normal ≡ format_session_job_id id)
      × (normalize_session_job_id normal ≡ some normal)
unfolding normalize_session_job_id parse_session_job_id
normalize_session_job_id_idem job_id normal e = elim (Option-cases (parse_session_job_id job_id)) [
  | inl bad ↦ absurd (ground arith)
  | inr (id, good) ↦
      let small : IsU32 id = ground (arith, from_str_radix_16-IsU32 job_id id) in
      let same : normal ≡ format_session_job_id id = ground arith in
      (id, small, same, rw same (normalize_session_job_id-format id small))
]
