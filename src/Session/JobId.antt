-- ===== src/Session/JobId.antt =====
-- The session job identifiers of src/stratum.rs: eight lower-case hexadecimal digits.
pub mod RoundTrip
use mathlib.Core.Option
use stratum_bee.Base.{◌==◌, if◌then◌else◌, length, all, Text, ℕ, not, ◌||◌, Option, none}
use stratum_bee.Encoding.HexText.{is_ascii_hexdigit, from_str_radix_16, format_08x}

unfoldable pub format_session_job_id : ℕ → Text
format_session_job_id job_id = format_08x job_id

-- `SESSION_JOB_ID_HEX_LEN` digits of either case, and nothing else.
unfoldable pub parse_session_job_id : Text → Option ℕ
parse_session_job_id job_id =
    if not (length job_id == 8) || not (all is_ascii_hexdigit job_id)
    then none
    else from_str_radix_16 job_id

unfoldable pub normalize_session_job_id : Text → Option Text
normalize_session_job_id job_id = Option.map format_session_job_id (parse_session_job_id job_id)
