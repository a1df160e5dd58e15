-- ===== src/Session/Dedup.antt =====
-- The duplicate check of src/stratum.rs: `build_dup_key`, and the set of submitted keys with the
-- order in which they came. The set is a list without repetitions, in the order of insertion.
pub mod Window
use stratum_bee.Base.{
  leb, ◌==◌, if◌then◌else◌, length, take, Bytes, zeros, Text, text_eq, ok, err, ℕ, ◌-◌, min, Bool,
  true, false, ◌&&◌, ◌||◌, Option, List, [], ◌∷◌, ◌++◌,
}
use stratum_bee.Crates.{Crates}
use stratum_bee.Encoding.HexText.{from_str_radix_16}
use stratum_bee.Session.JobId.{parse_session_job_id}
use mathlib.Core.Option

-- The job, the nonce, the time, the first 16 bytes of the extranonce with their number, and the
-- version.
pub record DupKey : Type 0 where
  pub job : ℕ
  pub nonce : ℕ
  pub ntime : ℕ
  pub extranonce2 : Bytes
  pub extra_len : ℕ
  pub version : ℕ

-- `==` on the tuples.
unfoldable pub dup_key_eq : DupKey → DupKey → Bool
dup_key_eq a b =
    (a.job == b.job)
    && ((a.nonce == b.nonce)
        && ((a.ntime == b.ntime)
            && (text_eq a.extranonce2 b.extranonce2
                && ((a.extra_len == b.extra_len) && (a.version == b.version)))))

abbrev pub max_dup_hashes : ℕ
max_dup_hashes = 4096

-- `submitted_hashes` and `submitted_hashes_order`.
pub record Submitted : Type 0 where
  pub hashes : List DupKey
  pub order : List DupKey

unfoldable pub contains : List DupKey → DupKey → Bool
contains [] key = false
contains (k ∷ keys) key = dup_key_eq k key || contains keys key

-- `HashSet::remove`
unfoldable pub remove_key : DupKey → List DupKey → List DupKey
remove_key key [] = []
remove_key key (k ∷ keys) = if dup_key_eq k key then keys else k ∷ remove_key key keys

-- `if let Some(oldest) = order.pop_front()`
unfoldable pub evict_oldest : List DupKey → List DupKey → Submitted
evict_oldest hashes [] = record { hashes = hashes; order = [] }
evict_oldest hashes (oldest ∷ order) = record { hashes = remove_key oldest hashes; order = order }

-- Whether the key is a duplicate, and the keys behind the check.
unfoldable pub check_duplicate : Submitted → DupKey → Submitted × Bool
check_duplicate s dup_key =
    if contains s.hashes dup_key
    then (s, true)
    else (let s' =
          if leb max_dup_hashes (length s.hashes) then evict_oldest s.hashes s.order else s in
        (
          record { hashes = s'.hashes ++ (dup_key ∷ []); order = s'.order ++ (dup_key ∷ []) },
          false,
        ))

module _ (c : Crates) where
  -- `hex::decode(..).unwrap_or_default()`
  unfoldable pub decoded_extranonce2 : Text → Bytes
  decoded_extranonce2 extranonce2_hex = elim (c.hex_decode extranonce2_hex) [
    | ok bytes ↦ bytes
    | err e ↦ []
  ]

  unfoldable pub build_dup_key : Text → Text → Text → Text → Text → DupKey
  build_dup_key job_id nonce_hex ntime_hex extranonce2_hex version_hex =
      let decoded = decoded_extranonce2 extranonce2_hex in
      let extra_len = min (length decoded) 16 in
      record {
        job = Option.get_or (parse_session_job_id job_id) 0;
        nonce = Option.get_or (from_str_radix_16 nonce_hex) 0;
        ntime = Option.get_or (from_str_radix_16 ntime_hex) 0;
        extranonce2 = take extra_len decoded ++ zeros (16 - extra_len);
        extra_len = extra_len;
        version = Option.get_or (from_str_radix_16 version_hex) 0;
      }
