-- ===== src/Session/Submit/Version.antt =====
-- The version of a share that `handle_submit` of src/stratum.rs puts together.
use mathlib.Core.Option
use stratum_bee.Base.{
  ◌==◌, Text, ℕ, ◌≡◌, refl, ◌⊎◌, not, ◌&&◌, bit_and, masked, false, Option, some, none, arith,
}
use stratum_bee.Job.{JobTemplate}
use stratum_bee.Encoding.HexText.{parse_u32_be_hex, format_08x}
use stratum_bee.Session.State.{complement32}
use stratum_bee.Session.Submit.{combine_version}

-- The version of a share that is scored: none where none is submitted that can be read, and else a
-- word with the digits of the submitted one inside the mask and of the job's outside it, where the
-- submitted one has outside the mask no digits or those of the job.
pub data IsCombined (mask job_version : ℕ) : Option Text → Option Text → Type 0 where
  absent : IsCombined mask job_version none none
  unreadable :
      (text : Text) → parse_u32_be_hex text ≡ none → IsCombined mask job_version (some text) none
  combined :
      (text : Text) (submitted word : ℕ)
      → parse_u32_be_hex text ≡ some submitted
      → bit_and word mask ≡ bit_and submitted mask
      → bit_and word (complement32 mask) ≡ bit_and job_version (complement32 mask)
      → (bit_and submitted (complement32 mask) ≡ 0)
        ⊎ (bit_and submitted (complement32 mask) ≡ bit_and job_version (complement32 mask))
      → IsCombined mask job_version (some text) (some (format_08x word))

allowed : (x y : ℕ) → (not (x == 0) && not (x == y)) ≡ false → (x ≡ 0) ⊎ (x ≡ y)
allowed x y e = ground arith

module _ {F : Type 0} where
  -- The number of the job's version: its text's, or else the word's.
  abbrev pub version_of : JobTemplate F → ℕ
  version_of job = Option.get_or (parse_u32_be_hex job.version) job.version_u32

  read-IsCombined :
      (mask : ℕ) (job : JobTemplate F) (text : Text) (read : Option ℕ)
      → parse_u32_be_hex text ≡ read
      → (combine_version mask job (some text)).1 ≡ false
      → IsCombined mask (version_of job) (some text) (combine_version mask job (some text)).0
  unfolding combine_version
  read-IsCombined mask job text none h e = rw (h, combine_version) (IsCombined.unreadable text h)
  read-IsCombined mask job text (some submitted) h e =
      let (inside, outside) = masked 32 submitted (version_of job) mask in
      rw (h, combine_version)
        (IsCombined.combined text submitted _ h inside outside (
          allowed (bit_and submitted (complement32 mask))
            (bit_and (version_of job) (complement32 mask)) (rw (h, combine_version) at e)))

  -- A version that does not leave the mask is combined.
  pub combine_version-IsCombined :
      (mask : ℕ) (job : JobTemplate F) (submitted : Option Text)
      → (combine_version mask job submitted).1 ≡ false
      → IsCombined mask (version_of job) submitted (combine_version mask job submitted).0
  unfolding combine_version
  combine_version-IsCombined mask job none e = IsCombined.absent
  combine_version-IsCombined mask job (some text) e =
      read-IsCombined mask job text (parse_u32_be_hex text) refl e
