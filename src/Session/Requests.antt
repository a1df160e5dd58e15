-- ===== src/Session/Requests.antt =====
-- Requests of a miner in src/stratum.rs but for `mining.submit`: `mining.authorize` with its password,
-- `mining.suggest_difficulty` and `mining.configure`. A string parameter is none where the
-- value is missing or no string.
use mathlib.Core.Option
use stratum_bee.Base.{
  if◌then◌else◌, take, Text, codes, text_eq, ℕ, bit_and, Bool, true, false, ◌&&◌, ◌||◌, Option,
  none, some, List, [], ◌∷◌, ◌++◌,
}
use stratum_bee.Config.{Config}
use stratum_bee.Crates.{Crates}
use stratum_bee.Float.{FloatOps, float_clamp}
use stratum_bee.Job.{JobTemplate}
use stratum_bee.Encoding.HexText.{parse_u32_be_hex, format_08x}
use stratum_bee.Session.State.{
  SessionJob, SessionState, complement32, note_notify_sent, set_difficulty, session_job, push_job,
}
use stratum_bee.Session.Messages.{ConfigValue, Outbound, build_notify_dispatch}

-- `jobs.back()`
unfoldable pub last_job {ℓ} : {A : Type ℓ} → List A → Option A
last_job [] = none
last_job (job ∷ []) = some job
last_job (job ∷ next ∷ jobs) = last_job (next ∷ jobs)

abbrev pub allowed_mask : ℕ
allowed_mask = 0x1fffe000

unfoldable pub parsed_mask : Option Text → ℕ
parsed_mask requested =
    Option.get_or (parse_u32_be_hex (Option.get_or requested (codes "1fffe000"))) allowed_mask

unfoldable pub has_extension : List Text → Bool
has_extension [] = false
has_extension (extension ∷ extensions) =
    text_eq extension (codes "version-rolling") || has_extension extensions

-- The entries of the result in the order in which they are inserted.
unfoldable pub configure_result : ℕ → List Text → List (Text × ConfigValue)
configure_result configured_mask [] = []
configure_result configured_mask (extension ∷ extensions) =
    (if text_eq extension (codes "version-rolling")
      then (extension, ConfigValue.flag true)
        ∷ (codes "version-rolling.mask", ConfigValue.mask (format_08x configured_mask))
        ∷ []
      else (extension, ConfigValue.flag false) ∷ [])
    ++ configure_result configured_mask extensions

-- `format!("{base} #{short_id}")`, for an identifier of ASCII letters.
unfoldable pub build_miner_label : Option Text → Text → Text
build_miner_label user_agent session_id =
    Option.get_or user_agent (codes "Unknown") ++ (codes " #" ++ take 8 session_id)

module _ {F : Type 0} where
  unfoldable pub handle_authorize : Config F → Option Text → Bool
  handle_authorize config password = elim config.auth_token [
    | none ↦ true
    | some token ↦ text_eq (Option.get_or password []) token
  ]

  unfoldable pub configured_mask_of : JobTemplate F → Option Text → ℕ
  configured_mask_of current requested =
      bit_and (bit_and (parsed_mask requested) allowed_mask)
        (complement32 (if current.ready then current.vbrequired else 0))

  -- The extensions that are strings, the requested mask and the engine's current job.
  unfoldable pub handle_configure :
      SessionState F → JobTemplate F → List Text → Option Text → SessionState F × List (Outbound F)
  handle_configure s current extensions requested =
      let configured_mask = configured_mask_of current requested in
      let version_rolling_requested = has_extension extensions in
      (
        record s {
          version_rolling_enabled = version_rolling_requested;
          version_mask = if version_rolling_requested then configured_mask else s.version_mask;
        },
        Outbound.configured (configure_result configured_mask extensions) ∷ [],
      )

module _ {F : Type 0} (c : Crates) (f : FloatOps F) where
  unfoldable pub suggested_initial_difficulty : Option F → F → F → F → F
  suggested_initial_difficulty suggested start_difficulty min_difficulty max_difficulty =
      float_clamp f
        (elim suggested [
          | none ↦ start_difficulty
          | some value ↦
              if f.is_finite value && f.lt start_difficulty value then value else start_difficulty
        ])
        min_difficulty max_difficulty

  -- The job again at a new difficulty, with its messages; the notification is noted when it is sent.
  unfoldable pub push_again :
      SessionState F → F → ℕ → Option (SessionJob F) → SessionState F × List (Outbound F)
  push_again s diff now none = (s, [])
  push_again s diff now (some entry) =
      let (s', session_job) = push_job c f s entry.job diff s.extranonce1_bytes none in
      (
        note_notify_sent s'
            (record {
              prevhash = entry.job.prevhash_le;
              clean_jobs = false;
              complete_bootstrap = false;
            })
            now,
        build_notify_dispatch session_job false,
      )

  unfoldable pub push_latest : SessionState F → F → ℕ → SessionState F × List (Outbound F)
  push_latest s diff now = push_again s diff now (last_job s.jobs)

  unfoldable pub handle_suggest_difficulty :
      SessionState F → Config F → Option F → ℕ → SessionState F × List (Outbound F)
  handle_suggest_difficulty s config suggested now =
      let target =
        suggested_initial_difficulty suggested config.start_difficulty config.min_difficulty
          config.max_difficulty in
      if f.lt f.epsilon (f.abs (f.sub target s.difficulty))
      then (let s' = set_difficulty c f s target in
          let (s'', messages) =
            if s'.bootstrap_complete then push_latest s' target now else (s', []) in
          (s'', Outbound.difficulty_set target ∷ (messages ++ (Outbound.replied true ∷ []))))
      else (s, Outbound.difficulty_set s.difficulty ∷ Outbound.replied true ∷ [])
