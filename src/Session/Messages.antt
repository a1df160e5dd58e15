-- ===== src/Session/Messages.antt =====
-- The messages to a miner of src/stratum.rs. The code writes `mining.notify` as text; the other messages are
-- JSON of a library, and are given by what they say. The trace of a notification, which is only
-- logged, is left out, and the channel to the writer is open.
use mathlib.Core.Option
use stratum_bee.Base.{if◌then◌else◌, Text, codes, ℕ, Bool, true, false, Option, List, [], ◌∷◌, ◌++◌}
use stratum_bee.Job.{JobTemplate}
use stratum_bee.Encoding.HexText.{format_08x}
use stratum_bee.Session.State.{SessionJob, session_job}

-- A value in the result of `mining.configure`.
pub data ConfigValue : Type 0 where
  flag : (value : Bool) → ConfigValue
  mask : (value : Text) → ConfigValue

pub data Outbound (F : Type 0) : Type 0 where
  -- `{"result": result, "error": null}`
  replied : (result : Bool) → Outbound F
  -- `{"result": false, "error": [code, message, null]}`
  refused : (code : ℕ) (message : Text) → Outbound F
  configured : (result : List (Text × ConfigValue)) → Outbound F
  -- `mining.set_difficulty`, `mining.set_version_mask` and `mining.notify`
  difficulty_set : (diff : F) → Outbound F
  version_mask_set : (mask : Text) → Outbound F
  notified : (text : Text) → Outbound F

abbrev pub quote : Text
quote = codes "\""

-- The branches from one on, in quotes, with a comma before each but the first.
unfoldable pub push_branches : Bool → List Text → Text
push_branches first [] = []
push_branches first (branch ∷ branches) =
    (if first then [] else codes ",")
    ++ (quote ++ (branch ++ (quote ++ push_branches false branches)))

module _ {F : Type 0} where
  unfoldable pub build_notify_with_ntime : Text → JobTemplate F → Text → Bool → Option Text → Text
  build_notify_with_ntime job_id job ntime clean_jobs custom_coinbase2 =
      let coinbase2 = Option.get_or custom_coinbase2 job.coinbase2 in
      let comma = codes "\",\"" in
      codes "{\"id\":null,\"method\":\"mining.notify\",\"params\":[\""
      ++ (job_id
          ++ (comma
              ++ (job.prevhash
                  ++ (comma
                      ++ (job.coinbase1
                          ++ (comma
                              ++ (coinbase2
                                  ++ (codes "\",["
                                      ++ (push_branches true job.merkle_branches
                                          ++ (codes "],\""
                                              ++ (job.version
                                                  ++ (comma
                                                      ++ (job.nbits
                                                          ++ (comma
                                                            ++ (ntime
                                                            ++ (quote
                                                            ++ (codes ","
                                                            ++ (if clean_jobs
                                                            then codes "true]}"
                                                            else codes "false]}"))))))))))))))))))

  -- The messages of `build_notify_dispatch`.
  unfoldable pub build_notify_dispatch : SessionJob F → Bool → List (Outbound F)
  build_notify_dispatch session_job clean_jobs =
      (if session_job.version_rolling_enabled
        then Outbound.version_mask_set (format_08x session_job.version_mask) ∷ []
        else [])
      ++ (Outbound.notified (
            build_notify_with_ntime session_job.session_job_id session_job.job
              session_job.notify_ntime clean_jobs session_job.custom_coinbase2_hex)
          ∷ [])
