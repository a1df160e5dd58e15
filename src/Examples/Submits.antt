-- ===== src/Examples/Submits.antt =====
-- Submissions and lines at concrete values.
use stratum_bee.Base.{
  replicate, Bytes, Text, codes, text_eq, ℕ, refl, inl, true, Option, none, some, List, [], ◌∷◌,
  arith,
}
use stratum_bee.Config.{Config}
use stratum_bee.Job.{JobTemplate, empty_template}
use stratum_bee.Session.State.{
  SessionState, begin_authorized_session, find_last, find_job, target_or_max, new_session,
  session_job,
}
use stratum_bee.Session.Lines.{read_limited_line}
use stratum_bee.Session.Lines.Split.{
  first_line, behind_line, join_chunks, IsRead, read_limited_line-IsRead,
}
use stratum_bee.Session.Submit.Request.{
  char_count, pad_zeros, even_digits, pad_below, param_text, read_submit,
}
use stratum_bee.Session.Submit.Effects.{
  SubmitTimes, BlockSubmission, Effect, block_effects, answer_of,
}
use stratum_bee.Session.Submit.{
  lookup_job, submit_worker, combine_version, settle, validated, validate_submit, submit_screened,
  submit_key, submit_found, submit_looked_up, submit_read, handle_submit,
}
use stratum_bee.Session.Submit.Answers.{IsAnswered, handle_submit-IsAnswered}
use stratum_bee.Session.Submit.Blocks.{Starts, IsFound, handle_submit-IsFound}
use stratum_bee.Session.Notify.{notify_action}
use stratum_bee.Session.Notify.NewBlock.{IsOnly, notify_action-IsOnly}
use stratum_bee.Metrics.Counters.{zero_counters}
use stratum_bee.Session.Sound.{IsSound}
use stratum_bee.Session.Steps.{SessionStep, SessionSteps, session_steps-IsSound}
use stratum_bee.Examples.Toys.{
  checksum, toy_sha256, toy_hex_encode, toy_hex_decode, le_digits, toy_to_bytes_be, toy_crates,
  toy_floats,
}
use stratum_bee.Examples.Shares.{toy_job, toy_config}
use stratum_bee.Examples.Sessions.{no_keys-IsWindow, toy_session, toy_session-IsSession}
use stratum_bee.Hash.{double_sha256, merkle_step}
use stratum_bee.Merkle.{next_level, merkle_branches_loop, build_merkle_branches, fold_branches}
use stratum_bee.Share.{
  leq_loop, leq_le256, build_header, build_coinbase_with_witness, decode_transactions,
  build_block_hex, share_target_le, whole_part, fraction, hash_to_display_diff, reject,
  submitted_version, block_texts, score_share, validate_share,
}
use stratum_bee.Encoding.HexText.{
  hex_digit, is_ascii_hexdigit, read_hex_digits, from_str_radix_16, trim_0x, parse_u32_be_hex,
  hex_char, hex_digits, format_08x,
}
use stratum_bee.Encoding.Varint.{encode_varint}
use stratum_bee.Session.JobId.{
  format_session_job_id, parse_session_job_id, normalize_session_job_id,
}
use stratum_bee.Session.Dedup.{contains, check_duplicate, decoded_extranonce2, build_dup_key}

-- Two lines in three chunks, the first cut inside.
abbrev chunks : List Bytes
chunks = (1 ∷ 2 ∷ []) ∷ (3 ∷ 0x0a ∷ 4 ∷ []) ∷ (5 ∷ 0x0a ∷ []) ∷ []

read_limited_line-IsRead_example :
    IsRead 4 []
      (first_line (join_chunks chunks))
      (behind_line (join_chunks chunks))
      (read_limited_line 4 chunks)
read_limited_line-IsRead_example = read_limited_line-IsRead 4 chunks

abbrev small_config : Config ℕ
small_config = record toy_config { extranonce2_size = 4 }

-- A job whose target every hash meets.
abbrev easy_job : JobTemplate ℕ
easy_job = record toy_job { target_le = replicate 32 0xff; height = 100 }

abbrev miner : SessionState ℕ
miner = record toy_session {
  authorized = true;
  worker = codes "miner";
  jobs =
      session_job toy_crates toy_floats (record toy_session { version_mask = 0x1fffe000 }) easy_job
        16 (0 ∷ 0 ∷ 0 ∷ 1 ∷ []) none (codes "00000001")
      ∷ [];
}

abbrev times : SubmitTimes ℕ
times = record {
  lookup_now = 2_000_000;
  share_now_secs = 2000;
  now = 2_000_000;
  sent_now = 2_000_000;
  submit_rtt_ms = 1;
}

abbrev params : List (Option Text)
params =
    some (codes "miner")
    ∷ some (codes "00000001")
    ∷ some (codes "00000001")
    ∷ some (codes "00000400")
    ∷ some (codes "0000002a")
    ∷ some (codes "20002000")
    ∷ []

handle_submit-IsAnswered_example :
    IsAnswered (handle_submit toy_crates toy_floats small_config miner times params).1
handle_submit-IsAnswered_example =
    handle_submit-IsAnswered toy_crates toy_floats small_config miner times params

-- The submission that the effects start.
abbrev started : List (Effect ℕ) → BlockSubmission ℕ → BlockSubmission ℕ
started [] d = d
started (Effect.submission_started submission ∷ effects) d = submission
started (effect ∷ effects) d = started effects d

abbrev no_block : BlockSubmission ℕ
no_block = record {
  height = 0;
  hash = [];
  worker = [];
  difficulty = 0;
  block_hex = [];
  coinbase_hex = [];
  template_key = [];
  txid_root = [];
  witness = [];
}

abbrev effects : List (Effect ℕ)
effects = (handle_submit toy_crates toy_floats small_config miner times params).1

Starts-block : Starts (started effects no_block) effects
unfolding handle_submit submit_read read_submit normalize_session_job_id parse_session_job_id
    param_text is_ascii_hexdigit from_str_radix_16 read_hex_digits hex_digit trim_0x pad_below
    even_digits submit_looked_up lookup_job find_job format_session_job_id format_08x hex_digits
    hex_char find_last session_job new_session empty_template text_eq submit_found combine_version
    check_duplicate contains submit_screened validate_submit validated settle block_effects
    submit_worker target_or_max validate_share parse_u32_be_hex score_share block_texts leq_le256
    leq_loop double_sha256 toy_sha256 checksum toy_hex_decode toy_hex_encode build_header
    submitted_version fold_branches build_merkle_branches merkle_branches_loop next_level
    merkle_step build_block_hex build_coinbase_with_witness decode_transactions encode_varint
    fraction hash_to_display_diff reject whole_part share_target_le toy_to_bytes_be le_digits
    build_dup_key submit_key decoded_extranonce2 char_count pad_zeros answer_of
Starts-block = inl refl

handle_submit-IsFound_example :
    IsFound toy_crates toy_floats small_config miner times params (started effects no_block)
handle_submit-IsFound_example =
    handle_submit-IsFound toy_crates toy_floats small_config miner times params
      (started effects no_block) Starts-block

abbrev some_steps :
    SessionSteps toy_crates toy_floats small_config toy_session
      (handle_submit toy_crates toy_floats small_config
        (begin_authorized_session toy_session)
        times
        params).0
some_steps = SessionSteps.later (SessionStep.session_begun toy_session) (
    SessionSteps.later
      (SessionStep.share_submitted (begin_authorized_session toy_session) times params)
      (SessionSteps.done _))

toy_session-IsSound : IsSound toy_crates toy_floats small_config toy_session
unfolding new_session
toy_session-IsSound = record { session = toy_session-IsSession; window = no_keys-IsWindow }

session_steps-IsSound_example :
    IsSound toy_crates toy_floats small_config
      (handle_submit toy_crates toy_floats small_config
        (begin_authorized_session toy_session)
        times
        params).0
session_steps-IsSound_example =
    session_steps-IsSound toy_crates toy_floats small_config some_steps toy_session-IsSound

-- A session with its first job sent, and a job on another block.
abbrev settled : SessionState ℕ
settled = record toy_session {
  authorized = true;
  bootstrap_complete = true;
  last_prevhash = some (codes "00");
}

abbrev next_job : JobTemplate ℕ
next_job = record easy_job { prevhash_le = codes "01" }

notify_action-IsOnly_example :
    IsOnly toy_crates toy_floats next_job
      (notify_action toy_crates toy_floats settled zero_counters next_job 5)
notify_action-IsOnly_example =
    notify_action-IsOnly toy_crates toy_floats settled zero_counters next_job 5 refl refl
      (unfold new_session in refl) (λ e. absurd (ground (arith, e)))
