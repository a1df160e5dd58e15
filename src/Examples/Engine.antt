-- ===== src/Examples/Engine.antt =====
-- The template engine at concrete values.
use mathlib.Core.Option
use stratum_bee.Base.{
  ltb, if◌then◌else◌, replicate, Bytes, Text, codes, Result, ok, err, bail, is_ok, ℕ, ◌+◌, ◌≤◌, ◌≡◌,
  refl, inl, true, false, Option, none, some, List, [], ◌∷◌, ◌++◌, arith,
}
use stratum_bee.Job.{TemplateSource, JobTemplate}
use stratum_bee.Share.{
  ShareSubmit, ShareResult, leq_loop, leq_le256, build_header, build_coinbase_with_witness,
  decode_transactions, build_block_hex, whole_part, fraction, hash_to_display_diff, reject,
  submitted_version, block_texts, score_share, validate_share,
}
use stratum_bee.Share.Validate.{Scored, Parsed}
use stratum_bee.Metrics.Counters.{inc_submitblock_rpc_fail}
use stratum_bee.Template.Engine.{GbtResponse, TemplateEngine, new_engine}
use stratum_bee.Template.Engine.Job.{
  coinbase_flags_of, swap_loop, pad_target, swap_words, to_little_endian, witness_commitment_of,
  tx_hashes_of, prevhash_forms, build_job,
}
use stratum_bee.Template.Engine.Job.Shares.{IsTxids, IsVersion, validate_share-build_job}
use stratum_bee.Template.Engine.Refresh.{RefreshRound, apply_gbt_response, refresh_template}
use stratum_bee.Template.Engine.Refresh.Retry.{IsHeld, behind_held, refresh_template-retries}
use stratum_bee.Template.Engine.Submit.{submit_answered, submit_block}
use stratum_bee.Template.Engine.Submit.Outcome.{submit_block-answered, submit_block-failed}
use stratum_bee.Template.Engine.Heights.{
  IsOnTip, EngineStep, EngineSteps, engine_steps-height, engine_steps-IsOnTip,
}
use stratum_bee.Examples.Toys.{
  checksum, toy_sha256, toy_hex_encode, toy_hex_decode, toy_crates, toy_laws, toy_floats,
}
use stratum_bee.Examples.Shares.{toy_job, toy_submit, toy_prefix, toy_target, result-eq, toy_config}
use stratum_bee.Hash.{double_sha256, merkle_step}
use stratum_bee.Merkle.{next_level, merkle_branches_loop, build_merkle_branches, fold_branches}
use stratum_bee.Encoding.HexText.{
  hex_digit, read_hex_digits, from_str_radix_16, trim_0x, parse_u32_be_hex, hex_char,
}
use stratum_bee.Encoding.Varint.{encode_varint, varint_len}
use stratum_bee.Template.Script.{
  abs_bytes, sign_last, encode_script_num, encode_coinbase_height, encode_script_pushdata,
}
use stratum_bee.Template.Coinbase.{
  coinbase_tag, push_unless_empty, commitment_output, coinbase_head, coinbase_tail, payout_script,
  coinbase_script_sig, decode_commitment, assemble_coinbase, build_coinbase_parts,
}

abbrev toy_gbt : GbtResponse
toy_gbt = record {
  rules = codes "csv" ∷ codes "!segwit" ∷ [];
  longpollid = none;
  submitold = none;
  vbrequired = 0;
  version = 0x20000000;
  previousblockhash = toy_hex_encode (replicate 32 1);
  transactions =
      record { txid = some (toy_hex_encode (replicate 32 2)); hash = none; tx_data = codes "01" }
      ∷ record {
        txid = some (toy_hex_encode (4 ∷ replicate 31 5));
        hash = none;
        tx_data = codes "02";
      }
      ∷ [];
  coinbasevalue = 5_000_000_000;
  bits = codes "207fffff";
  curtime = 1000;
  mintime = some 1000;
  height = 100;
  target = toy_hex_encode (replicate 32 0x0f);
  coinbaseaux = none;
  default_witness_commitment = none;
}

abbrev toy_engine : TemplateEngine ℕ
toy_engine = new_engine toy_floats 0

abbrev next_gbt : GbtResponse
next_gbt = record toy_gbt { height = 101; previousblockhash = toy_hex_encode (replicate 32 3) }

abbrev first : TemplateEngine ℕ
first =
    (apply_gbt_response toy_crates toy_floats toy_config toy_engine 5000 toy_gbt
      TemplateSource.startup).0

abbrev second : TemplateEngine ℕ
second =
    (apply_gbt_response toy_crates toy_floats toy_config first 6000 next_gbt
      TemplateSource.longpoll).0

abbrev two_steps : EngineSteps toy_crates toy_floats toy_config toy_engine second
two_steps =
    EngineSteps.later (EngineStep.gbt_applied toy_engine 5000 toy_gbt TemplateSource.startup) (
      EngineSteps.later (EngineStep.gbt_applied first 6000 next_gbt TemplateSource.longpoll)
        (EngineSteps.done second))

no_tip : IsOnTip toy_crates toy_floats toy_config toy_engine
unfolding new_engine
no_tip tip e = cc

engine_steps-IsOnTip_example : IsOnTip toy_crates toy_floats toy_config second
engine_steps-IsOnTip_example =
    engine_steps-IsOnTip toy_crates toy_floats toy_config toy_laws two_steps no_tip

abbrev ready_engine : TemplateEngine ℕ
ready_engine = record (new_engine toy_floats 0) { current = toy_job }

abbrev one_step :
    EngineSteps toy_crates toy_floats toy_config ready_engine
      (apply_gbt_response toy_crates toy_floats toy_config ready_engine 5000 toy_gbt
        TemplateSource.startup).0
one_step =
    EngineSteps.later (EngineStep.gbt_applied ready_engine 5000 toy_gbt TemplateSource.startup)
      (EngineSteps.done _)

engine_steps-height_example :
    let s' =
      (apply_gbt_response toy_crates toy_floats toy_config ready_engine 5000 toy_gbt
        TemplateSource.startup).0 in
    (s'.current.ready ≡ true) × (ready_engine.current.height ≤ s'.current.height)
engine_steps-height_example = engine_steps-height toy_crates toy_floats toy_config one_step refl

-- The node refuses two calls and then takes the block.
abbrev third_time : ℕ → Result (Option Text)
third_time n = if ltb n 2 then bail "connection refused" else ok none

submit_block-answered_example :
    ((submit_block toy_engine third_time).0 ≡ (submit_answered toy_engine none).0)
    × ((submit_block toy_engine third_time).2 ≡ ok (submit_answered toy_engine none).1)
submit_block-answered_example =
    submit_block-answered toy_engine third_time 2 none (omega arith)
      (λ i h. (codes "connection refused", ground arith)) refl

abbrev never : ℕ → Result (Option Text)
never n = bail "connection refused"

submit_block-failed_example :
    ((submit_block toy_engine never).0
      ≡ record toy_engine { counters = inc_submitblock_rpc_fail toy_engine.counters })
    × ((submit_block toy_engine never).2
        ≡ bail "submitblock RPC failed after all retries; BLOCK MAY BE LOST")
submit_block-failed_example =
    submit_block-failed toy_engine never (λ i h. (codes "connection refused", refl))

-- Another task has the permit, and publishes a job; then the permit is free.
abbrev held_round : RefreshRound ℕ
held_round = record {
  answer = ok toy_gbt;
  now = 5000;
  awaited = λ s. record s { refresh_free = false; current = toy_job };
  applied = λ s. record s { job_counter = s.job_counter + 1 };
  noted = λ s. s;
}

abbrev free_round : RefreshRound ℕ
free_round = record {
  answer = ok next_gbt;
  now = 5100;
  awaited = λ s. record s { refresh_free = true };
  applied = λ s. s;
  noted = λ s. s;
}

held_round-IsHeld : IsHeld held_round
held_round-IsHeld = record {
  gbt = toy_gbt;
  replied = refl;
  taken = λ s. refl;
  applied_keeps = λ s. refl;
  noted_keeps = λ s. refl;
}

refresh_template-retries_example :
    refresh_template toy_crates toy_floats toy_config toy_engine TemplateSource.zmq_hashblock
      (held_round ∷ held_round ∷ free_round ∷ [])
    ≡ refresh_template toy_crates toy_floats toy_config
        (behind_held toy_engine TemplateSource.zmq_hashblock (held_round ∷ held_round ∷ []))
        TemplateSource.zmq_hashblock
        (free_round ∷ [])
refresh_template-retries_example =
    refresh_template-retries toy_crates toy_floats toy_config toy_engine
      TemplateSource.zmq_hashblock (held_round ∷ held_round ∷ []) (free_round ∷ [])
      (held_round-IsHeld, (held_round-IsHeld, tt))

abbrev toy_made : Result (JobTemplate ℕ)
toy_made =
    build_job toy_crates toy_floats toy_config 1 5000 toy_gbt (codes "key") TemplateSource.startup
      []

abbrev made_job : JobTemplate ℕ
made_job = elim toy_made [ ok job ↦ job | err e ↦ toy_job ]

job-eq :
    (o : Result (JobTemplate ℕ)) (d : JobTemplate ℕ)
    → is_ok o ≡ true
    → o ≡ ok (elim o [ ok r ↦ r | err e ↦ d ])
job-eq (ok r) d h = refl
job-eq (err e) d h = cc

made : toy_made ≡ ok made_job
unfolding build_job witness_commitment_of build_coinbase_parts payout_script coinbase_script_sig
    coinbase_flags_of encode_coinbase_height push_unless_empty coinbase_tag encode_script_pushdata
    encode_script_num sign_last abs_bytes decode_commitment tx_hashes_of toy_hex_decode
    toy_hex_encode prevhash_forms swap_words swap_loop to_little_endian assemble_coinbase
    coinbase_head coinbase_tail commitment_output encode_varint varint_len from_str_radix_16
    read_hex_digits hex_digit hex_char
made = job-eq toy_made toy_job refl

abbrev versioned_submit : ShareSubmit
versioned_submit = record toy_submit { version = some (codes "20000004") }

abbrev made_outcome : Result (ShareResult ℕ)
made_outcome =
    validate_share toy_crates toy_floats 2000 made_job toy_prefix versioned_submit toy_target none

abbrev made_result : ShareResult ℕ
made_result = elim made_outcome [ ok r ↦ r | err e ↦ reject toy_crates toy_floats ]

made_run : made_outcome ≡ ok made_result
unfolding build_job witness_commitment_of build_coinbase_parts payout_script coinbase_script_sig
    coinbase_flags_of encode_coinbase_height push_unless_empty coinbase_tag encode_script_pushdata
    encode_script_num sign_last abs_bytes decode_commitment tx_hashes_of toy_hex_decode
    toy_hex_encode prevhash_forms swap_words swap_loop to_little_endian assemble_coinbase
    coinbase_head coinbase_tail commitment_output encode_varint varint_len from_str_radix_16
    read_hex_digits hex_digit hex_char validate_share parse_u32_be_hex trim_0x score_share
    block_texts leq_le256 leq_loop double_sha256 toy_sha256 checksum build_header submitted_version
    fold_branches build_merkle_branches merkle_branches_loop next_level merkle_step build_block_hex
    build_coinbase_with_witness decode_transactions fraction hash_to_display_diff reject whole_part
    pad_target
made_run = result-eq made_outcome (reject toy_crates toy_floats) refl

made_accepted : made_result.accepted ≡ true
unfolding build_job witness_commitment_of build_coinbase_parts payout_script coinbase_script_sig
    coinbase_flags_of encode_coinbase_height push_unless_empty coinbase_tag encode_script_pushdata
    encode_script_num sign_last abs_bytes decode_commitment tx_hashes_of toy_hex_decode
    toy_hex_encode prevhash_forms swap_words swap_loop to_little_endian assemble_coinbase
    coinbase_head coinbase_tail commitment_output encode_varint varint_len from_str_radix_16
    read_hex_digits hex_digit hex_char validate_share parse_u32_be_hex trim_0x score_share
    block_texts leq_le256 leq_loop double_sha256 toy_sha256 checksum build_header submitted_version
    fold_branches build_merkle_branches merkle_branches_loop next_level merkle_step build_block_hex
    build_coinbase_with_witness decode_transactions fraction hash_to_display_diff reject whole_part
    pad_target
made_accepted = refl

validate_share-build_job_example :
    (tx_hashes : List Bytes) × IsTxids toy_crates toy_gbt.transactions tx_hashes
    × (version : ℕ) × IsVersion versioned_submit.version toy_gbt.version version
    × (ntime : ℕ) × (nonce : ℕ) × (en2 : Bytes) × Parsed toy_crates toy_floats versioned_submit
        ntime nonce en2
    × Scored toy_crates toy_floats made_job
        (toy_prefix ++ (en2 ++ Option.get_or none made_job.coinbase2_bytes))
        tx_hashes
        version
        ntime
        nonce
        toy_target
        made_result
validate_share-build_job_example =
    validate_share-build_job toy_crates toy_floats toy_config 1 5000 toy_gbt (codes "key")
      TemplateSource.startup [] made_job 2000 toy_prefix versioned_submit toy_target none
      made_result made made_run (inl made_accepted)
