-- ===== src/Template/Rules.antt =====
-- The rules of a template and the small tests of the template engine in src/template.rs. The time
-- and the atomic cells of the engine are arguments, and a changed cell is part of the result.
pub mod Forced
use stratum_bee.Base.{
  ltb, ◌==◌, if◌then◌else◌, is_empty, Text, codes, text_eq, Result, ok, ensure, ◌>>◌, ℕ, ◌-◌, ◌%◌,
  Bool, true, false, not, ◌&&◌, ◌||◌, Option, none, some, List, [], ◌∷◌,
}
use stratum_bee.Crates.{Network}
use stratum_bee.Job.{TemplateSource, JobTemplate}

abbrev pub is_signet : Network → Bool
is_signet Network.signet = true
is_signet network = false

abbrev pub is_mainnet : Network → Bool
is_mainnet Network.bitcoin = true
is_mainnet network = false

-- The rules that a request declares.
unfoldable pub supported_gbt_rules : Network → List Text
supported_gbt_rules network =
    codes "segwit" ∷ (if is_signet network then codes "signet" ∷ [] else [])

unfoldable pub is_supported_forced_rule : Text → Network → Bool
is_supported_forced_rule rule network =
    text_eq rule (codes "segwit") || (text_eq rule (codes "signet") && is_signet network)

-- `rule.strip_prefix('!')`
unfoldable pub forced_rule : Text → Option Text
forced_rule [] = none
forced_rule (c ∷ rule) = if c == b'!' then some rule else none

unfoldable pub validate_template_rules : List Text → Network → Result (Unit {0})
validate_template_rules [] network = ok tt
validate_template_rules (rule ∷ rules) network = elim (forced_rule rule) [
  | none ↦ validate_template_rules rules network
  | some forced ↦ do
    ensure (not (is_empty forced)) "getblocktemplate returned empty forced rule"
    ensure (is_supported_forced_rule forced network) "unsupported forced rule"
    validate_template_rules rules network
]

-- `network == Bitcoin && next_height % 2016 != 0`
unfoldable pub should_publish_fast_empty_job_for_network : Network → ℕ → Bool
should_publish_fast_empty_job_for_network network next_height =
    is_mainnet network && not (next_height % 2016 == 0)

unfoldable pub is_gbt_older_than_current : {F : Type 0} → ℕ → JobTemplate F → Bool
is_gbt_older_than_current gbt_height current = current.ready && ltb gbt_height current.height

-- The number in the cell `refresh_pending_source`, 0 for none.
unfoldable pub pending_slot : TemplateSource → ℕ
pending_slot TemplateSource.startup = 1
pending_slot TemplateSource.longpoll = 2
pending_slot TemplateSource.longpoll_timeout_fallback = 3
pending_slot TemplateSource.longpoll_error_fallback = 4
pending_slot TemplateSource.zmq_hashblock = 5
pending_slot TemplateSource.zmq_rawblock = 6
pending_slot TemplateSource.p2p_cmpct_fast = 7

unfoldable pub from_pending_slot : ℕ → Option TemplateSource
from_pending_slot value =
    if value == 1
    then some TemplateSource.startup
    else if value == 2
    then some TemplateSource.longpoll
    else if value == 3
    then some TemplateSource.longpoll_timeout_fallback
    else if value == 4
    then some TemplateSource.longpoll_error_fallback
    else if value == 5
    then some TemplateSource.zmq_hashblock
    else if value == 6
    then some TemplateSource.zmq_rawblock
    else if value == 7
    then some TemplateSource.p2p_cmpct_fast
    else none

-- `swap(NO_PENDING_REFRESH_SOURCE)`: the new cell and what the old one held.
unfoldable pub take_pending_refresh_source : ℕ → ℕ × Option TemplateSource
take_pending_refresh_source slot = (0, from_pending_slot slot)

-- Whether the trigger fires, and the time of the last one that did.
unfoldable pub should_fire_block_zmq_trigger : ℕ → ℕ → ℕ × Bool
should_fire_block_zmq_trigger last_trigger_ms now =
    if ltb (now - last_trigger_ms) 10 then (last_trigger_ms, false) else (now, true)
