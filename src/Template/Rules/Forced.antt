-- ===== src/Template/Rules/Forced.antt =====
-- Theorems on the forced rules of a template in src/template.rs.
use stratum_bee.Base.{any, Text, text_eq, ◌≡◌, Bool, true, some, List}
use stratum_bee.Crates.{Network}
use stratum_bee.Template.Rules.{supported_gbt_rules, forced_rule}

abbrev pub mem_text : Text → List Text → Bool
mem_text text texts = any (λ t. text_eq text t) texts

-- A rule that is forced is one of those that a request for the network declares.
abbrev pub IsDeclared : Network → Text → Type 0
IsDeclared network rule =
    (forced : Text)
    → forced_rule rule ≡ some forced
    → mem_text forced (supported_gbt_rules network) ≡ true
