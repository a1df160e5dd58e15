-- ===== src/Session/Subscribe.antt =====
-- `mining.subscribe` in `handle_client` of src/stratum.rs, and `normalize_user_agent`. The answer is
-- given by what it says: the session's first extranonce and the size of the second.
use stratum_bee.Base.{
  ltb, leb, if◌then◌else◌, is_empty, Text, ℕ, zero, suc, ◌≤◌, ◌≡◌, subst, Bool, true, false, ◌&&◌,
  Option, none, some, [], ◌∷◌, arith,
}
use stratum_bee.Config.{Config}
use stratum_bee.Config.Load.{trim}
use stratum_bee.Session.State.{SessionState}
use stratum_bee.Session.Submit.Request.{char_count}

-- `text.chars().take(count)`: a byte that continues a character goes with it.
unfoldable pub take_chars : ℕ → Text → Text
take_chars count [] = []
take_chars zero (b ∷ text) =
    let rest = take_chars zero text in if leb 128 b && ltb b 192 then b ∷ rest else []
take_chars (suc count) (b ∷ text) =
    let same = take_chars (suc count) text in
    let next = take_chars count text in if leb 128 b && ltb b 192 then b ∷ same else b ∷ next

unfoldable pub normalize_user_agent : Text → Option Text
normalize_user_agent value =
    let trimmed = trim value in if is_empty trimmed then none else some (take_chars 96 trimmed)

unfoldable pub user_agent_of : Option Text → Option Text
user_agent_of none = none
user_agent_of (some value) = normalize_user_agent value

pub record Subscribed : Type 0 where
  pub extranonce1 : Text
  pub extranonce2_size : ℕ

take_chars-short : (count : ℕ) (text : Text) → char_count (take_chars count text) ≤ count
unfolding take_chars char_count
take_chars-short count [] = omega arith
take_chars-short zero (b ∷ text) = let rest = take_chars-short zero text in ground arith
take_chars-short (suc count) (b ∷ text) =
    let same = take_chars-short (suc count) text in
    let next = take_chars-short count text in ground arith

kept-short :
    (blank : Bool) (text user_agent : Text)
    → (if blank then none else some (take_chars 96 text)) ≡ some user_agent
    → char_count user_agent ≤ 96
kept-short true text user_agent e = cc
kept-short false text user_agent e =
    let same : take_chars 96 text ≡ user_agent = cc in
    subst (λ agent. char_count agent ≤ 96) same (take_chars-short 96 text)

normalized-short :
    (named : Option Text) (user_agent : Text)
    → user_agent_of named ≡ some user_agent
    → char_count user_agent ≤ 96
unfolding user_agent_of normalize_user_agent
normalized-short none user_agent e = cc
normalized-short (some value) user_agent e =
    kept-short (is_empty (trim value)) (trim value) user_agent e

module _ {F : Type 0} where
  -- The agent that is named, if it is not blank.
  unfoldable pub named_agent : SessionState F → Option Text → SessionState F
  named_agent s none = s
  named_agent s (some user_agent) = record s { user_agent = some user_agent }

  unfoldable pub handle_subscribe :
      SessionState F → Config F → Text → Option Text → SessionState F × Subscribed
  handle_subscribe s config extranonce1_hex named = (
    named_agent s (user_agent_of named),
    record { extranonce1 = extranonce1_hex; extranonce2_size = config.extranonce2_size },
  )

  -- The agent of a session has 96 characters at most.
  pub IsShortAgent : SessionState F → Type 0
  IsShortAgent s = (user_agent : Text) → s.user_agent ≡ some user_agent → char_count user_agent ≤ 96

  named_agent-IsShortAgent :
      (s : SessionState F) (named : Option Text)
      → IsShortAgent s
      → ((user_agent : Text) → named ≡ some user_agent → char_count user_agent ≤ 96)
      → IsShortAgent (named_agent s named)
  unfolding named_agent IsShortAgent
  named_agent-IsShortAgent s none short named_short = short
  named_agent-IsShortAgent s (some agent) short named_short = named_short

  -- A subscription keeps the agent short, whatever it names.
  pub handle_subscribe-IsShortAgent :
      (s : SessionState F) (config : Config F) (extranonce1_hex : Text) (named : Option Text)
      → IsShortAgent s
      → IsShortAgent (handle_subscribe s config extranonce1_hex named).0
  unfolding handle_subscribe
  handle_subscribe-IsShortAgent s config extranonce1_hex named short =
      named_agent-IsShortAgent s (user_agent_of named) short (normalized-short named)
