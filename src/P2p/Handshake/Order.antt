-- ===== src/P2p/Handshake/Order.antt =====
-- Theorems on the order of a session's actions (src/p2p.rs).
use stratum_bee.Base.{
  if◌then◌else◌, Text, codes, text_eq, ℕ, suc, ◌+◌, ◌≡◌, Bool, true, false, ◌&&◌, List, [], ◌∷◌,
}
use stratum_bee.Crates.{Crates}
use stratum_bee.P2p.Handshake.{Flags, Action}

-- The handshake was sent exactly if both sides have acknowledged.
pub record IsSession (flags : Flags) : Type 0 where
  pub finished : flags.sent_fast_handshake ≡ (flags.sent_verack && flags.received_verack)

-- Whether an action sends the command.
abbrev sends : Text → Action → Bool
sends command (Action.send sent payload) = text_eq sent command
sends command (Action.announce announcement height) = false

abbrev pub count_sent : Text → List Action → ℕ
count_sent command [] = 0
count_sent command (action ∷ actions) =
    if sends command action then suc (count_sent command actions) else count_sent command actions

abbrev pub count_announced : List Action → ℕ
count_announced [] = 0
count_announced (Action.send command payload ∷ actions) = count_announced actions
count_announced (Action.announce announcement height ∷ actions) = suc (count_announced actions)

abbrev pub one_if : Bool → ℕ
one_if true = 1
one_if false = 0

-- A step keeps the flags in order, and sends `sendheaders` as often as the handshake becomes sent.
abbrev Steps : Flags → Flags × List Action → Type 0
Steps flags (flags', actions) =
    IsSession flags'
    × (count_sent (codes "sendheaders") actions + one_if flags.sent_fast_handshake
        ≡ one_if flags'.sent_fast_handshake)
