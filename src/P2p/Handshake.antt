-- ===== src/P2p/Handshake.antt =====
-- The loop of `run_session` in src/p2p.rs: one message at a time, with the flags that the loop
-- keeps. What it does is a list of actions, in order; the current job of the engine is an argument of a
-- step. A write that fails ends the session, and is no step.
pub mod Order
use stratum_bee.Base.{
  ◌==◌, if◌then◌else◌, length, is_empty, Bytes, Text, codes, text_eq, ok, err, ℕ, ◌+◌, ◌-◌, ◌^◌,
  min, Bool, true, false, not, ◌&&◌, ◌||◌, Option, none, some, List, [], ◌∷◌, ◌++◌,
}
use stratum_bee.Crates.{Crates}
use stratum_bee.Job.{JobTemplate}
use stratum_bee.P2p.Frame.{MessageFrame}
use stratum_bee.P2p.Announce.{
  BlockAnnouncement, parse_inv_block_hashes, build_getheaders_payload, build_sendcmpct_payload,
  parse_headers_announcements, parse_cmpctblock_announcement,
}

pub record Flags : Type 0 where
  pub sent_verack : Bool
  pub received_verack : Bool
  pub sent_fast_handshake : Bool

pub data Action : Type 0 where
  -- `send_message`
  send : (command : Text) (payload : Bytes) → Action
  -- `handle_fast_block_announcement`, with the height
  announce : (announcement : BlockAnnouncement) (block_height : ℕ) → Action

abbrev pub no_flags : Flags
no_flags = record { sent_verack = false; received_verack = false; sent_fast_handshake = false }

-- `finish_fast_handshake`
unfoldable pub finish_fast_handshake : List Action
finish_fast_handshake =
    Action.send (codes "sendheaders") []
    ∷ Action.send (codes "sendcmpct") (build_sendcmpct_payload 2)
    ∷ Action.send (codes "sendcmpct") (build_sendcmpct_payload 1)
    ∷ []

-- The handshake once both sides have acknowledged, and nothing where it was sent.
unfoldable pub complete : Flags → Flags × List Action
complete flags =
    if flags.sent_verack && (flags.received_verack && not flags.sent_fast_handshake)
    then (record flags { sent_fast_handshake = true }, finish_fast_handshake)
    else (flags, [])

unfoldable pub on_version : Flags → Flags × List Action
on_version flags =
    let done = complete (record flags { sent_verack = true }) in
    (done.0, (if flags.sent_verack then [] else Action.send (codes "verack") [] ∷ []) ++ done.1)

unfoldable pub on_verack : Flags → Flags × List Action
on_verack flags = complete (record flags { received_verack = true })

unfoldable pub on_ping : Bytes → List Action
on_ping payload = if length payload == 8 then Action.send (codes "pong") payload ∷ [] else []

-- `announcements.iter().enumerate()`, with the height saturating at 64 bits.
unfoldable pub announce_from : ℕ → List BlockAnnouncement → List Action
announce_from height [] = []
announce_from height (announcement ∷ announcements) =
    Action.announce announcement (min height (2 ^ 64 - 1))
    ∷ announce_from (height + 1) announcements

module _ {F : Type 0} where
  -- `current_tip_locator_from_job`
  unfoldable pub current_tip_locator_from_job : JobTemplate F → Option Bytes
  current_tip_locator_from_job current =
      if not current.ready || (current.height == 0) then none else some current.prevhash_le_bytes

  unfoldable pub on_inv : JobTemplate F → Bytes → List Action
  on_inv current payload = elim (parse_inv_block_hashes payload) [
    | err e ↦ []
    | ok block_hashes ↦
        if is_empty block_hashes then [] else elim (current_tip_locator_from_job current) [
          | none ↦ []
          | some locator ↦ Action.send (codes "getheaders") (build_getheaders_payload locator) ∷ []
        ]
  ]

module _ {F : Type 0} (c : Crates) where
  unfoldable pub on_headers : JobTemplate F → Bytes → List Action
  on_headers current payload = elim (parse_headers_announcements c payload) [
    | err e ↦ []
    | ok announcements ↦
        if is_empty announcements || (current.height == 0)
        then []
        else announce_from current.height announcements
  ]

  unfoldable pub on_cmpctblock : JobTemplate F → Bytes → List Action
  on_cmpctblock current payload = elim (parse_cmpctblock_announcement c payload) [
    | err e ↦ []
    | ok block ↦ if current.height == 0 then [] else Action.announce block current.height ∷ []
  ]

  -- The messages that wait for the handshake.
  unfoldable pub on_block_message : JobTemplate F → MessageFrame → List Action
  on_block_message current message =
      if text_eq message.command (codes "inv")
      then on_inv current message.payload
      else if text_eq message.command (codes "headers")
      then on_headers current message.payload
      else if text_eq message.command (codes "cmpctblock")
      then on_cmpctblock current message.payload
      else []

  unfoldable pub on_message : Flags → JobTemplate F → MessageFrame → Flags × List Action
  on_message flags current message =
      if text_eq message.command (codes "version")
      then on_version flags
      else if text_eq message.command (codes "verack")
      then on_verack flags
      else if text_eq message.command (codes "ping")
      then (flags, on_ping message.payload)
      else if flags.sent_fast_handshake
      then (flags, on_block_message current message)
      else (flags, [])

  -- The messages of a session, each with the engine's current job when it comes.
  unfoldable pub run_session : Flags → List (JobTemplate F × MessageFrame) → Flags × List Action
  run_session flags [] = (flags, [])
  run_session flags ((current, message) ∷ messages) =
      let (flags', actions) = on_message flags current message in
      let (last, rest) = run_session flags' messages in (last, actions ++ rest)
