-- ===== src/CallbackHandlers.antt =====
-- communication/callback_handlers.hpp and .cpp: `CallbackHandlers::readCallback`, which walks over
-- the messages of a buffer. The parts of it stand in the children: the state, `handle`, and the
-- choice of the block that completes a message.
pub mod State
pub mod Handle
pub mod Triggers
pub mod Kept
pub mod Progress
pub mod Ends
pub mod CutOff
pub mod Completion
pub mod Once
pub mod Tests
use rosaic.Prelude.{
  ℕ, zero, suc, ◌+◌, ◌<◌, Bool, true, false, if◌then◌else◌, ltb, ◌==◌, Option, none, some, List,
  take, drop,
}
use rosaic.RxMessage.{
  RxMessage, Descriptors, construct, search, found as has_header, is_sbf, is_response,
  is_connection_descriptor, get_block_length, message_id,
}
use rosaic.Read.State.{Node, Env}
use rosaic.CallbackHandlers.State.{Settings, Handlers, Result, ok, failed, fault}
use rosaic.CallbackHandlers.Handle.{handle}
use rosaic.CallbackHandlers.Triggers.{choose_triggers}

-- How `readCallback` ends: at the end of the buffer, by a throw of the position of a message, with a
-- jump that was never set, or aborted: in a read past the end of the memory or by an exception that
-- nobody catches. `running` is an iteration that was completed.
pub data Walk : Type 0 where
  running : Handlers → Walk
  finished : Handlers → Walk
  threw : ℕ → Handlers → Walk
  undefined aborted : Walk

-- The response that `g_response_condition` waits for.
abbrev pub got_response : Handlers → Handlers
got_response h = record h { response_received = true }

-- The connection descriptor: the port is named by its first four bytes.
unfoldable pub got_descriptor : Handlers → Handlers
got_descriptor h =
    let d = h.node.descriptors in
    let n = if ltb d.cd_count 3 then d.cd_count + 1 else d.cd_count in
    record h {
      node = record h.node { descriptors = record d { cd_count = n } };
      rx_tcp_port = take 4 (drop h.node.rx.pos h.node.rx.bytes);
      cd_received = if n == 2 then true else h.cd_received;
    }

module _ (env : Env) (settings : Settings) where
  -- The call of `handle` at the end of the body, and its `catch`.
  pub handle_message : Handlers → Walk
  handle_message h = elim (handle env settings h) [
    | ok h' ↦ running h'
    | failed h' ↦ threw h'.node.rx.pos h'
    | fault ↦ aborted
  ]

  -- The body of the loop at a message that was found.
  pub body : Handlers → Walk
  unfolding handle_message
  body h =
      let rx = h.node.rx in
      if is_sbf rx
      then (if ltb rx.count (get_block_length rx)
          then threw rx.pos h
          else handle_message (choose_triggers settings (message_id rx) h))
      else if is_response rx
      then running (got_response h)
      else if is_connection_descriptor rx
      then running (got_descriptor h)
      else handle_message h

  -- The condition of the loop, then its body. `found` is asked behind `search`.
  pub iterate : Handlers → Walk
  iterate h = elim (search h.node.rx h.node.descriptors) [
    | none ↦ undefined
    | some (rx, descriptors) ↦
        (let h' = record h { node = record h.node { rx = rx; descriptors = descriptors } } in
          if rx.count == 0
          then finished h'
          else if (has_header rx descriptors).0
          then body h'
          else finished h')
  ]

  -- The loop. The state at which the fuel runs out is `running`.
  pub walk : ℕ → Handlers → Walk
  walk zero h = running h
  walk (suc fuel) h = elim (iterate h) [
    | running h' ↦ walk fuel h'
    | finished h' ↦ finished h'
    | threw at h' ↦ threw at h'
    | undefined ↦ undefined
    | aborted ↦ aborted
  ]

  -- `readCallback(data, size)` on the globals and handlers of a state, with `size + 2` rounds: one
  -- for each byte, one for the new message, and one that ends the walk.
  pub read_callback : List ℕ → ℕ → Handlers → Walk
  unfolding walk
  read_callback buffer size h =
      walk (size + 2) (record h { node = record h.node { rx = construct buffer size } })
