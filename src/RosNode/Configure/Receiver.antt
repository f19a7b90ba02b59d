-- ===== src/RosNode/Configure/Receiver.antt =====
-- `configureRx` and the receiver, interleaved in any order. The receiver answers each command once, but
-- for the escape sequence, and sends a connection descriptor when it is connected to over TCP and one
-- after the escape sequence. `readCallback` signals both as in CallbackHandlers.
pub mod Speaks
pub mod InTurn
pub mod Completes
use rosaic.Prelude.{
  ℕ, zero, suc, ◌+◌, ◌≡◌, Bool, true, false, if◌then◌else◌, ◌==◌, Option, none, some, List, [], ◌∷◌,
}
use rosaic.RxMessage.{RxMessage}
use rosaic.CallbackHandlers.State.{Handlers}
use rosaic.CallbackHandlers.{got_response, got_descriptor}
use rosaic.RosNode.Text.{Text}
use rosaic.RosNode.Configure.{
  Config, Command, output, other, Script, done, send, await_response, await_cd, configure_rx,
}

-- `owed` are the answers that the receiver has yet to send, `descriptors` the connection descriptors.
pub record Link : Type 0 where
  pub script : Script
  pub handlers : Handlers
  pub owed : ℕ
  pub descriptors : ℕ

-- The escape sequence starts with a carriage return.
abbrev pub is_escape : Command → Bool
is_escape (output stream port request end) = false
is_escape (other []) = false
is_escape (other (c ∷ text)) = c == b'\r'

-- `sent` and `passed` are steps of `configureRx`, `answered` and `described` are messages that come in;
-- a descriptor stands at the position of `rx`.
pub data LinkAction : Type 0 where
  sent answered passed : LinkAction
  described : RxMessage → LinkAction

abbrev pub at_message : RxMessage → Handlers → Handlers
at_message rx h = record h { node = record h.node { rx = rx } }

abbrev pub on_sent : Script → Link → Option Link
on_sent (send command later) l =
    some (record l { script = later; owed = if is_escape command then l.owed else l.owed + 1 })
on_sent done l = none
on_sent (await_response later) l = none
on_sent (await_cd later) l = none

abbrev pub on_answered : ℕ → Link → Option Link
on_answered zero l = none
on_answered (suc owed) l = some (record l { owed = owed; handlers = got_response l.handlers })

abbrev pub on_described : ℕ → Link → RxMessage → Option Link
on_described zero l rx = none
on_described (suc descriptors) l rx =
    some
      (record l { descriptors = descriptors; handlers = got_descriptor (at_message rx l.handlers) })

-- A wait ends when its flag is set, and the flag is cleared.
abbrev pub on_passed : Script → Link → Option Link
on_passed done l = none
on_passed (send command later) l = none
on_passed (await_response later) l =
    if l.handlers.response_received
    then some
        (record l { script = later; handlers = record l.handlers { response_received = false } })
    else none
on_passed (await_cd later) l =
    if l.handlers.cd_received
    then some (record l {
      script = later l.handlers.rx_tcp_port;
      handlers = record l.handlers { cd_received = false };
    })
    else none

unfoldable pub link_step : Link → LinkAction → Option Link
link_step l sent = on_sent l.script l
link_step l answered = on_answered l.owed l
link_step l passed = on_passed l.script l
link_step l (described rx) = on_described l.descriptors l rx

-- The flags and the count of descriptors as `main` sets them.
pub record IsFresh (h : Handlers) : Type 0 where
  pub no_response : h.response_received ≡ false
  pub no_cd : h.cd_received ≡ false
  pub none_counted : h.node.descriptors.cd_count ≡ 0

abbrev pub start_link : Config → Handlers → Link
start_link c h = record {
  script = configure_rx c;
  handlers = h;
  owed = 0;
  descriptors = if c.tcp then 2 else 0;
}

-- The states that are reached from the start of `configureRx`.
pub data Reach (c : Config) : Link → Type 0 where
  begin : (h : Handlers) → IsFresh h → Reach c (start_link c h)
  after : {l m : Link} → Reach c l → (a : LinkAction) → link_step l a ≡ some m → Reach c m

-- So many steps from a state to another.
pub data Run : Link → ℕ → Link → Type 0 where
  stop : {l : Link} → Run l 0 l
  go :
      {k : ℕ} {l m n : Link} (a : LinkAction) → link_step l a ≡ some m → Run m k n → Run l (suc k) n
