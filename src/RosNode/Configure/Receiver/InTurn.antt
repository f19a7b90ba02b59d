-- ===== src/RosNode/Configure/Receiver/InTurn.antt =====
-- One command at a time, and `configureRx` can always come to its end.
use rosaic.Prelude.{
  ℕ, zero, suc, ◌+◌, ◌≤◌, ◌≡◌, refl, arith, Bool, true, false, Bool-cases, inl, inr, ◌==◌, Option,
  none, some,
}
use rosaic.CallbackHandlers.State.{Handlers}
use rosaic.CallbackHandlers.{got_response, got_descriptor}
use mathlib.Core.Path.{subst}
use rosaic.RxMessage.{RxMessage}
use rosaic.RosNode.Text.{Text}
use rosaic.RosNode.Configure.{
  Config, Command, Script, done, send, await_response, await_cd, logged_in, opening, configure_rx,
}
use rosaic.RosNode.Configure.Receiver.{
  Link, is_escape, LinkAction, sent, answered, passed, described, at_message, on_sent, on_answered,
  on_described, on_passed, link_step, IsFresh, start_link, Reach, begin, after,
}
use rosaic.RosNode.Configure.Receiver.Speaks.{Speaks, silent, last, says, logged_in-Speaks}

abbrev pub one_if : Bool → ℕ
one_if true = 1
one_if false = 0

-- The answers to commands that are under way: those to come, and one that was signalled.
abbrev pub under_way : Link → ℕ
under_way l = l.owed + one_if l.handlers.response_received

-- The descriptors are counted, and the second one is signalled.
abbrev pub IsCounted : Link → Type 0
IsCounted l =
    (l.handlers.node.descriptors.cd_count + l.descriptors ≡ 2)
    × (l.handlers.cd_received ≡ (l.handlers.node.descriptors.cd_count == 2))

-- Where the script stands: before the escape sequence or waiting for the descriptor, then speaking or
-- waiting for an answer, or behind the last command.
pub data Phase (l : Link) : Script → ℕ → Type 0 where
  escapes :
      (command : Command) (later : Text → Script)
      → is_escape command ≡ true
      → ((port : Text) → Speaks (later port))
      → IsCounted l
      → Phase l (send command (await_cd later)) 0
  describes :
      (later : Text → Script)
      → ((port : Text) → Speaks (later port))
      → IsCounted l
      → Phase l (await_cd later) 0
  speaks : (script : Script) → Speaks script → Phase l script 0
  awaits : (later : Script) → Speaks later → Phase l (await_response later) 1
  ended : Phase l done 1

pub record Inv (l : Link) : Type 0 where
  pub count : ℕ
  pub counted : under_way l ≡ count
  pub phase : Phase l l.script count

Phase-map :
    {l m : Link} {script : Script} {n : ℕ}
    → (IsCounted l → IsCounted m)
    → Phase l script n
    → Phase m script n
Phase-map f (escapes command later esc sp c) = escapes command later esc sp (f c)
Phase-map f (describes later sp c) = describes later sp (f c)
Phase-map f (speaks script sp) = speaks script sp
Phase-map f (awaits later sp) = awaits later sp
Phase-map f ended = ended

IsCounted-start :
    (c : Config) (h : Handlers) → IsFresh h → c.tcp ≡ true → IsCounted (start_link c h)
IsCounted-start c h fresh e =
    (ground (arith, fresh.none_counted, e), ground (arith, fresh.none_counted, fresh.no_cd))

begin-Inv : (c : Config) (h : Handlers) → IsFresh h → Inv (start_link c h)
unfolding configure_rx
begin-Inv c h fresh =
    let none_ = fresh.no_response in
    record {
      count = 0;
      counted = ground (arith, none_);
      phase = go c.tcp (IsCounted-start c h fresh);
    }
  where
    go :
        (tcp : Bool)
        → (tcp ≡ true → IsCounted (start_link c h))
        → Phase (start_link c h) (opening tcp (logged_in c) c.rx_serial_port) 0
    go true counted = escapes _ _ refl (logged_in-Speaks c) (counted refl)
    go false counted = speaks _ (says _ refl (logged_in-Speaks c c.rx_serial_port))

-- What holds behind an action, where it can happen.
abbrev Holds : Option Link → Type 0
Holds none = Unit
Holds (some m) = Inv m

sent-Inv :
    (l : Link) {script : Script} {n : ℕ}
    → under_way l ≡ n
    → Phase l script n
    → Holds (on_sent script l)
sent-Inv l e (escapes command later esc sp c) = record {
  count = 0;
  counted = simp esc e;
  phase = describes later sp c;
}
sent-Inv l e (describes later sp c) = tt
sent-Inv l e (speaks _ silent) = tt
sent-Inv l e (speaks _ (last command esc)) = record {
  count = 1;
  counted = ground (arith, esc, e);
  phase = ended;
}
sent-Inv l e (speaks _ (says command {later} esc sp)) = record {
  count = 1;
  counted = ground (arith, esc, e);
  phase = awaits later sp;
}
sent-Inv l e (awaits later sp) = tt
sent-Inv l e ended = tt

-- An answer that comes was owed for the one command that is under way.
answered-Inv : (l : Link) (owed : ℕ) → l.owed ≡ owed → Inv l → Holds (on_answered owed l)
answered-Inv l zero e v = tt
answered-Inv l (suc owed) e v = answered v.count v.counted v.phase
  where
    answered :
        (n : ℕ) {script : Script}
        → under_way l ≡ n
        → Phase l script n
        → Inv (record l { script = script; owed = owed; handlers = got_response l.handlers })
    answered n counted (escapes command later esc sp c) = absurd (omega (arith, counted, e))
    answered n counted (describes later sp c) = absurd (omega (arith, counted, e))
    answered n counted (speaks script sp) = absurd (omega (arith, counted, e))
    answered n counted (awaits later sp) = record {
      count = 1;
      counted = omega (arith, counted, e);
      phase = awaits later sp;
    }
    answered n counted ended = record {
      count = 1;
      counted = omega (arith, counted, e);
      phase = ended;
    }

pub described-IsCounted :
    (l : Link) (rx : RxMessage) (descriptors : ℕ)
    → l.descriptors ≡ suc descriptors
    → IsCounted l
    → IsCounted (record l {
      descriptors = descriptors;
      handlers = got_descriptor (at_message rx l.handlers);
    })
unfolding got_descriptor
described-IsCounted l rx descriptors e (total, signalled) =
    (ground (arith, e, total), ground (arith, e, total, signalled))

described-Inv :
    (l : Link) (rx : RxMessage) (descriptors : ℕ)
    → l.descriptors ≡ descriptors
    → Inv l
    → Holds (on_described descriptors l rx)
unfolding got_descriptor
described-Inv l rx zero e v = tt
described-Inv l rx (suc descriptors) e v = record {
  count = v.count;
  counted = v.counted;
  phase = Phase-map (described-IsCounted l rx descriptors e) v.phase;
}

passed-Inv :
    (l : Link) {script : Script} {n : ℕ}
    → under_way l ≡ n
    → Phase l script n
    → Holds (on_passed script l)
passed-Inv l e (escapes command later esc sp c) = tt
passed-Inv l e (describes later sp c) = elim (Bool-cases l.handlers.cd_received) [
  | inl came ↦
      simp came (record { count = 0; counted = e; phase = speaks _ (sp l.handlers.rx_tcp_port) })
  | inr none_ ↦ simp none_ tt
]
passed-Inv l e (speaks _ silent) = tt
passed-Inv l e (speaks _ (last command esc)) = tt
passed-Inv l e (speaks _ (says command esc sp)) = tt
passed-Inv l e (awaits later sp) = elim (Bool-cases l.handlers.response_received) [
  | inl came ↦
      simp came (record { count = 0; counted = ground (arith, came, e); phase = speaks _ sp })
  | inr none_ ↦ simp none_ tt
]
passed-Inv l e ended = tt

step-Inv : (l : Link) (a : LinkAction) → Inv l → Holds (link_step l a)
unfolding link_step
step-Inv l sent v = sent-Inv l v.counted v.phase
step-Inv l answered v = answered-Inv l l.owed refl v
step-Inv l passed v = passed-Inv l v.counted v.phase
step-Inv l (described rx) v = described-Inv l rx l.descriptors refl v

pub Reach-Inv : (c : Config) {l : Link} → Reach c l → Inv l
Reach-Inv c (begin h fresh) = begin-Inv c h fresh
Reach-Inv c (after {l} {m} reach a e) = subst (λ o. Holds o) e (step-Inv l a (Reach-Inv c reach))

-- Nothing is under way where a command is sent next, and at most one command elsewhere.
abbrev pub IsInTurn : Script → ℕ → Type 0
IsInTurn (send command later) n = n ≡ 0
IsInTurn done n = n ≤ 1
IsInTurn (await_response later) n = n ≤ 1
IsInTurn (await_cd later) n = n ≤ 1

Phase-IsInTurn : {l : Link} {script : Script} {n : ℕ} → Phase l script n → IsInTurn script n
Phase-IsInTurn (escapes command later esc sp c) = refl
Phase-IsInTurn (describes later sp c) = omega arith
Phase-IsInTurn (speaks _ silent) = omega arith
Phase-IsInTurn (speaks _ (last command esc)) = refl
Phase-IsInTurn (speaks _ (says command esc sp)) = refl
Phase-IsInTurn (awaits later sp) = omega arith
Phase-IsInTurn ended = omega arith

-- In whatever order the answers and descriptors come, `configureRx` sends a command only when all before
-- it were answered and their answers were taken note of: at most one command is under way.
pub Reach-IsInTurn : (c : Config) (l : Link) → Reach c l → IsInTurn l.script (under_way l)
Reach-IsInTurn c l reach = let v = Reach-Inv c reach in rw v.counted (Phase-IsInTurn v.phase)
