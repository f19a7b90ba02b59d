-- ===== src/AsyncManager/Threads.antt =====
-- The two threads of the manager, interleaved in any order: the one that reads the stream (`read` and
-- `asyncReadSomeHandler`) and the one that parses (`tryParsing`).
use rosaic.Prelude.{
  ℕ, ◌≤◌, ◌<◌, ◌^◌, ◌≡◌, Bool, true, false, ◌||◌, if◌then◌else◌, List, [], ◌++◌, length, Option,
  none, some,
}
use rosaic.AsyncManager.{
  Manager, construct, set_callback, read, close, wait, has_work, store, Parser, start_over,
  take_over, Outcome, returned, threw, call_ended,
}

-- The reading thread: a read is under way, or its handler waits with what came, or no read follows, or
-- an interruption has ended the thread in its wait, with the bytes that it held.
pub data Reader : Type 0 where
  reading : Reader
  holding : List ℕ → Reader
  ended : Reader
  interrupted : List ℕ → Reader

-- The parsing thread: it waits for bytes, or its callback runs, or its wait took ten seconds, or it
-- has written past the end of its memory.
pub data Stage : Type 0 where
  waiting calling timed_out overflowed : Stage

-- `interruption` is the request that `interrupt` leaves with the reading thread. `received` and `drawn`
-- are a history that no operation reads: the bytes that the handler was given to deliver, and those
-- that the parsing thread took out of the circular buffer.
pub record System : Type 0 where
  pub manager : Manager
  pub reader : Reader
  pub parser : Parser
  pub stage : Stage
  pub interruption : Bool
  pub received : List ℕ
  pub drawn : List ℕ

-- `completed`: the read ends, and the handler runs up to its wait. `written`: the rest of the
-- handler. `woken`: the parsing thread up to its call. `called`: the call, with the memory that is
-- allocated next. `gave_up`: the wait of the parsing thread takes ten seconds. `ticked`: the timer runs
-- out and calls `wait` on a count, which may be any, since it is a local variable of the constructor
-- that is gone by then. `stopped`: a wait of the reading thread throws the interruption, which ends the
-- thread; a wait that was begun does so even if its turn has come by then.
pub data Action : Type 0 where
  completed : (error : Bool) (chunk : List ℕ) → Action
  written : Action
  woken : Action
  called : (outcome : Outcome) (fresh : List ℕ) → Action
  gave_up : Action
  registered : Action
  closed : Action
  ticked : (count : ℕ) → Action
  stopped : Action

abbrev pub interrupts : ℕ × Bool × Bool → Bool
interrupts (_, _, i) = i

unfoldable pub init : List ℕ → List ℕ → System
init storage fresh = record {
  manager = read (construct storage (length storage));
  reader = reading;
  parser = start_over fresh;
  stage = waiting;
  interruption = false;
  received = [];
  drawn = [];
}

abbrev pub posted : Bool → System → System
posted true s = record s { reader = ended }
posted false s = record s { reader = reading; manager = read s.manager }

-- The end of the handler: the next read, unless the manager is closed.
unfoldable pub post_read : System → System
post_read s = posted s.manager.stopping s

abbrev pub on_completed : Reader → System → Bool → List ℕ → Option System
on_completed reading s error chunk = some (
    if has_work s.manager error chunk
    then record s { reader = holding chunk; received = s.received ++ chunk }
    else post_read s)
on_completed (holding _) s error chunk = none
on_completed ended s error chunk = none
on_completed (interrupted _) s error chunk = none

abbrev pub on_written : Reader → System → Option System
on_written reading s = none
on_written (holding chunk) s =
    if s.manager.allow_writing
    then some (post_read (record s { manager = store s.manager chunk }))
    else none
on_written ended s = none
on_written (interrupted _) s = none

abbrev pub on_stopped : Reader → System → Option System
on_stopped reading s = none
on_stopped (holding chunk) s =
    if s.interruption then some (record s { reader = interrupted chunk }) else none
on_stopped ended s = none
on_stopped (interrupted _) s = none

abbrev pub took_over : System → Option (List ℕ × Manager × Parser) → System
took_over s none = record s { stage = overflowed }
took_over s (some (out, m, p)) = record s {
  manager = m;
  parser = p;
  stage = calling;
  drawn = s.drawn ++ out;
}

abbrev pub on_woken : Stage → System → Option System
on_woken waiting s =
    if s.manager.try_parsing then some (took_over s (take_over s.manager s.parser)) else none
on_woken calling s = none
on_woken timed_out s = none
on_woken overflowed s = none

abbrev pub on_called : Stage → System → Outcome → List ℕ → Option System
on_called waiting s outcome fresh = none
on_called calling s outcome fresh =
    some (record s { parser = call_ended fresh s.parser outcome; stage = waiting })
on_called timed_out s outcome fresh = none
on_called overflowed s outcome fresh = none

abbrev pub on_gave_up : Stage → System → Option System
on_gave_up waiting s = if s.manager.try_parsing then none else some (record s { stage = timed_out })
on_gave_up calling s = none
on_gave_up timed_out s = none
on_gave_up overflowed s = none

-- What an action does, where it can happen.
unfoldable pub step : System → Action → Option System
step s (completed error chunk) = on_completed s.reader s error chunk
step s written = on_written s.reader s
step s woken = on_woken s.stage s
step s (called outcome fresh) = on_called s.stage s outcome fresh
step s gave_up = on_gave_up s.stage s
step s registered = some (record s { manager = set_callback s.manager })
step s closed = some (record s { manager = close s.manager })
step s (ticked count) =
    some (record s { interruption = s.interruption || interrupts (wait s.manager count) })
step s stopped = on_stopped s.reader s

-- What the stream, the allocator and the callback keep to: no read brings more than the memory that
-- it is given, an allocation has the size that is asked for, and a position that is thrown lies in
-- the bytes that were handed over (`read_callback_ends`).
abbrev pub Allowed : System → Action → Type 0
Allowed s (completed error chunk) = length chunk ≤ s.manager.buffer_size
Allowed s (called returned fresh) = length fresh ≡ s.manager.buffer_size
Allowed s (called (threw at) fresh) = at < s.parser.arg_for_read_callback
Allowed s _ = Unit

-- The states that the threads reach from the constructor, over memory of any contents.
pub data Reach : System → Type 0 where
  start :
      (storage fresh : List ℕ)
      → 0 < length storage
      → length storage < 2 ^ 32
      → length fresh ≡ length storage
      → Reach (init storage fresh)
  later : {s t : System} → Reach s → (a : Action) → Allowed s a → step s a ≡ some t → Reach t
