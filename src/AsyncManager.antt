-- ===== src/AsyncManager.antt =====
-- communication/async_manager.hpp: the stream is read by one thread and parsed by another. The
-- members that the two share, and what each operation does to them. The threads themselves stand in
-- AsyncManager/Threads.
pub mod Threads
pub mod Shared
pub mod Handshake
pub mod Delivery
pub mod Window
pub mod Stalled
pub mod Bounds
pub mod Overflow
pub mod Waiting
pub mod Tests
use rosaic.Prelude.{
  ℕ, ◌+◌, Bool, true, false, ◌&&◌, if◌then◌else◌, ltb, leb, ◌==◌, List, length, drop, Option, none,
  some, not,
}
use rosaic.CircularBuffer.{
  CircularBuffer, sub_size, write as write_buffer, read as read_buffer, construct as new_buffer,
}
use rosaic.CircularBuffer.Memory.{memcpy}

-- The members that the operations change. `has_callback` is `read_callback_` as a condition.
pub record Manager : Type 0 where
  pub try_parsing : Bool
  pub allow_writing : Bool
  pub has_callback : Bool
  pub do_read_count : ℕ
  pub stopping : Bool
  pub buffer_size : ℕ
  pub circular_buffer : CircularBuffer

-- The constructor, over the memory of the circular buffer.
unfoldable pub construct : List ℕ → ℕ → Manager
construct storage buffer_size = record {
  try_parsing = false;
  allow_writing = true;
  has_callback = false;
  do_read_count = 0;
  stopping = false;
  buffer_size = buffer_size;
  circular_buffer = new_buffer storage buffer_size;
}

abbrev pub set_callback : Manager → Manager
set_callback m = record m { has_callback = true }

-- `read`: the reads are counted up to five.
unfoldable pub read : Manager → Manager
read m = record m {
  do_read_count = if ltb m.do_read_count 5 then m.do_read_count + 1 else m.do_read_count;
}

abbrev pub close : Manager → Manager
close m = record m { stopping = true }

-- `send`: whether a write of the command is posted. It returns true in both cases.
unfoldable pub send : ℕ → Bool × Bool
send size = if size == 0 then (false, true) else (true, true)

-- Whether `asyncReadSomeHandler` goes on to wait for its turn with the bytes that it was given.
abbrev pub has_work : Manager → Bool → List ℕ → Bool
has_work m error chunk = not error && (ltb 0 (length chunk) && m.has_callback)

-- `asyncReadSomeHandler` behind the wait for `allow_writing_`.
unfoldable pub store : Manager → List ℕ → Manager
store m chunk = record m {
  circular_buffer = (write_buffer m.circular_buffer chunk (length chunk)).1;
  allow_writing = false;
  try_parsing = true;
}

-- The local variables of `tryParsing`: the memory behind `to_be_parsed`, the distance of
-- `to_be_parsed_` from it, and the three counters.
pub record Parser : Type 0 where
  pub memory : List ℕ
  pub offset : ℕ
  pub shift_bytes : ℕ
  pub arg_for_read_callback : ℕ
  pub current_buffer_size : ℕ

-- What `new uint8_t[buffer_size_]` hands out is arbitrary.
unfoldable pub start_over : List ℕ → Parser
start_over fresh = record {
  memory = fresh;
  offset = 0;
  shift_bytes = 0;
  arg_for_read_callback = 0;
  current_buffer_size = 0;
}

-- `tryParsing` from the end of the wait to the call: the bytes that `read` hands out, the members
-- and the variables.
unfoldable pub taken : Manager → Parser → List ℕ × Manager × Parser
taken m p =
    let current = m.circular_buffer.size in
    let (n, out, buffer) = read_buffer m.circular_buffer current in
    (
      out,
      record m { try_parsing = false; allow_writing = true; circular_buffer = buffer },
      record p {
        memory = memcpy p.memory p.shift_bytes out;
        arg_for_read_callback = p.arg_for_read_callback + current;
        current_buffer_size = current;
      },
    )

-- The same. The source does not look at the size of the memory: where the bytes do not fit, it writes
-- past the end, which is undefined and has no result here.
unfoldable pub take_over : Manager → Parser → Option (List ℕ × Manager × Parser)
take_over m p =
    if leb (p.shift_bytes + m.circular_buffer.size) m.buffer_size then some (taken m p) else none

-- How `read_callback_` ends: it returns, or throws a position.
pub data Outcome : Type 0 where
  returned : Outcome
  threw : ℕ → Outcome

-- `tryParsing` behind the call. The branch for a negative number of bytes is never taken, since the
-- number is unsigned.
unfoldable pub call_ended : List ℕ → Parser → Outcome → Parser
call_ended fresh p returned = start_over fresh
call_ended fresh p (threw at) = record p {
  offset = at;
  arg_for_read_callback = sub_size p.arg_for_read_callback at;
  shift_bytes = p.shift_bytes + p.current_buffer_size;
}

abbrev pub count_max : ℕ
count_max = 6

-- What `wait` does to `count`, whether it sets the timer again, and whether it interrupts the
-- reading thread.
unfoldable pub wait : Manager → ℕ → ℕ × Bool × Bool
wait m count =
    let next = if ltb count count_max then count + 1 else count in
    (
      next,
      ltb count count_max && not (next == count_max),
      next == count_max && ltb m.do_read_count 3,
    )
