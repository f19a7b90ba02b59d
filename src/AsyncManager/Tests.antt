-- ===== src/AsyncManager/Tests.antt =====
-- The two threads of a manager with a buffer of four bytes, and runs of them.
use rosaic.Prelude.{
  ℕ, ◌+◌, ◌≤◌, ◌<◌, ◌-◌, ◌≡◌, refl, arith, true, false, not, List, [], ◌∷◌, ◌++◌, length, drop,
  some, none, ltb, take, ◌⊎◌,
}
use rosaic.CircularBuffer.{construct as new_buffer, write as write_buffer, write_bytes}
use rosaic.CircularBuffer.Refine.{contents}
use rosaic.AsyncManager.{
  Manager, construct, read as post, start_over, take_over, store, threw, call_ended, wait,
}
use rosaic.AsyncManager.Threads.{
  System, holding, interrupted, ticked, stopped, calling, timed_out, overflowed, Action, completed,
  written, woken, gave_up, registered, init, step, Reach, start, later, post_read,
}
use rosaic.AsyncManager.Shared.{Sound, construct-Sound, store-Sound}
use rosaic.AsyncManager.Handshake.{held, no_byte_lost}
use rosaic.AsyncManager.Delivery.{Run, stop, go, Stuck, AtRest, delivery}
use rosaic.AsyncManager.Stalled.{Later, now, next, silence_stalls}
use rosaic.AsyncManager.Window.{window, first_call, next_call, first_retry}
use rosaic.AsyncManager.Bounds.{call_inside}
use rosaic.AsyncManager.Overflow.{overflow_reached}
use rosaic.AsyncManager.Waiting.{timer, timer_ends}

abbrev zeros : List ℕ
zeros = 0 ∷ 0 ∷ 0 ∷ 0 ∷ []

-- The state behind an action that can happen.
pub act : System → Action → System
act s a = elim (step s a) [ none ↦ s | some t ↦ t ]

abbrev fresh_system : System
fresh_system = init zeros zeros

abbrev with_callback : System
with_callback = act fresh_system registered

abbrev with_bytes : System
with_bytes = act with_callback (completed false (7 ∷ 8 ∷ 9 ∷ []))

abbrev with_turn : System
with_turn = act with_bytes written

abbrev pub in_call : System
in_call = act with_turn woken

with_bytes-Reach : Reach with_bytes
unfolding act step init construct post
with_bytes-Reach =
    later (later (start zeros zeros (omega arith) (omega arith) refl) registered tt refl)
      (completed false (7 ∷ 8 ∷ 9 ∷ [])) (omega arith) refl

with_turn-Reach : Reach with_turn
unfolding act step init construct post store start_over post_read
with_turn-Reach = later with_bytes-Reach written tt refl

pub in_call-Reach : Reach in_call
unfolding act step init construct post store start_over post_read take_over new_buffer write_buffer
    write_bytes
in_call-Reach = later with_turn-Reach woken tt refl

no_byte_lost_example :
    (with_turn.received
      ≡ with_turn.drawn ++ (contents with_turn.manager.circular_buffer ++ held with_turn.reader))
    × (with_turn.manager.allow_writing ≡ not with_turn.manager.try_parsing)
    × (with_turn.manager.allow_writing ≡ true → contents with_turn.manager.circular_buffer ≡ [])
no_byte_lost_example = no_byte_lost with_turn-Reach

-- The whole way from a held chunk to the call.
held_to_call : Run with_bytes 2 in_call
unfolding act step init construct post store start_over post_read take_over new_buffer write_buffer
    write_bytes
held_to_call = go (go stop written tt tt refl) woken tt tt refl

delivery_example :
    (2 ≤ 7) × (in_call.received ≡ with_bytes.received) × (Stuck in_call → AtRest in_call)
delivery_example = delivery with_bytes-Reach held_to_call

pub in_call_calling : in_call.stage ≡ calling
unfolding act step init construct post store start_over post_read take_over new_buffer write_buffer
    write_bytes
in_call_calling = refl

call_inside_example :
    ((before : List ℕ) × (in_call.drawn
        ≡ before
          ++ take
              (in_call.parser.shift_bytes + in_call.parser.current_buffer_size)
              in_call.parser.memory))
    × (in_call.parser.offset + in_call.parser.arg_for_read_callback
        ≤ in_call.parser.shift_bytes + in_call.parser.current_buffer_size)
    × (in_call.parser.shift_bytes + in_call.parser.current_buffer_size
        ≤ length in_call.parser.memory)
    × ((at : ℕ) (fresh : List ℕ)
        → at < in_call.parser.arg_for_read_callback
        → (call_ended fresh in_call.parser (threw at)).arg_for_read_callback + at
          ≡ in_call.parser.arg_for_read_callback)
call_inside_example = call_inside in_call-Reach in_call_calling

-- The wait takes ten seconds, then two chunks come.
abbrev silent : System
silent =
    act (act (act (act with_callback gave_up) (completed false (7 ∷ []))) written)
      (completed false (8 ∷ []))

-- The last call of `wait` interrupts the reading thread, which has read twice by then.
abbrev silent_later : System
silent_later = act (act silent (ticked 5)) stopped

silent_run : Later silent silent_later
unfolding act step init construct post store start_over post_read wait
silent_run = next (next now (ticked 5) tt refl) stopped tt refl

silent_stage : silent.stage ≡ timed_out
unfolding act step init construct post store start_over post_read
silent_stage = refl

silence_stalls_example :
    (silent_later.drawn ≡ silent.drawn)
    × ((chunk : List ℕ)
        → silent.reader ≡ holding chunk
        → silent.manager.allow_writing ≡ false
        → (silent_later.reader ≡ holding chunk) ⊎ (silent_later.reader ≡ interrupted chunk))
silence_stalls_example = silence_stalls silent_stage silent_run

-- The example's hypotheses hold: the reading thread is left with a byte.
silent_holds : (silent.reader ≡ holding (8 ∷ [])) × (silent.manager.allow_writing ≡ false)
unfolding act step init construct post store start_over post_read
silent_holds = (refl, refl)

-- A manager whose buffer holds one byte.
abbrev one_byte : ℕ → Manager
one_byte b = store (construct zeros 4) (b ∷ [])

one_byte-Sound : (b : ℕ) → Sound (one_byte b)
one_byte-Sound b =
    store-Sound (construct zeros 4) (b ∷ []) (construct-Sound zeros (omega arith) (omega arith))

length-one_byte : (b : ℕ) → length (contents (one_byte b).circular_buffer) ≡ 1
unfolding construct store new_buffer write_buffer write_bytes contents
length-one_byte b = refl

first_retry_example :
    window (next_call (one_byte 8) (first_call (one_byte 7) zeros) 1)
    ≡ drop 1 (contents (one_byte 7).circular_buffer) ++ contents (one_byte 8).circular_buffer
first_retry_example =
    first_retry (one_byte 7) (one_byte 8) zeros 1 (one_byte-Sound 7) (one_byte-Sound 8)
      (omega arith) (omega (arith, length-one_byte 7, length-one_byte 8))
      (omega (arith, length-one_byte 7))

overflow_reached_example :
    (t : System) × Reach t
    × (t.stage ≡ overflowed)
    × (t.received ≡ (1 ∷ 2 ∷ 3 ∷ []) ++ (4 ∷ 5 ∷ []))
    × (t.parser.offset ≡ 1)
    × (t.parser.shift_bytes ≡ 3)
    × (t.manager.buffer_size ≡ 4)
overflow_reached_example =
    overflow_reached zeros zeros (1 ∷ 2 ∷ 3 ∷ []) (4 ∷ 5 ∷ []) 1 (omega arith) refl (omega arith)
      (omega arith) (omega arith) (omega arith)

timer_ends_example :
    timer 6 (λ _. construct zeros 4) 0 ≡ some (6 - 0, ltb (construct zeros 4).do_read_count 3)
timer_ends_example = timer_ends 6 (λ _. construct zeros 4) 0 (omega arith) (omega arith)
