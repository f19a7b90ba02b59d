-- ===== src/AsyncManager/Overflow.antt =====
-- How the parsing thread comes to write past the end of its memory.
use rosaic.Prelude.{
  ℕ, ◌+◌, ◌≤◌, ◌<◌, ◌^◌, ◌≡◌, refl, sym, ap, ◌∙◌, arith, List, length, [], some, none, Bool, true,
  false, ◌++◌,
}
use rosaic.CircularBuffer.Refine.{length-contents}
use rosaic.CircularBuffer.{write}
use rosaic.AsyncManager.{
  construct, read as post, store, start_over, taken, threw, call_ended, set_callback,
}
use rosaic.AsyncManager.Threads.{
  System, reading, holding, waiting, overflowed, completed, written, woken, called, registered,
  init, step, Reach, start, later, took_over, post_read, posted,
}
use rosaic.AsyncManager.Shared.{take_over-cases, contents-write_all}
use rosaic.AsyncManager.Handshake.{Reach-Inv}

-- What the end of the handler leaves alone.
record Same (s t : System) : Type 0 where
  buffer : t.manager.circular_buffer ≡ s.manager.circular_buffer
  buffer_size : t.manager.buffer_size ≡ s.manager.buffer_size
  parser : t.parser ≡ s.parser
  received : t.received ≡ s.received

posted-Same : (b : Bool) (s : System) → Same s (posted b s)
unfolding post
posted-Same true s = record { buffer = refl; buffer_size = refl; parser = refl; received = refl }
posted-Same false s = record { buffer = refl; buffer_size = refl; parser = refl; received = refl }

-- Both threads wait for the stream.
record Quiet (s : System) : Type 0 where
  reach : Reach s
  reader : s.reader ≡ reading
  registered : s.manager.has_callback ≡ true
  open_ : s.manager.stopping ≡ false
  turn : s.manager.allow_writing ≡ true
  stage : s.stage ≡ waiting

-- The buffer holds a chunk, and the parsing thread may take it.
record Loaded (s : System) (chunk : List ℕ) : Type 0 where
  reach : Reach s
  reader : s.reader ≡ reading
  registered : s.manager.has_callback ≡ true
  open_ : s.manager.stopping ≡ false
  turn : s.manager.try_parsing ≡ true
  stage : s.stage ≡ waiting
  size : s.manager.circular_buffer.size ≡ length chunk

module _ (s : System) (chunk : List ℕ) (q : Quiet s) (some_ : 0 < length chunk)
    (fits : length chunk ≤ s.manager.buffer_size) where
  abbrev held_state : System
  held_state = record s { reader = holding chunk; received = s.received ++ chunk }

  abbrev loaded_state : System
  loaded_state = post_read (record held_state { manager = store s.manager chunk })

  held_step : step s (completed false chunk) ≡ some held_state
  unfolding step
  held_step = ground (arith, q.reader, q.registered)

  loaded_step : step held_state written ≡ some loaded_state
  unfolding step
  loaded_step = ground (arith, q.turn)

  loaded-Same : Same (record held_state { manager = store s.manager chunk }) loaded_state
  unfolding post_read
  loaded-Same =
      posted-Same (store s.manager chunk).stopping
        (record held_state { manager = store s.manager chunk })

  loaded_size : loaded_state.manager.circular_buffer.size ≡ length chunk
  unfolding store
  loaded_size =
      let v = (Reach-Inv q.reach).sound in
      ap (λ b. b.size) loaded-Same.buffer
      ∙ sym (length-contents (write s.manager.circular_buffer chunk (length chunk)).1)
      ∙ ap (λ xs. length xs)
          (contents-write_all s.manager.circular_buffer v.valid chunk (v.empty q.turn)
            (omega (arith, fits, v.capacity)))

  load : Loaded loaded_state chunk
  unfolding post_read store post
  load = record {
    reach = later (later q.reach (completed false chunk) fits held_step) written tt loaded_step;
    reader = ground (arith, q.open_);
    registered = ground (arith, q.open_, q.registered);
    open_ = ground (arith, q.open_);
    turn = ground (arith, q.open_);
    stage = ground (arith, q.open_, q.stage);
    size = loaded_size;
  }

  loaded :
      (u : System) × Loaded u chunk
      × (u.manager.buffer_size ≡ s.manager.buffer_size)
      × (u.parser ≡ s.parser)
      × (u.received ≡ s.received ++ chunk)
  unfolding store
  loaded = (loaded_state, load, loaded-Same.buffer_size, loaded-Same.parser, loaded-Same.received)

-- The call that a loaded buffer leads to, and its end by a throw.
module _ (s : System) (chunk : List ℕ) (at : ℕ) (q : Loaded s chunk)
    (room : s.parser.shift_bytes + length chunk ≤ s.manager.buffer_size)
    (inside : at < s.parser.arg_for_read_callback + length chunk) where
  abbrev called_state : System
  called_state = took_over s (some (taken s.manager s.parser))

  abbrev thrown_state : System
  thrown_state = record called_state {
    parser = call_ended [] called_state.parser (threw at);
    stage = waiting;
  }

  called_step : step s woken ≡ some called_state
  unfolding step
  called_step = ground (arith, q.turn, q.stage, q.size, take_over-cases s.manager s.parser)

  thrown_step : step called_state (called (threw at) []) ≡ some thrown_state
  unfolding step
  thrown_step = refl

  thrown-Quiet : Quiet thrown_state
  unfolding taken call_ended
  thrown-Quiet = record {
    reach =
        later (later q.reach woken tt called_step) (called (threw at) [])
          (unfold taken in omega (arith, inside, q.size)) thrown_step;
    reader = q.reader;
    registered = q.registered;
    open_ = q.open_;
    turn = refl;
    stage = refl;
  }

  thrown_shift : thrown_state.parser.shift_bytes ≡ s.parser.shift_bytes + length chunk
  unfolding taken call_ended
  thrown_shift = omega (arith, q.size)

  thrown :
      (u : System) × Quiet u
      × (u.manager.buffer_size ≡ s.manager.buffer_size)
      × (u.parser.shift_bytes ≡ s.parser.shift_bytes + length chunk)
      × (u.parser.offset ≡ at)
      × (u.received ≡ s.received)
  unfolding taken call_ended
  thrown = (thrown_state, thrown-Quiet, refl, thrown_shift, refl, refl)

-- The state in which the parsing thread takes over a chunk for which there is no room.
overflow :
    (s : System) (chunk : List ℕ)
    → Loaded s chunk
    → s.manager.buffer_size < s.parser.shift_bytes + length chunk
    → (t : System) × Reach t
      × (t.stage ≡ overflowed)
      × (t.received ≡ s.received)
      × (t.parser ≡ s.parser)
      × (t.manager.buffer_size ≡ s.manager.buffer_size)
unfolding step
overflow s chunk q full = (
  took_over s none,
  later q.reach woken tt
      (ground (arith, q.turn, q.stage, q.size, take_over-cases s.manager s.parser)),
  refl,
  refl,
  refl,
  refl,
)

-- The constructor, and then `setCallback`.
registered-Quiet :
    (storage fresh : List ℕ)
    → 0 < length storage
    → length storage < 2 ^ 32
    → length fresh ≡ length storage
    → Quiet (record (init storage fresh) { manager = set_callback (init storage fresh).manager })
unfolding init construct post step
registered-Quiet storage fresh some_ small same = record {
  reach = later (start storage fresh some_ small same) registered tt refl;
  reader = refl;
  registered = refl;
  open_ = refl;
  turn = refl;
  stage = refl;
}

-- Any two chunks of at most `buffer_size_` bytes, that do not fit into the memory together, are enough:
-- if they are all that the stream brings, and the callback throws a position in the first, the threads
-- can reach a state in which the parsing thread is about to write the second behind the first, past the
-- end of its memory.
pub overflow_reached :
    (storage fresh first second : List ℕ) (at : ℕ)
    → length storage < 2 ^ 32
    → length fresh ≡ length storage
    → length first ≤ length storage
    → length second ≤ length storage
    → length storage < length first + length second
    → at < length first
    → (t : System) × Reach t
      × (t.stage ≡ overflowed)
      × (t.received ≡ first ++ second)
      × (t.parser.offset ≡ at)
      × (t.parser.shift_bytes ≡ length first)
      × (t.manager.buffer_size ≡ length storage)
unfolding init construct post start_over
overflow_reached storage fresh first second at small same fits₁ fits₂ over inside =
    let s = record (init storage fresh) { manager = set_callback (init storage fresh).manager } in
    let q = registered-Quiet storage fresh (omega arith) small same in
    let (s₁, l₁, size₁, p₁, r₁) = loaded s first q (omega arith) fits₁ in
    let shift : s₁.parser.shift_bytes ≡ 0 = ap (λ p. p.shift_bytes) p₁ in
    let arg : s₁.parser.arg_for_read_callback ≡ 0 = ap (λ p. p.arg_for_read_callback) p₁ in
    let (s₂, q₂, size₂, shift₂, at₂, r₂) =
      thrown s₁ first at l₁ (omega (arith, shift, size₁)) (omega (arith, arg, inside)) in
    let (s₃, l₃, size₃, p₃, r₃) = loaded s₂ second q₂ (omega arith) (omega (arith, size₁, size₂)) in
    let shift₃ = ap (λ p. p.shift_bytes) p₃ in
    let (s₄, reach, stage, r₄, p₄, size₄) =
      overflow s₃ second l₃ (omega (arith, size₁, size₂, size₃, shift, shift₂, shift₃)) in
    (
      s₄,
      reach,
      stage,
      r₄ ∙ r₃ ∙ ap (λ r. r ++ second) (r₂ ∙ r₁),
      ap (λ p. p.offset) (p₄ ∙ p₃) ∙ at₂,
      omega (arith, ap (λ p. p.shift_bytes) p₄, shift, shift₂, shift₃),
      omega (arith, size₁, size₂, size₃, size₄),
    )
