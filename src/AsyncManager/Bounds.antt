-- ===== src/AsyncManager/Bounds.antt =====
-- The bounds of the parsing thread's memory, in every state that the threads reach.
use rosaic.Prelude.{
  ℕ, ◌+◌, ◌≤◌, ◌<◌, ◌≡◌, refl, ap, ◌∙◌, arith, List, length, some, inl, inr, Bool, Bool-cases, sym,
  [], ◌++◌, take, append-nil, append_assoc,
}
use mathlib.Core.Path.{subst, ap₂}
use rosaic.CircularBuffer.Refine.{contents, length-contents}
use rosaic.AsyncManager.{
  construct, read as post, store, Parser, start_over, taken, take_over, Outcome, returned, threw,
  call_ended,
}
use rosaic.AsyncManager.Threads.{
  System, Reader, reading, holding, ended, interrupted, Stage, waiting, calling, timed_out,
  overflowed, Action, completed, written, woken, called, gave_up, registered, closed, ticked,
  stopped, init, step, Allowed, Reach, start, later, on_completed, on_written, on_woken, on_called,
  on_gave_up, on_stopped, took_over, post_read,
}
use rosaic.AsyncManager.Shared.{Sound, take_over-cases, bytes-read_all}
use rosaic.AsyncManager.Handshake.{Reach-Inv}
use rosaic.AsyncManager.Window.{length-taken, filled, filled-taken}

-- The end of the bytes that were read into the memory.
abbrev limit : Stage → Parser → ℕ
limit calling p = p.shift_bytes + p.current_buffer_size
limit waiting p = p.shift_bytes
limit timed_out p = p.shift_bytes
limit overflowed p = p.shift_bytes

-- `before` was drawn for memory that is gone; all that was drawn since stands at the start of the
-- memory.
record Fits (s : System) : Type 0 where
  memory : length s.parser.memory ≡ s.manager.buffer_size
  inside : s.parser.offset + s.parser.arg_for_read_callback ≤ limit s.stage s.parser
  room : limit s.stage s.parser ≤ s.manager.buffer_size
  before : List ℕ
  history : s.drawn ≡ before ++ take (limit s.stage s.parser) s.parser.memory

-- A step that leaves the parsing thread alone.
record Still (s t : System) : Type 0 where
  parser : t.parser ≡ s.parser
  limits : limit t.stage t.parser ≡ limit s.stage s.parser
  buffer_size : t.manager.buffer_size ≡ s.manager.buffer_size
  drawn : t.drawn ≡ s.drawn

Still-Fits : (s t : System) → Still s t → Fits s → Fits t
Still-Fits s t q f = record {
  memory = ap (λ p. length p.memory) q.parser ∙ f.memory ∙ sym q.buffer_size;
  inside = omega (
    arith,
    f.inside,
    q.limits,
    ap (λ p. p.offset) q.parser,
    ap (λ p. p.arg_for_read_callback) q.parser,
  );
  room = omega (arith, f.room, q.limits, q.buffer_size);
  before = f.before;
  history =
      q.drawn
      ∙ f.history
      ∙ ap₂ (λ k m. f.before ++ take k m) (sym q.limits) (sym (ap (λ p. p.memory) q.parser));
}

init-Fits : (storage fresh : List ℕ) → length fresh ≡ length storage → Fits (init storage fresh)
unfolding init construct start_over post
init-Fits storage fresh same = record {
  memory = same;
  inside = omega arith;
  room = omega arith;
  before = [];
  history = refl;
}

on_completed-Still :
    (r : Reader) (s t : System) (error : Bool) (chunk : List ℕ)
    → on_completed r s error chunk ≡ some t
    → Still s t
unfolding post_read post
on_completed-Still reading s t error chunk e = ground arith
on_completed-Still (holding _) s t error chunk e = cc
on_completed-Still ended s t error chunk e = cc
on_completed-Still (interrupted _) s t error chunk e = cc

on_written-Still : (r : Reader) (s t : System) → on_written r s ≡ some t → Still s t
unfolding post_read post store
on_written-Still reading s t e = cc
on_written-Still (holding chunk) s t e = ground arith
on_written-Still ended s t e = cc
on_written-Still (interrupted _) s t e = cc

on_stopped-Still : (r : Reader) (s t : System) → on_stopped r s ≡ some t → Still s t
on_stopped-Still reading s t e = cc
on_stopped-Still (holding chunk) s t e = ground arith
on_stopped-Still ended s t e = cc
on_stopped-Still (interrupted _) s t e = cc

-- The limit of a thread that does not call.
limit_still : (s : System) → s.stage ≡ waiting → limit s.stage s.parser ≡ s.parser.shift_bytes
limit_still s at = ap (λ g. limit g s.parser) at

taken-history :
    (s : System)
    → s.stage ≡ waiting
    → Sound s.manager
    → (f : Fits s) → s.parser.shift_bytes + s.manager.circular_buffer.size ≤ s.manager.buffer_size
    → let p = (taken s.manager s.parser).2 in
      s.drawn ++ (taken s.manager s.parser).0
      ≡ f.before ++ take (p.shift_bytes + p.current_buffer_size) p.memory
unfolding taken filled
taken-history s at v f fits =
    let b = s.manager.circular_buffer in
    let same = limit_still s at in
    let start = filled-taken s.manager s.parser v (omega (arith, f.memory)) in
    let out = bytes-read_all b v.valid in
    ap₂ ◌++◌ (f.history ∙ ap (λ k. f.before ++ take k s.parser.memory) same) out
    ∙ append_assoc f.before (take s.parser.shift_bytes s.parser.memory) (contents b)
    ∙ ap (λ t. f.before ++ t)
        (sym start
          ∙ ap (λ k. take (s.parser.shift_bytes + k) (taken s.manager s.parser).2.memory)
              (length-contents b))

taken-Fits :
    (s : System)
    → s.stage ≡ waiting
    → Sound s.manager
    → Fits s
    → s.parser.shift_bytes + s.manager.circular_buffer.size ≤ s.manager.buffer_size
    → Fits (took_over s (some (taken s.manager s.parser)))
taken-Fits s at v f fits =
    let same = limit_still s at in
    let room : s.parser.shift_bytes + s.manager.circular_buffer.size ≤ length s.parser.memory =
      omega (arith, f.memory) in
    record {
      memory = length-taken s.manager v s.parser room ∙ unfold taken in f.memory;
      inside = unfold taken in omega (arith, f.inside, same);
      room = unfold taken in fits;
      before = f.before;
      history = taken-history s at v f fits;
    }

took_over-Fits :
    (s : System)
    → s.stage ≡ waiting
    → Sound s.manager
    → Fits s
    → Fits (took_over s (take_over s.manager s.parser))
took_over-Fits s at v f =
    let same = limit_still s at in
    elim (take_over-cases s.manager s.parser) [
      | inl (e, _) ↦ rw e (record {
        memory = f.memory;
        inside = omega (arith, f.inside, same);
        room = omega (arith, f.room, same);
        before = f.before;
        history = f.history ∙ ap (λ k. f.before ++ take k s.parser.memory) same;
      })
      | inr (e, fits) ↦ rw e (taken-Fits s at v f fits)
    ]

on_woken-Fits :
    (g : Stage) (s t : System)
    → s.stage ≡ g
    → on_woken g s ≡ some t
    → Sound s.manager
    → Fits s
    → Fits t
on_woken-Fits waiting s t at e v f = elim (Bool-cases s.manager.try_parsing) [
  | inl w ↦
      let same : took_over s (take_over s.manager s.parser) ≡ t = ground (arith, w, e) in
      subst Fits (same) (took_over-Fits s at v f)
  | inr w ↦ absurd (ground (arith, w, e))
]
on_woken-Fits calling s t at e v f = cc
on_woken-Fits timed_out s t at e v f = cc
on_woken-Fits overflowed s t at e v f = cc

call_ended-Fits :
    (s : System) (outcome : Outcome) (fresh : List ℕ)
    → s.stage ≡ calling
    → Allowed s (called outcome fresh)
    → Sound s.manager
    → Fits s
    → Fits (record s { parser = call_ended fresh s.parser outcome; stage = waiting })
unfolding call_ended start_over
call_ended-Fits s returned fresh at allowed v f = record {
  memory = allowed;
  inside = omega arith;
  room = omega arith;
  before = s.drawn;
  history = sym (append-nil s.drawn);
}
call_ended-Fits s (threw p) fresh at allowed v f =
    let same = ap (λ g. limit g s.parser) at in
    record {
      memory = f.memory;
      inside = omega (arith, f.inside, f.room, same, v.capacity, v.valid.small, allowed);
      room = omega (arith, f.room, same);
      before = f.before;
      history = f.history ∙ ap (λ k. f.before ++ take k s.parser.memory) same;
    }

on_called-Fits :
    (g : Stage) (s t : System) (outcome : Outcome) (fresh : List ℕ)
    → s.stage ≡ g
    → Allowed s (called outcome fresh)
    → on_called g s outcome fresh ≡ some t
    → Sound s.manager
    → Fits s
    → Fits t
on_called-Fits waiting s t outcome fresh at allowed e v f = cc
on_called-Fits calling s t outcome fresh at allowed e v f =
    let same : record s { parser = call_ended fresh s.parser outcome; stage = waiting } ≡ t = cc in
    subst Fits (same) (call_ended-Fits s outcome fresh at allowed v f)
on_called-Fits timed_out s t outcome fresh at allowed e v f = cc
on_called-Fits overflowed s t outcome fresh at allowed e v f = cc

on_gave_up-Fits :
    (g : Stage) (s t : System) → s.stage ≡ g → on_gave_up g s ≡ some t → Fits s → Fits t
on_gave_up-Fits waiting s t at e f =
    let same = limit_still s at in Still-Fits s t (ground (arith, same)) f
on_gave_up-Fits calling s t at e f = cc
on_gave_up-Fits timed_out s t at e f = cc
on_gave_up-Fits overflowed s t at e f = cc

step-Fits :
    (s t : System) (a : Action)
    → Allowed s a
    → step s a ≡ some t
    → Sound s.manager
    → Fits s
    → Fits t
unfolding step
step-Fits s t (completed error chunk) _ e v f =
    Still-Fits s t (on_completed-Still s.reader s t error chunk e) f
step-Fits s t written _ e v f = Still-Fits s t (on_written-Still s.reader s t e) f
step-Fits s t woken _ e v f = on_woken-Fits s.stage s t refl e v f
step-Fits s t (called outcome fresh) allowed e v f =
    on_called-Fits s.stage s t outcome fresh refl allowed e v f
step-Fits s t gave_up _ e v f = on_gave_up-Fits s.stage s t refl e f
step-Fits s t registered _ e v f = Still-Fits s t (ground arith) f
step-Fits s t closed _ e v f = Still-Fits s t (ground arith) f
step-Fits s t (ticked _) _ e v f = Still-Fits s t (ground arith) f
step-Fits s t stopped _ e v f = Still-Fits s t (on_stopped-Still s.reader s t e) f

Reach-Fits : {s : System} → Reach s → Fits s
Reach-Fits (start storage fresh some_ small same) = init-Fits storage fresh same
Reach-Fits (later {s} {t} r a allowed e) =
    step-Fits s t a allowed e (Reach-Inv r).sound (Reach-Fits r)

-- In every state that the threads reach, and in which the parsing thread has not written past the end
-- of its memory, the bytes that the callback is told to read are inside those that were drawn out of the
-- circular buffer since the memory was allocated: these stand at the start of the memory, in order and
-- complete. And where the callback throws a position inside the bytes, their number does not wrap:
-- what is left is their number less the position.
pub call_inside :
    {s : System}
    → Reach s
    → s.stage ≡ calling
    → ((before : List ℕ) × (s.drawn
          ≡ before ++ take (s.parser.shift_bytes + s.parser.current_buffer_size) s.parser.memory))
      × (s.parser.offset + s.parser.arg_for_read_callback
          ≤ s.parser.shift_bytes + s.parser.current_buffer_size)
      × (s.parser.shift_bytes + s.parser.current_buffer_size ≤ length s.parser.memory)
      × ((at : ℕ) (fresh : List ℕ)
          → at < s.parser.arg_for_read_callback
          → (call_ended fresh s.parser (threw at)).arg_for_read_callback + at
            ≡ s.parser.arg_for_read_callback)
unfolding call_ended
call_inside {s} r at =
    let f = Reach-Fits r in
    let v = (Reach-Inv r).sound in
    let same = ap (λ g. limit g s.parser) at in
    (
      (f.before, f.history ∙ ap (λ k. f.before ++ take k s.parser.memory) same),
      omega (arith, f.inside, same),
      omega (arith, f.room, f.memory, same),
      λ p fresh less. omega (arith, f.inside, f.room, same, v.capacity, v.valid.small, less),
    )
