-- ===== src/AsyncManager/Handshake.antt =====
-- What the two threads keep true of the bytes that pass between them.
use rosaic.Prelude.{
  ℕ, ◌≤◌, ◌<◌, ◌^◌, ◌≡◌, refl, sym, ap, ◌∙◌, arith, Bool, true, false, not, Bool-cases, inl, inr,
  List, [], ◌++◌, length, ◌||◌, append-nil, append_assoc, some,
}
use mathlib.Core.Path.{ap₂, subst}
use rosaic.CircularBuffer.{construct as new_buffer}
use rosaic.CircularBuffer.Valid.{}
use rosaic.CircularBuffer.Refine.{contents}
use rosaic.AsyncManager.{
  Manager, construct, read as post, store, taken, take_over, has_work, Outcome, call_ended,
  set_callback, close, wait,
}
use rosaic.AsyncManager.Threads.{
  System, Reader, reading, holding, ended, interrupted, Stage, waiting, calling, timed_out,
  overflowed, Action, completed, written, woken, called, gave_up, registered, closed, ticked,
  stopped, init, post_read, step, Allowed, Reach, start, later, interrupts, took_over, posted,
  on_completed, on_written, on_woken, on_called, on_gave_up, on_stopped,
}
use rosaic.AsyncManager.Shared.{
  Sound, taken-Sound, read-Sound, store-Sound, construct-Sound, contents-empty, contents-write_all,
  bytes-read_all, contents-read_all, take_over-cases,
}

-- What the handler still holds, or held when it was interrupted.
abbrev pub held : Reader → List ℕ
held reading = []
held (holding chunk) = chunk
held ended = []
held (interrupted chunk) = chunk

-- What was received was drawn, or is in the buffer, or is held, or was lost with an interruption.
pub record Inv (s : System) : Type 0 where
  pub sound : Sound s.manager
  pub fits : length (held s.reader) ≤ s.manager.buffer_size
  pub kept : s.received ≡ s.drawn ++ (contents s.manager.circular_buffer ++ held s.reader)

init-Inv :
    (storage fresh : List ℕ)
    → 0 < length storage
    → length storage < 2 ^ 32
    → Inv (init storage fresh)
unfolding init construct post new_buffer contents
init-Inv storage fresh some_ small = record {
  sound = read-Sound _ (construct-Sound storage some_ small);
  fits = omega arith;
  kept = refl;
}

posted-Inv :
    (b : Bool) (s : System)
    → Sound s.manager
    → s.received ≡ s.drawn ++ (contents s.manager.circular_buffer ++ [])
    → Inv (posted b s)
unfolding post
posted-Inv true s v kept = record { sound = v; fits = omega arith; kept = kept }
posted-Inv false s v kept = record {
  sound = read-Sound s.manager v;
  fits = omega arith;
  kept = kept;
}

on_completed-Inv :
    (r : Reader) (s t : System) (error : Bool) (chunk : List ℕ)
    → s.reader ≡ r
    → length chunk ≤ s.manager.buffer_size
    → on_completed r s error chunk ≡ some t
    → Inv s
    → Inv t
unfolding post_read
on_completed-Inv reading s t error chunk at fits e v =
    let kept =
      v.kept ∙ ap (λ h. s.drawn ++ (contents s.manager.circular_buffer ++ h)) (ap held at) in
    elim (Bool-cases (has_work s.manager error chunk)) [
      | inl w ↦
          let same : record s { reader = holding chunk; received = s.received ++ chunk } ≡ t =
            ground (arith, w, e) in
          subst Inv (same) (record {
            sound = v.sound;
            fits = fits;
            kept = ap (λ h. h ++ chunk) kept ∙ simp (append_assoc, append-nil) refl;
          })
      | inr w ↦
          let same : post_read s ≡ t = ground (arith, w, e) in
          subst Inv (same) (posted-Inv s.manager.stopping s v.sound kept)
    ]
on_completed-Inv (holding _) s t error chunk at fits e v = cc
on_completed-Inv ended s t error chunk at fits e v = cc
on_completed-Inv (interrupted _) s t error chunk at fits e v = cc

module _ (s : System) (chunk : List ℕ) (at : s.reader ≡ holding chunk)
    (a : s.manager.allow_writing ≡ true) (v : Inv s) where
  stored-fits : length chunk ≤ s.manager.circular_buffer.capacity
  stored-fits = omega (arith, v.fits, ap (λ r. length (held r)) at, v.sound.capacity)

  stored-kept : s.received ≡ s.drawn ++ (contents (store s.manager chunk).circular_buffer ++ [])
  unfolding store
  stored-kept =
      let b = s.manager.circular_buffer in
      v.kept
      ∙ ap (λ h. s.drawn ++ h)
          (ap₂ ◌++◌ (contents-empty b v.sound.valid (v.sound.empty a)) (ap held at)
            ∙ sym (append-nil chunk)
            ∙ ap (λ h. h ++ [])
                (sym (contents-write_all b v.sound.valid chunk (v.sound.empty a) stored-fits)))

  stored-Inv : Inv (post_read (record s { manager = store s.manager chunk }))
  unfolding store post_read
  stored-Inv =
      posted-Inv s.manager.stopping (record s { manager = store s.manager chunk })
        (store-Sound s.manager chunk v.sound) stored-kept

on_written-Inv :
    (r : Reader) (s t : System) → s.reader ≡ r → on_written r s ≡ some t → Inv s → Inv t
on_written-Inv reading s t at e v = cc
on_written-Inv (holding chunk) s t at e v = elim (Bool-cases s.manager.allow_writing) [
  | inl a ↦
      let same : post_read (record s { manager = store s.manager chunk }) ≡ t =
        ground (arith, a, e) in
      subst Inv (same) (stored-Inv s chunk at a v)
  | inr a ↦ absurd (ground (arith, a, e))
]
on_written-Inv ended s t at e v = cc
on_written-Inv (interrupted _) s t at e v = cc

on_stopped-Inv :
    (r : Reader) (s t : System) → s.reader ≡ r → on_stopped r s ≡ some t → Inv s → Inv t
on_stopped-Inv reading s t at e v = cc
on_stopped-Inv (holding chunk) s t at e v = elim (Bool-cases s.interruption) [
  | inl i ↦
      let same : record s { reader = interrupted chunk } ≡ t = ground (arith, i, e) in
      subst Inv same (record {
        sound = v.sound;
        fits = subst (λ r. length (held r) ≤ s.manager.buffer_size) at v.fits;
        kept =
            subst (λ r. s.received ≡ s.drawn ++ (contents s.manager.circular_buffer ++ held r)) at
              v.kept;
      })
  | inr i ↦ absurd (ground (arith, i, e))
]
on_stopped-Inv ended s t at e v = cc
on_stopped-Inv (interrupted _) s t at e v = cc

module _ (s : System) (v : Inv s) where
  taken-fits : length (held s.reader) ≤ (taken s.manager s.parser).1.buffer_size
  unfolding taken
  taken-fits = v.fits

  taken-kept :
      s.received
      ≡ s.drawn
        ++ (taken s.manager s.parser).0
        ++ (contents (taken s.manager s.parser).1.circular_buffer ++ held s.reader)
  unfolding taken
  taken-kept =
      let b = s.manager.circular_buffer in
      v.kept
      ∙ rw (bytes-read_all b v.sound.valid, contents-read_all b v.sound.valid)
          (sym (append_assoc s.drawn (contents b) (held s.reader)))

took_over-Inv : (s : System) → Inv s → Inv (took_over s (take_over s.manager s.parser))
took_over-Inv s v = elim (take_over-cases s.manager s.parser) [
  | inl (e, _) ↦ rw e (record { sound = v.sound; fits = v.fits; kept = v.kept })
  | inr (e, _) ↦ rw e (record {
    sound = taken-Sound s.manager s.parser v.sound;
    fits = taken-fits s v;
    kept = taken-kept s v;
  })
]

on_woken-Inv : (g : Stage) (s t : System) → on_woken g s ≡ some t → Inv s → Inv t
on_woken-Inv waiting s t e v = elim (Bool-cases s.manager.try_parsing) [
  | inl w ↦
      let same : took_over s (take_over s.manager s.parser) ≡ t = ground (arith, w, e) in
      subst Inv (same) (took_over-Inv s v)
  | inr w ↦ absurd (ground (arith, w, e))
]
on_woken-Inv calling s t e v = cc
on_woken-Inv timed_out s t e v = cc
on_woken-Inv overflowed s t e v = cc

on_called-Inv :
    (g : Stage) (s t : System) (outcome : Outcome) (fresh : List ℕ)
    → on_called g s outcome fresh ≡ some t
    → Inv s
    → Inv t
on_called-Inv waiting s t outcome fresh e v = cc
on_called-Inv calling s t outcome fresh e v =
    let same : record s { parser = call_ended fresh s.parser outcome; stage = waiting } ≡ t = cc in
    subst Inv (same) (record { sound = v.sound; fits = v.fits; kept = v.kept })
on_called-Inv timed_out s t outcome fresh e v = cc
on_called-Inv overflowed s t outcome fresh e v = cc

on_gave_up-Inv : (g : Stage) (s t : System) → on_gave_up g s ≡ some t → Inv s → Inv t
on_gave_up-Inv waiting s t e v = elim (Bool-cases s.manager.try_parsing) [
  | inl w ↦ absurd (ground (arith, w, e))
  | inr w ↦
      let same : record s { stage = timed_out } ≡ t = ground (arith, w, e) in
      subst Inv (same) (record { sound = v.sound; fits = v.fits; kept = v.kept })
]
on_gave_up-Inv calling s t e v = cc
on_gave_up-Inv timed_out s t e v = cc
on_gave_up-Inv overflowed s t e v = cc

-- A member that no part of the invariant reads.
changed-Inv :
    (s t : System) (m : Manager)
    → some (record s { manager = m }) ≡ some t
    → Sound m
    → m.buffer_size ≡ s.manager.buffer_size
    → m.circular_buffer ≡ s.manager.circular_buffer
    → Inv s
    → Inv t
changed-Inv s t m e v size buffer i =
    let same : record s { manager = m } ≡ t = cc in
    subst Inv (same)
      (record { sound = v; fits = omega (arith, size, i.fits); kept = simp buffer i.kept })

-- Every step of the threads keeps the invariant.
pub step-Inv : (s t : System) (a : Action) → Allowed s a → step s a ≡ some t → Inv s → Inv t
unfolding step
step-Inv s t (completed error chunk) fits e v =
    on_completed-Inv s.reader s t error chunk refl fits e v
step-Inv s t written _ e v = on_written-Inv s.reader s t refl e v
step-Inv s t woken _ e v = on_woken-Inv s.stage s t e v
step-Inv s t (called outcome fresh) _ e v = on_called-Inv s.stage s t outcome fresh e v
step-Inv s t gave_up _ e v = on_gave_up-Inv s.stage s t e v
step-Inv s t registered _ e v =
    changed-Inv s t (set_callback s.manager) e
      (record {
        valid = v.sound.valid;
        capacity = v.sound.capacity;
        turn = v.sound.turn;
        empty = v.sound.empty;
      })
      refl refl v
step-Inv s t closed _ e v =
    changed-Inv s t (close s.manager) e
      (record {
        valid = v.sound.valid;
        capacity = v.sound.capacity;
        turn = v.sound.turn;
        empty = v.sound.empty;
      })
      refl refl v
step-Inv s t (ticked count) _ e v =
    let same : record s { interruption = s.interruption || interrupts (wait s.manager count) } ≡ t =
      cc in
    subst Inv same (record { sound = v.sound; fits = v.fits; kept = v.kept })
step-Inv s t stopped _ e v = on_stopped-Inv s.reader s t refl e v

pub Reach-Inv : {s : System} → Reach s → Inv s
Reach-Inv (start storage fresh some_ small same) = init-Inv storage fresh some_ small
Reach-Inv (later {s} {t} r a allowed e) = step-Inv s t a allowed e (Reach-Inv r)

-- In every state that the threads reach, what the handler was given to deliver is, byte for byte and
-- in order, what the parsing thread drew out of the circular buffer, then what the buffer holds, then
-- what the handler still waits with, or was interrupted with: between the threads nothing is repeated
-- or overwritten, and nothing is lost but a chunk with which an interruption ends the reading thread.
-- Exactly one of the threads has its turn, and the buffer is empty whenever the reading thread has it.
pub no_byte_lost :
    {s : System}
    → Reach s
    → (s.received ≡ s.drawn ++ (contents s.manager.circular_buffer ++ held s.reader))
      × (s.manager.allow_writing ≡ not s.manager.try_parsing)
      × (s.manager.allow_writing ≡ true → contents s.manager.circular_buffer ≡ [])
no_byte_lost {s} r =
    let v = Reach-Inv r in
    (
      v.kept,
      v.sound.turn,
      λ a. contents-empty s.manager.circular_buffer v.sound.valid (v.sound.empty a),
    )
