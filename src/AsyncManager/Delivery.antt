-- ===== src/AsyncManager/Delivery.antt =====
-- How the bytes get through: the steps of the two threads between two reads of the stream.
use rosaic.Prelude.{
  ℕ, suc, ◌+◌, ◌≤◌, ◌<◌, ◌≡◌, refl, ap, ◌∙◌, arith, Bool, true, false, Bool-cases, List, [],
  append-nil, some, none, ◌⊎◌, inl, inr, ◌++◌,
}
use mathlib.Core.Path.{subst}
use rosaic.AsyncManager.{Outcome, returned, store, read as post, taken}
use rosaic.AsyncManager.Threads.{
  System, Reader, reading, holding, ended, interrupted, Stage, waiting, calling, timed_out,
  overflowed, Action, completed, written, woken, called, gave_up, registered, closed, ticked,
  stopped, step, Allowed, Reach, on_written, on_woken, on_called, on_stopped, post_read,
}
use rosaic.CircularBuffer.Memory.{tabulate, length-tabulate}
use rosaic.AsyncManager.Shared.{take_over-cases, contents-empty}
use rosaic.AsyncManager.Handshake.{held, Inv, Reach-Inv, step-Inv}

-- A step that needs neither the stream nor the clock.
abbrev pub IsInternal : Action → Type 0
IsInternal written = Unit
IsInternal woken = Unit
IsInternal (called _ _) = Unit
IsInternal stopped = Unit
IsInternal _ = ⊥

-- A number of internal steps.
pub data Run (s : System) : ℕ → System → Type 0 where
  stop : Run s 0 s
  go :
      {n : ℕ} {t u : System}
      → Run s n t
      → (a : Action) → Allowed t a
      → IsInternal a
      → step t a ≡ some u
      → Run s (suc n) u

abbrev reader_rank : Reader → ℕ
reader_rank (holding _) = 3
reader_rank reading = 0
reader_rank ended = 0
reader_rank (interrupted _) = 0

abbrev turn_rank : Bool → ℕ
turn_rank true = 2
turn_rank false = 0

abbrev stage_rank : Stage → ℕ
stage_rank waiting = 1
stage_rank calling = 2
stage_rank timed_out = 0
stage_rank overflowed = 0

-- It falls with every internal step.
rank : System → ℕ
rank s = reader_rank s.reader + turn_rank s.manager.try_parsing + stage_rank s.stage

reader_rank_small : (r : Reader) → reader_rank r ≤ 3
reader_rank_small reading = omega arith
reader_rank_small (holding _) = omega arith
reader_rank_small ended = omega arith
reader_rank_small (interrupted _) = omega arith

turn_rank_small : (b : Bool) → turn_rank b ≤ 2
turn_rank_small true = omega arith
turn_rank_small false = omega arith

stage_rank_small : (g : Stage) → stage_rank g ≤ 2
stage_rank_small waiting = omega arith
stage_rank_small calling = omega arith
stage_rank_small timed_out = omega arith
stage_rank_small overflowed = omega arith

rank_small : (s : System) → rank s ≤ 7
unfolding rank
rank_small s = omega (
  arith,
  reader_rank_small s.reader,
  turn_rank_small s.manager.try_parsing,
  stage_rank_small s.stage,
)

on_written-rank :
    (r : Reader) (s t : System)
    → s.reader ≡ r
    → on_written r s ≡ some t
    → Inv s
    → (rank t < rank s) × (t.received ≡ s.received)
unfolding rank post_read store post
on_written-rank reading s t at e v = cc
on_written-rank (holding chunk) s t at e v = ground (arith, v.sound.turn)
on_written-rank ended s t at e v = cc
on_written-rank (interrupted _) s t at e v = cc

on_stopped-rank :
    (r : Reader) (s t : System)
    → s.reader ≡ r
    → on_stopped r s ≡ some t
    → (rank t < rank s) × (t.received ≡ s.received)
unfolding rank
on_stopped-rank reading s t at e = cc
on_stopped-rank (holding chunk) s t at e = ground arith
on_stopped-rank ended s t at e = cc
on_stopped-rank (interrupted _) s t at e = cc

on_called-rank :
    (g : Stage) (s t : System) (outcome : Outcome) (fresh : List ℕ)
    → s.stage ≡ g
    → on_called g s outcome fresh ≡ some t
    → (rank t < rank s) × (t.received ≡ s.received)
unfolding rank
on_called-rank waiting s t outcome fresh at e = cc
on_called-rank calling s t outcome fresh at e = ground arith
on_called-rank timed_out s t outcome fresh at e = cc
on_called-rank overflowed s t outcome fresh at e = cc

on_woken-rank :
    (g : Stage) (s t : System)
    → s.stage ≡ g
    → on_woken g s ≡ some t
    → (rank t < rank s) × (t.received ≡ s.received)
unfolding rank taken
on_woken-rank waiting s t at e = ground (arith, take_over-cases s.manager s.parser)
on_woken-rank calling s t at e = cc
on_woken-rank timed_out s t at e = cc
on_woken-rank overflowed s t at e = cc

step-rank :
    (s t : System) (a : Action)
    → IsInternal a
    → step s a ≡ some t
    → Inv s
    → (rank t < rank s) × (t.received ≡ s.received)
unfolding step
step-rank s t (completed _ _) inner e v = absurd inner
step-rank s t written inner e v = on_written-rank s.reader s t refl e v
step-rank s t woken inner e v = on_woken-rank s.stage s t refl e
step-rank s t (called outcome fresh) inner e v = on_called-rank s.stage s t outcome fresh refl e
step-rank s t gave_up inner e v = absurd inner
step-rank s t registered inner e v = absurd inner
step-rank s t closed inner e v = absurd inner
step-rank s t (ticked _) inner e v = absurd inner
step-rank s t stopped inner e v = on_stopped-rank s.reader s t refl e

Run-rank :
    {s t : System} {n : ℕ}
    → Run s n t
    → Inv s
    → Inv t × (n + rank t ≤ rank s) × (t.received ≡ s.received)
Run-rank stop v = (v, omega arith, refl)
Run-rank (go {n} {t} {u} run a allowed inner e) v =
    let (v', less, same) = Run-rank run v in
    let (falls, same') = step-rank t u a inner e v' in
    (step-Inv t u a allowed e v', omega (arith, less, falls), same' ∙ same)

-- Neither thread can go on.
abbrev pub Stuck : System → Type 0
Stuck s = (a : Action) → Allowed s a → IsInternal a → step s a ≡ none

-- The reading thread was interrupted with a chunk, and the parsing thread has drawn all before it.
abbrev pub CutShort : System → Type 0
CutShort s = (chunk : List ℕ) × (s.reader ≡ interrupted chunk) × (s.received ≡ s.drawn ++ chunk)

-- How the threads come to rest: with all drawn, or without one of the threads.
abbrev pub AtRest : System → Type 0
AtRest s = (s.received ≡ s.drawn) ⊎ (CutShort s ⊎ ((s.stage ≡ timed_out) ⊎ (s.stage ≡ overflowed)))

nothing_left :
    (s : System) → held s.reader ≡ [] → s.manager.try_parsing ≡ false → Inv s → s.received ≡ s.drawn
nothing_left s none_ w v =
    let free : s.manager.allow_writing ≡ true = ground (arith, w, v.sound.turn) in
    let e = contents-empty s.manager.circular_buffer v.sound.valid (v.sound.empty free) in
    v.kept ∙ rw (none_, e) (append-nil s.drawn)

idle_delivered :
    (r : Reader) (s : System)
    → s.reader ≡ r
    → s.manager.try_parsing ≡ false
    → Inv s
    → on_written s.reader s ≡ none
    → (s.received ≡ s.drawn) ⊎ CutShort s
idle_delivered reading s at w v e = inl (nothing_left s (ap held at) w v)
idle_delivered (holding chunk) s at w v e =
    let free : s.manager.allow_writing ≡ true = ground (arith, w, v.sound.turn) in
    let e' : on_written (holding chunk) s ≡ none = subst (λ r. on_written r s ≡ none) (at) e in
    absurd (ground (arith, free, e'))
idle_delivered ended s at w v e = inl (nothing_left s (ap held at) w v)
idle_delivered (interrupted chunk) s at w v e =
    let free : s.manager.allow_writing ≡ true = ground (arith, w, v.sound.turn) in
    let none_ = contents-empty s.manager.circular_buffer v.sound.valid (v.sound.empty free) in
    inr (chunk, at, v.kept ∙ rw (none_, at) refl)

Stuck-AtRest : (g : Stage) (s : System) → s.stage ≡ g → Inv s → Stuck s → AtRest s
unfolding step
Stuck-AtRest waiting s at v stuck = elim (Bool-cases s.manager.try_parsing) [
  | inl w ↦
      let e : on_woken waiting s ≡ none =
        subst (λ g. on_woken g s ≡ none) (at) (stuck woken tt tt) in
      absurd (ground (arith, w, e))
  | inr w ↦ rest (idle_delivered s.reader s refl w v (stuck written tt tt))
]
  where
    rest : (s.received ≡ s.drawn) ⊎ CutShort s → AtRest s
    rest (inl all) = inl all
    rest (inr cut) = inr (inl cut)
Stuck-AtRest calling s at v stuck =
    let fresh = tabulate s.manager.buffer_size (λ _. 0) in
    let e : on_called calling s returned fresh ≡ none =
      subst (λ g. on_called g s returned fresh ≡ none) (at)
        (stuck (called returned fresh) (length-tabulate s.manager.buffer_size (λ _. 0)) tt) in
    absurd (ground (arith, e))
Stuck-AtRest timed_out s at v stuck = inr (inr (inl at))
Stuck-AtRest overflowed s at v stuck = inr (inr (inr at))

-- From every state that the threads reach, they take at most seven steps, in any order, before the
-- stream brings more; and where neither can go on, the parsing thread has drawn all that was received
-- out of the circular buffer, or all but the chunk with which the reading thread was interrupted,
-- unless the parsing thread has ended or written past the end of its memory.
pub delivery :
    {s t : System} {n : ℕ}
    → Reach s
    → Run s n t
    → (n ≤ 7) × (t.received ≡ s.received) × (Stuck t → AtRest t)
delivery {s} {t} r run =
    let (v, steps, same) = Run-rank run (Reach-Inv r) in
    (omega (arith, steps, rank_small s), same, Stuck-AtRest t.stage t refl v)
