-- ===== src/AsyncManager/Stalled.antt =====
-- What is left of the manager once `tryParsing` has ended.
use rosaic.Prelude.{ℕ, ◌≡◌, refl, arith, Bool, false, List, some, ◌⊎◌, inl}
use rosaic.AsyncManager.{store, read as post}
use rosaic.AsyncManager.Threads.{
  System, Reader, reading, holding, ended, interrupted, timed_out, Action, completed, written,
  woken, called, gave_up, registered, closed, ticked, stopped, step, Allowed, on_written,
  on_completed, on_stopped, post_read,
}

-- Any steps at all.
pub data Later (s : System) : System → Type 0 where
  now : Later s s
  next : {t u : System} → Later s t → (a : Action) → Allowed t a → step t a ≡ some u → Later s u

-- The parsing thread has ended.
record Ended (s t : System) : Type 0 where
  stage : t.stage ≡ timed_out
  drawn : t.drawn ≡ s.drawn

on_completed-Ended :
    (r : Reader) (s t u : System) (error : Bool) (chunk : List ℕ)
    → on_completed r t error chunk ≡ some u
    → Ended s t
    → Ended s u
unfolding post_read post
on_completed-Ended reading s t u error chunk e d = ground arith
on_completed-Ended (holding _) s t u error chunk e d = cc
on_completed-Ended ended s t u error chunk e d = cc
on_completed-Ended (interrupted _) s t u error chunk e d = cc

on_written-Ended : (r : Reader) (s t u : System) → on_written r t ≡ some u → Ended s t → Ended s u
unfolding post_read store post
on_written-Ended reading s t u e d = cc
on_written-Ended (holding chunk) s t u e d = ground arith
on_written-Ended ended s t u e d = cc
on_written-Ended (interrupted _) s t u e d = cc

on_stopped-Ended : (r : Reader) (s t u : System) → on_stopped r t ≡ some u → Ended s t → Ended s u
on_stopped-Ended reading s t u e d = cc
on_stopped-Ended (holding chunk) s t u e d = ground arith
on_stopped-Ended ended s t u e d = cc
on_stopped-Ended (interrupted _) s t u e d = cc

step-Ended : (s t u : System) (a : Action) → step t a ≡ some u → Ended s t → Ended s u
unfolding step
step-Ended s t u (completed error chunk) e d = on_completed-Ended t.reader s t u error chunk e d
step-Ended s t u written e d = on_written-Ended t.reader s t u e d
step-Ended s t u woken e d = ground arith
step-Ended s t u (called _ _) e d = ground arith
step-Ended s t u gave_up e d = ground arith
step-Ended s t u registered e d = ground arith
step-Ended s t u closed e d = ground arith
step-Ended s t u (ticked _) e d = ground arith
step-Ended s t u stopped e d = on_stopped-Ended t.reader s t u e d

-- The reading thread waits with bytes and does not have its turn, or was interrupted with them.
record Blocked (chunk : List ℕ) (s : System) : Type 0 where
  reader : (s.reader ≡ holding chunk) ⊎ (s.reader ≡ interrupted chunk)
  turn : s.manager.allow_writing ≡ false
  stage : s.stage ≡ timed_out

step-Blocked :
    (chunk : List ℕ) (s t : System) (a : Action)
    → step s a ≡ some t
    → Blocked chunk s
    → Blocked chunk t
unfolding step
step-Blocked chunk s t (completed error more) e d = ground arith
step-Blocked chunk s t written e d = ground arith
step-Blocked chunk s t woken e d = ground arith
step-Blocked chunk s t (called _ _) e d = ground arith
step-Blocked chunk s t gave_up e d = ground arith
step-Blocked chunk s t registered e d = ground arith
step-Blocked chunk s t closed e d = ground arith
step-Blocked chunk s t (ticked _) e d = ground arith
step-Blocked chunk s t stopped e d = ground arith

Later-Ended : {s t : System} → Later s t → s.stage ≡ timed_out → Ended s t
Later-Ended now d = record { stage = d; drawn = refl }
Later-Ended {s} (next {t} {u} run a _ e) d = step-Ended s t u a e (Later-Ended run d)

Later-Blocked : {s t : System} (chunk : List ℕ) → Later s t → Blocked chunk s → Blocked chunk t
Later-Blocked chunk now d = d
Later-Blocked chunk (next {t} {u} run a _ e) d =
    step-Blocked chunk t u a e (Later-Blocked chunk run d)

-- Once the parsing thread has waited ten seconds in vain, it is never started again, whatever comes
-- from the stream: it draws no further byte. If the reading thread then waits for its turn with some
-- bytes, it waits with them for ever, or is interrupted with them.
pub silence_stalls :
    {s t : System}
    → s.stage ≡ timed_out
    → Later s t
    → (t.drawn ≡ s.drawn)
      × ((chunk : List ℕ)
          → s.reader ≡ holding chunk
          → s.manager.allow_writing ≡ false
          → (t.reader ≡ holding chunk) ⊎ (t.reader ≡ interrupted chunk))
silence_stalls d run = (
  (Later-Ended run d).drawn,
  λ chunk reader turn.
      (Later-Blocked chunk run (record { reader = inl reader; turn = turn; stage = d })).reader,
)
