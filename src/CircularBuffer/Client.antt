-- ===== src/CircularBuffer/Client.antt =====
-- Sequences of calls of the circular buffer, against the same calls of a bounded queue.
use rosaic.Prelude.{ℕ, ◌≡◌, refl, arith, List, [], ◌∷◌, length}
use rosaic.CircularBuffer.{CircularBuffer, write, read}
use rosaic.CircularBuffer.Valid.{
  IsValid, write-IsValid, read-IsValid, capacity-write, capacity-read,
}
use rosaic.CircularBuffer.Refine.{contents, enqueue, dequeue, write_refines, read_refines}

pub data Call : Type 0 where
  put : List ℕ → Call
  get : ℕ → Call

-- What a call returns: a number of bytes, and the bytes that a read hands out.
abbrev pub Reply : Type 0
Reply = ℕ × List ℕ

unfoldable pub run : CircularBuffer → List Call → List Reply
run b [] = []
run b (put source ∷ calls) = let (n, b') = write b source (length source) in (n, []) ∷ run b' calls
run b (get count ∷ calls) = let (n, out, b') = read b count in (n, out) ∷ run b' calls

unfoldable pub run_queue : ℕ → List ℕ → List Call → List Reply
run_queue capacity queue [] = []
run_queue capacity queue (put source ∷ calls) =
    let (n, queue') = enqueue capacity queue source (length source) in
    (n, []) ∷ run_queue capacity queue' calls
run_queue capacity queue (get count ∷ calls) =
    let (n, out, queue') = dequeue queue count in (n, out) ∷ run_queue capacity queue' calls

-- Every sequence of writes and reads on a valid buffer returns what a queue of at most `capacity`
-- bytes returns, started with the bytes that the buffer holds.
pub run_refines :
    (b : CircularBuffer) (calls : List Call)
    → IsValid b
    → run b calls ≡ run_queue b.capacity (contents b) calls
unfolding run run_queue
run_refines b [] v = refl
run_refines b (put source ∷ calls) v =
    rw
      (
        run_refines (write b source (length source)).1 calls
            (write-IsValid b source (length source) v (omega arith)),
        ← write_refines b source (length source) v (omega arith),
        capacity-write,
      )
      refl
run_refines b (get count ∷ calls) v =
    rw
      (
        run_refines (read b count).2 calls (read-IsValid b count v),
        ← read_refines b count v,
        capacity-read,
      )
      refl
