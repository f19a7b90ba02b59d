-- ===== src/AsyncManager/Shared.antt =====
-- What each operation of the manager keeps true of the members that the two threads share.
use rosaic.Prelude.{
  ℕ, ◌-◌, ◌≤◌, ◌<◌, ◌^◌, min, ◌≡◌, refl, sym, ap, ◌∙◌, arith, true, not, List, [], length, ◌⊎◌, ◌+◌,
  take_all, drop_all, some, none,
}
use rosaic.CircularBuffer.{CircularBuffer, write, read, construct as new_buffer}
use rosaic.CircularBuffer.Valid.{
  IsValid, construct-IsValid, write-IsValid, read-IsValid, capacity-write, capacity-read,
}
use rosaic.CircularBuffer.Refine.{
  contents, enqueue, dequeue, write_refines, read_refines, length-contents,
}
use rosaic.AsyncManager.{Manager, construct, read as post, store, Parser, taken, take_over}
use rosaic.AsyncManager.Threads.{}

-- A write to an empty buffer, and a read of all that is there.
module _ (b : CircularBuffer) (v : IsValid b) where
  pub contents-empty : b.size ≡ 0 → contents b ≡ []
  unfolding contents
  contents-empty e = rw e refl

  pub contents-write_all :
      (chunk : List ℕ)
      → b.size ≡ 0
      → length chunk ≤ b.capacity
      → contents (write b chunk (length chunk)).1 ≡ chunk
  unfolding enqueue
  contents-write_all chunk e fits =
      ap (λ (p : ℕ × List ℕ). p.1) (write_refines b chunk (length chunk) v (omega arith))
      ∙ ground (
        arith,
        contents-empty e,
        take_all (min (length chunk) (b.capacity - length (contents b))) chunk,
      )

  pub bytes-read_all : (read b b.size).1 ≡ contents b
  unfolding dequeue
  bytes-read_all =
      ap (λ (p : ℕ × List ℕ × List ℕ). p.1) (read_refines b b.size v)
      ∙ take_all (min b.size (length (contents b))) (contents b) (omega (arith, length-contents b))

  pub contents-read_all : contents (read b b.size).2 ≡ []
  unfolding dequeue
  contents-read_all =
      ap (λ (p : ℕ × List ℕ × List ℕ). p.2) (read_refines b b.size v)
      ∙ drop_all (min b.size (length (contents b))) (contents b) (omega (arith, length-contents b))

  pub size-read_all : (read b b.size).2.size ≡ 0
  size-read_all = sym (length-contents (read b b.size).2) ∙ ap (λ xs. length xs) contents-read_all

-- The buffer is valid, exactly one of the two threads has its turn, and the buffer is empty while
-- the reading thread has it.
pub record Sound (m : Manager) : Type 0 where
  pub valid : IsValid m.circular_buffer
  pub capacity : m.circular_buffer.capacity ≡ m.buffer_size
  pub turn : m.allow_writing ≡ not m.try_parsing
  pub empty : m.allow_writing ≡ true → m.circular_buffer.size ≡ 0

pub construct-Sound :
    (storage : List ℕ)
    → 0 < length storage
    → length storage < 2 ^ 32
    → Sound (construct storage (length storage))
unfolding construct new_buffer
construct-Sound storage some_ small = record {
  valid = construct-IsValid storage some_ small;
  capacity = refl;
  turn = refl;
  empty = λ _. refl;
}

pub read-Sound : (m : Manager) → Sound m → Sound (post m)
unfolding post
read-Sound m v = record { valid = v.valid; capacity = v.capacity; turn = v.turn; empty = v.empty }

pub store-Sound : (m : Manager) (chunk : List ℕ) → Sound m → Sound (store m chunk)
unfolding store
store-Sound m chunk v = record {
  valid = write-IsValid m.circular_buffer chunk (length chunk) v.valid (omega arith);
  capacity = capacity-write m.circular_buffer chunk (length chunk) ∙ v.capacity;
  turn = refl;
  empty = λ e. cc;
}

-- Where the parsing thread takes over, it gets all that the buffer holds, and leaves it empty.
pub taken-Sound : (m : Manager) (p : Parser) → Sound m → Sound (taken m p).1
unfolding taken
taken-Sound m p v = record {
  valid = read-IsValid m.circular_buffer m.circular_buffer.size v.valid;
  capacity = capacity-read m.circular_buffer m.circular_buffer.size ∙ v.capacity;
  turn = refl;
  empty = λ _. size-read_all m.circular_buffer v.valid;
}

pub take_over-cases :
    (m : Manager) (p : Parser)
    → ((take_over m p ≡ none) × (m.buffer_size < p.shift_bytes + m.circular_buffer.size))
      ⊎ ((take_over m p ≡ some (taken m p))
          × (p.shift_bytes + m.circular_buffer.size ≤ m.buffer_size))
unfolding take_over
take_over-cases m p = ground arith
