-- ===== src/CircularBuffer/Valid.antt =====
-- The representation invariant of the circular buffer.
use rosaic.Prelude.{
  ℕ, ◌+◌, ◌-◌, ◌^◌, ◌≤◌, ◌<◌, min, ◌≡◌, arith, List, length, take, drop, length-take, length-drop,
  if◌then◌else◌, ltb,
}
use rosaic.CircularBuffer.{CircularBuffer, construct, write_bytes, write, read_out, read}
use rosaic.CircularBuffer.Memory.{memcpy, length-memcpy}

-- An index that has gone at most once round the end.
abbrev pub wrap : ℕ → ℕ → ℕ
wrap i capacity = if ltb i capacity then i else i - capacity

-- The next byte is written `size` places behind the one that is read next, and all indices lie
-- inside the memory.
pub record IsValid (b : CircularBuffer) : Type 0 where
  pub room : 0 < b.capacity
  pub small : b.capacity < 2 ^ 32
  pub memory : length b.bytes ≡ b.capacity
  pub tail_in : b.tail < b.capacity
  pub size_in : b.size ≤ b.capacity
  pub head_at : b.head ≡ wrap (b.tail + b.size) b.capacity

-- A new buffer over `capacity` bytes of memory is valid.
pub construct-IsValid :
    (storage : List ℕ)
    → 0 < length storage
    → length storage < 2 ^ 32
    → IsValid (construct storage (length storage))
unfolding construct
construct-IsValid storage room small = ground arith

pub write_bytes-IsValid :
    (b : CircularBuffer) (source : List ℕ) (n : ℕ)
    → IsValid b
    → n ≤ length source
    → n ≤ b.capacity - b.size
    → IsValid (write_bytes b source n)
unfolding write_bytes
write_bytes-IsValid b source n v given fits = ground (
  arith,
  length-take n source,
  length-memcpy b.bytes b.head (take n source),
  length-take (b.capacity - b.head) source,
  length-drop (b.capacity - b.head) source,
  length-take (n - (b.capacity - b.head)) (drop (b.capacity - b.head) source),
  length-memcpy b.bytes b.head (take (b.capacity - b.head) source),
  length-memcpy (memcpy b.bytes b.head (take (b.capacity - b.head) source)) 0
      (take (n - (b.capacity - b.head)) (drop (b.capacity - b.head) source)),
)

pub read_out-IsValid :
    (b : CircularBuffer) (n : ℕ) → IsValid b → n ≤ b.size → IsValid (read_out b n).1
unfolding read_out
read_out-IsValid b n v fits = ground arith

-- `write` keeps the invariant if the caller's memory holds `count` bytes.
pub write-IsValid :
    (b : CircularBuffer) (source : List ℕ) (count : ℕ)
    → IsValid b
    → count ≤ length source
    → IsValid (write b source count).1
unfolding write
write-IsValid b source count v given =
    ground (arith, write_bytes-IsValid b source (min count (b.capacity - b.size)) v)

-- `read` keeps the invariant.
pub read-IsValid : (b : CircularBuffer) (count : ℕ) → IsValid b → IsValid (read b count).2
unfolding read
read-IsValid b count v = ground (arith, read_out-IsValid b (min count b.size) v)

pub capacity-write :
    (b : CircularBuffer) (source : List ℕ) (count : ℕ)
    → (write b source count).1.capacity ≡ b.capacity
unfolding write write_bytes
capacity-write b source count = ground arith

pub capacity-read : (b : CircularBuffer) (count : ℕ) → (read b count).2.capacity ≡ b.capacity
unfolding read read_out
capacity-read b count = ground arith
