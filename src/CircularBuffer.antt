-- ===== src/CircularBuffer.antt =====
-- communication/circular_buffer.cpp and .hpp: the byte buffer between the thread that receives and
-- the thread that parses. A byte is only moved, never computed with, so it is any number.
pub mod Memory
pub mod Valid
pub mod Refine
pub mod Client
mod Tests
use rosaic.Prelude.{
  ℕ, ◌+◌, ◌-◌, ◌%◌, ◌^◌, min, List, [], ◌∷◌, ◌++◌, take, drop, if◌then◌else◌, leb, ◌==◌,
}
use rosaic.CircularBuffer.Memory.{memcpy}

-- The members of the class; `bytes` is the memory behind `data_`, `capacity` bytes of it.
pub record CircularBuffer : Type 0 where
  pub head : ℕ
  pub tail : ℕ
  pub size : ℕ
  pub capacity : ℕ
  pub bytes : List ℕ

-- `size_t` subtraction wraps.
abbrev pub sub_size : ℕ → ℕ → ℕ
sub_size a b = (a + 2 ^ 64 - b) % 2 ^ 64

-- The constructor; what `new uint8_t[capacity]` hands out is arbitrary.
unfoldable pub construct : List ℕ → ℕ → CircularBuffer
construct storage capacity = record {
  head = 0;
  tail = 0;
  size = 0;
  capacity = capacity;
  bytes = storage;
}

-- `if (head_ == capacity) head_ = 0`
abbrev pub at_end : ℕ → ℕ → ℕ
at_end i capacity = if i == capacity then 0 else i

-- Both branches of `write`, with `n` the number of bytes that fit.
unfoldable pub write_bytes : CircularBuffer → List ℕ → ℕ → CircularBuffer
write_bytes b source n =
    if leb n (sub_size b.capacity b.head)
    then record b {
      head = at_end (b.head + n) b.capacity;
      size = b.size + n;
      bytes = memcpy b.bytes b.head (take n source);
    }
    else let size_1 = sub_size b.capacity b.head in
      let size_2 = sub_size n size_1 in
      record b {
        head = size_2;
        size = b.size + n;
        bytes =
            memcpy (memcpy b.bytes b.head (take size_1 source)) 0
              (take size_2 (drop size_1 source));
      }

-- `write(data, bytes)`: the number of bytes written, and the buffer after it.
unfoldable pub write : CircularBuffer → List ℕ → ℕ → ℕ × CircularBuffer
write b source count =
    if count == 0
    then (0, b)
    else let n = min count (sub_size b.capacity b.size) in (n, write_bytes b source n)

-- Both branches of `read`: what is copied to the caller, and the buffer after it.
unfoldable pub read_out : CircularBuffer → ℕ → List ℕ × CircularBuffer
read_out b n =
    if leb n (sub_size b.capacity b.tail)
    then (
      take n (drop b.tail b.bytes),
      record b { tail = at_end (b.tail + n) b.capacity; size = sub_size b.size n },
    )
    else let size_1 = sub_size b.capacity b.tail in
      let size_2 = sub_size n size_1 in
      (
        take size_1 (drop b.tail b.bytes) ++ take size_2 b.bytes,
        record b { tail = size_2; size = sub_size b.size n },
      )

-- `read(data, bytes)`: the number of bytes read, those bytes, and the buffer after it.
unfoldable pub read : CircularBuffer → ℕ → ℕ × List ℕ × CircularBuffer
read b count =
    if count == 0
    then (0, [], b)
    else let n = min count b.size in let (out, b') = read_out b n in (n, out, b')
