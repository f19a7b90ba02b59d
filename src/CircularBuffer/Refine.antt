-- ===== src/CircularBuffer/Refine.antt =====
-- The circular buffer against the queue of the bytes that it holds.
use rosaic.Prelude.{
  ℕ, ◌+◌, ◌-◌, ◌≤◌, ◌<◌, min, ◌≡◌, sym, ◌∙◌, ap, arith, List, ◌++◌, length, get_or, take, drop,
  if◌then◌else◌, ltb, append-nil, leb, Bool-cases, inl, inr,
}
use mathlib.Core.Path.{ap₂}
use rosaic.CircularBuffer.{CircularBuffer, write_bytes, write, read_out, read}
use rosaic.CircularBuffer.Memory.{
  memcpy, get_or-memcpy-take, get_or-memcpy-around, tabulate, length-tabulate, tabulate_ext,
  tabulate_cong, tabulate-add, take-drop-tabulate, take-tabulate, drop-tabulate,
}
use rosaic.CircularBuffer.Valid.{IsValid, wrap}

-- The byte that is read `i` places from now.
abbrev pub byte_at : CircularBuffer → ℕ → ℕ
byte_at b i = get_or b.bytes (wrap (b.tail + i) b.capacity) 0

-- The bytes that were written and not yet read, oldest first.
unfoldable pub contents : CircularBuffer → List ℕ
contents b = tabulate b.size (byte_at b)

module _ (b : CircularBuffer) (source : List ℕ) (n : ℕ) (v : IsValid b) (given : n ≤ length source)
    (fits : n ≤ b.capacity - b.size) where
  written_byte_straight :
      (i : ℕ)
      → n ≤ b.capacity - b.head
      → i < b.size + n
      → get_or (memcpy b.bytes b.head (take n source)) (wrap (b.tail + i) b.capacity) 0
        ≡ (if ltb i b.size then byte_at b i else get_or source (i - b.size) 0)
  written_byte_straight i straight lt =
      ground (arith, get_or-memcpy-take b.bytes source b.head n (wrap (b.tail + i) b.capacity))

  written_byte_around :
      (i : ℕ)
      → b.capacity - b.head < n
      → i < b.size + n
      → get_or
          (memcpy
            (memcpy b.bytes b.head (take (b.capacity - b.head) source))
            0
            (take (n - (b.capacity - b.head)) (drop (b.capacity - b.head) source)))
          (wrap (b.tail + i) b.capacity)
          0
        ≡ (if ltb i b.size then byte_at b i else get_or source (i - b.size) 0)
  written_byte_around i around lt = ground (
    arith,
    get_or-memcpy-around b.bytes source b.head (b.capacity - b.head) (n - (b.capacity - b.head))
        (wrap (b.tail + i) b.capacity),
  )

  written_byte :
      (i : ℕ)
      → i < b.size + n
      → byte_at (write_bytes b source n) i
        ≡ (if ltb i b.size then byte_at b i else get_or source (i - b.size) 0)
  unfolding write_bytes
  written_byte i lt = elim (Bool-cases (leb n (b.capacity - b.head))) [
    | inl yes_ ↦ ground (arith, written_byte_straight i)
    | inr no_ ↦ ground (arith, written_byte_around i)
  ]

  size-write_bytes : (write_bytes b source n).size ≡ b.size + n
  unfolding write_bytes
  size-write_bytes = ground arith

  contents-write_bytes : contents (write_bytes b source n) ≡ contents b ++ take n source
  unfolding contents
  contents-write_bytes =
      tabulate_cong _ (b.size + n) _ _ size-write_bytes written_byte
      ∙ tabulate-add b.size n _
      ∙ ap₂ ◌++◌ (tabulate_ext b.size _ (byte_at b) (λ i lt. ground arith)) (
          tabulate_ext n _ (λ i. get_or source (0 + i) 0)
            (λ i lt.
              let e : b.size + i - b.size ≡ 0 + i = omega arith in
              ground (arith, ap (λ k. get_or source k 0) e))
          ∙ sym (take-drop-tabulate source 0 n (omega arith)))

module _ (b : CircularBuffer) (n : ℕ) (v : IsValid b) (fits : n ≤ b.size) where
  size-read_out : (read_out b n).1.size ≡ b.size - n
  unfolding read_out
  size-read_out = ground arith

  contents-read_out : contents (read_out b n).1 ≡ drop n (contents b)
  unfolding contents
  contents-read_out =
      tabulate_cong _ (b.size - n) _ _ size-read_out moved
      ∙ sym (drop-tabulate n b.size (byte_at b) fits)
    where
      moved : (i : ℕ) → i < b.size - n → byte_at (read_out b n).1 i ≡ byte_at b (n + i)
      moved i lt = unfold read_out in ground arith

  straight : n ≤ b.capacity - b.tail → take n (drop b.tail b.bytes) ≡ tabulate n (byte_at b)
  straight short =
      take-drop-tabulate b.bytes b.tail n (omega arith)
      ∙ tabulate_ext n _ (byte_at b) (λ i lt. ground arith)

  around :
      b.capacity - b.tail < n
      → take (b.capacity - b.tail) (drop b.tail b.bytes) ++ take (n - (b.capacity - b.tail)) b.bytes
        ≡ tabulate n (byte_at b)
  around long =
      ap₂ ◌++◌
        (take-drop-tabulate b.bytes b.tail (b.capacity - b.tail) (omega arith)
          ∙ tabulate_ext _ _ (byte_at b) (λ i lt. ground arith))
        (take-drop-tabulate b.bytes 0 (n - (b.capacity - b.tail)) (omega arith)
          ∙ tabulate_ext _ _ (λ i. byte_at b (b.capacity - b.tail + i)) (λ i lt. second i))
      ∙ sym (tabulate-add (b.capacity - b.tail) (n - (b.capacity - b.tail)) (byte_at b))
      ∙ ap (λ k. tabulate k (byte_at b)) (omega arith)
    where
      second : (i : ℕ) → get_or b.bytes (0 + i) 0 ≡ byte_at b (b.capacity - b.tail + i)
      second i = ap (λ k. get_or b.bytes k 0) (ground arith)

  bytes-read_out : (read_out b n).0 ≡ take n (contents b)
  unfolding read_out contents
  bytes-read_out =
      elim (Bool-cases (leb n (b.capacity - b.tail))) [
        | inl short ↦ ground (arith, straight)
        | inr long ↦ ground (arith, around)
      ]
      ∙ sym (take-tabulate n b.size (byte_at b) fits)

-- What `write` and `read` promise: a queue of at most `capacity` bytes. A write takes what fits,
-- a read hands out what there is.
unfoldable pub enqueue : ℕ → List ℕ → List ℕ → ℕ → ℕ × List ℕ
enqueue capacity queue source count =
    let n = min count (capacity - length queue) in (n, queue ++ take n source)

unfoldable pub dequeue : List ℕ → ℕ → ℕ × List ℕ × List ℕ
dequeue queue count = let n = min count (length queue) in (n, take n queue, drop n queue)

pub length-contents : (b : CircularBuffer) → length (contents b) ≡ b.size
unfolding contents
length-contents b = length-tabulate b.size (byte_at b)

-- On a valid buffer, `write` from memory that holds the bytes returns how many of them fit, and
-- appends exactly those to the queue, in order, also where they go round the end of the memory.
pub write_refines :
    (b : CircularBuffer) (source : List ℕ) (count : ℕ)
    → IsValid b
    → count ≤ length source
    → let (n, b') = write b source count in
      (n, contents b') ≡ enqueue b.capacity (contents b) source count
unfolding write enqueue
write_refines b source count v given = ground (
  arith,
  length-contents b,
  contents-write_bytes b source (min count (b.capacity - b.size)) v,
  append-nil (contents b),
)

-- On a valid buffer, `read` hands out as many of the oldest bytes as are asked for and there are, and keeps the rest.
pub read_refines :
    (b : CircularBuffer) (count : ℕ)
    → IsValid b
    → let (n, out, b') = read b count in (n, out, contents b') ≡ dequeue (contents b) count
unfolding read dequeue
read_refines b count v = ground (
  arith,
  length-contents b,
  contents-read_out b (min count b.size) v,
  bytes-read_out b (min count b.size) v,
)
