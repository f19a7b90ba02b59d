-- ===== src/FileReading/Ends.antt =====
-- The positions at which the loop over a PCAP file calls `readCallback`.
use rosaic.Prelude.{ℕ, ◌+◌, ◌≤◌, ◌<◌, ◌≡◌, List, [], ◌∷◌, length}
use mathlib.Core.List.{Memᴰ}
use rosaic.CallbackHandlers.State.{Handlers}
use rosaic.CallbackHandlers.Progress.{Aborts}
use rosaic.FileReading.{
  Vector, memory_at, Round, onwards, over, broken, pcap_size, End, done, failed,
}

-- Positions that lead over `total` bytes, no more than `size` at a time, and past them.
pub data Calls (total size : ℕ) : ℕ → List ℕ → Type 0 where
  last : {at : ℕ} → total ≤ at → Calls total size at (at ∷ [])
  more :
      {at next : ℕ} {calls : List ℕ}
      → at < total
      → at < next
      → next ≤ at + size
      → Calls total size next calls
      → Calls total size at (at ∷ calls)

-- How the loop ends that starts at a position.
data Ended (v : Vector) (at : ℕ) (e : End) : Type 0 where
  regularly :
      (calls : List ℕ) (h : Handlers)
      → e ≡ done calls h
      → Calls (length v.bytes) pcap_size at calls
      → Ended v at e
  broken_at :
      (calls : List ℕ) (here : ℕ)
      → e ≡ failed calls
      → Memᴰ here calls
      → Aborts (memory_at v here) pcap_size
      → Ended v at e

-- What a round may do.
data Stepped (v : Vector) (at : ℕ) (r : Round) : Type 0 where
  ends : (h : Handlers) → length v.bytes ≤ at → r ≡ over h → Stepped v at r
  goes_on :
      (next : ℕ) (h : Handlers)
      → at < length v.bytes
      → at < next
      → next ≤ at + pcap_size
      → r ≡ onwards next h
      → Stepped v at r
  breaks : Aborts (memory_at v at) pcap_size → r ≡ broken → Stepped v at r
