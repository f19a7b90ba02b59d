-- ===== src/FileReading.antt =====
-- communication/communication_core.cpp: `initializeSBFFileReading` and `initializePCAPFileReading`,
-- from the point where the file stands in `vec_buf`.
pub mod Rounds
pub mod Ends
pub mod LongBlocks
mod Tests
use rosaic.Prelude.{ℕ, zero, suc, ◌+◌, List, [], ◌∷◌, ◌++◌, drop, if◌then◌else◌, leb, ◌==◌}
use rosaic.Read.State.{Env}
use rosaic.CallbackHandlers.State.{Settings, Handlers}
use rosaic.CallbackHandlers.{Walk, running, finished, threw, undefined, aborted, read_callback}

-- The bytes of the file; `behind` is what lies in memory behind the vector, where the source reads
-- too.
pub record Vector : Type 0 where
  pub bytes : List ℕ
  pub behind : List ℕ

-- The memory from a position of the vector on.
abbrev pub memory_at : Vector → ℕ → List ℕ
memory_at v at = drop at (v.bytes ++ v.behind)

-- A round of a loop: it goes on at a position, ends, or has undefined behaviour in `readCallback`.
pub data Round : Type 0 where
  onwards : ℕ → Handlers → Round
  over : Handlers → Round
  broken : Round

-- `buffer_size` of the two functions; the second is `PcapDevice::BUFFSIZE`.
abbrev pub sbf_size : ℕ
sbf_size = 8192

abbrev pub pcap_size : ℕ
pcap_size = 100

-- What the two loops add to the pointer for a thrown position.
abbrev pub sbf_skip : ℕ → ℕ
sbf_skip at = at

abbrev pub pcap_skip : ℕ → ℕ
pcap_skip at = if at == 0 then 1 else at

-- The body of a loop behind `readCallback`, with `at` the distance of `to_be_parsed` from the
-- start of the vector, and `vec_size` the size of the vector.
abbrev pub after_call : ℕ → (ℕ → ℕ) → ℕ → ℕ → Walk → Round
after_call size skip vec_size at (running h) = broken
after_call size skip vec_size at (finished h) =
    if leb vec_size at then over h else onwards (at + size) h
after_call size skip vec_size at (threw failed h) =
    if leb vec_size at then over h else onwards (at + skip failed) h
after_call size skip vec_size at undefined = broken
after_call size skip vec_size at aborted = broken

-- How a loop ends, with the positions that `readCallback` was called at, in order.
pub data End : Type 0 where
  done : List ℕ → Handlers → End
  failed : List ℕ → End
  unfinished : End

abbrev pub called_at : ℕ → End → End
called_at at (done calls h) = done (at ∷ calls) h
called_at at (failed calls) = failed (at ∷ calls)
called_at at unfinished = unfinished

-- The rest of a loop behind a round that began at a position.
abbrev pub go_on : ℕ → (ℕ → Handlers → End) → Round → End
go_on at rest (onwards next h) = called_at at (rest next h)
go_on at rest (over h) = done (at ∷ []) h
go_on at rest broken = failed (at ∷ [])
