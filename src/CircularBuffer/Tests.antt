-- ===== src/CircularBuffer/Tests.antt =====
-- The circular buffer on small inputs, and its theorems at inputs that meet their hypotheses.
use rosaic.Prelude.{◌≡◌, refl, arith, List, [], ◌∷◌}
use rosaic.CircularBuffer.{CircularBuffer, write_bytes, write, read_out, read}
use rosaic.CircularBuffer.Memory.{memcpy}
use rosaic.CircularBuffer.Valid.{IsValid}
use rosaic.CircularBuffer.Refine.{contents}
use rosaic.CircularBuffer.Client.{Call, put, get, run, run_queue, run_refines}

abbrev script : List Call
script = put (1 ∷ 2 ∷ 3 ∷ []) ∷ get 2 ∷ put (4 ∷ 5 ∷ 6 ∷ []) ∷ get 9 ∷ []

abbrev fresh : CircularBuffer
fresh = record { head = 0; tail = 0; size = 0; capacity = 4; bytes = 9 ∷ 9 ∷ 9 ∷ 9 ∷ [] }

-- 7, then 8, round the end of the memory.
abbrev wrapped : CircularBuffer
wrapped = record { head = 1; tail = 3; size = 2; capacity = 4; bytes = 8 ∷ 9 ∷ 9 ∷ 7 ∷ [] }

wrapped-IsValid : IsValid wrapped
wrapped-IsValid = omega arith

run-fresh : run fresh script ≡ (3, []) ∷ (2, 1 ∷ 2 ∷ []) ∷ (3, []) ∷ (4, 3 ∷ 4 ∷ 5 ∷ 6 ∷ []) ∷ []
unfolding run write write_bytes read read_out memcpy
run-fresh = refl

write_stops_when_full : (write wrapped (1 ∷ 2 ∷ 3 ∷ []) 3).0 ≡ 2
unfolding write write_bytes memcpy
write_stops_when_full = refl

run_refines_example : run wrapped script ≡ run_queue 4 (7 ∷ 8 ∷ []) script
unfolding contents
run_refines_example = run_refines wrapped script wrapped-IsValid
