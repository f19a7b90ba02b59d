-- ===== src/FileReading/Tests.antt =====
-- Files with a block that is too long, and without any block.
use rosaic.Prelude.{◌≡◌, refl, arith, List, [], ◌∷◌}
use rosaic.Read.Tests.{env}
use rosaic.CallbackHandlers.Tests.{settings, handlers, zeros}
use rosaic.CallbackHandlers.CutOff.{IsCutOff}
use rosaic.FileReading.{Vector, memory_at, unfinished, sbf_size, pcap_size, sbf_skip}
use rosaic.FileReading.Rounds.{rounds}
use rosaic.FileReading.LongBlocks.{sbf_loop_stuck}

-- A byte of noise, then a header that names 65535 bytes.
abbrev long_file : Vector
long_file = record { bytes = 7 ∷ 0x24 ∷ 0x40 ∷ 0 ∷ 0 ∷ 0 ∷ 0 ∷ 0xff ∷ 0xff ∷ []; behind = [] }

-- Noise, and zeros behind it.
abbrev noise : Vector
noise = record { bytes = 7 ∷ 8 ∷ 9 ∷ []; behind = zeros 216 }

long_file-sbf : IsCutOff (memory_at long_file 1) sbf_size
long_file-sbf = record { first = refl; second = refl; long = omega arith }

long_file-pcap : IsCutOff (memory_at long_file 1) pcap_size
long_file-pcap = record { first = refl; second = refl; long = omega arith }

sbf_loop_stuck_example : rounds env settings sbf_size sbf_skip long_file 5 1 handlers ≡ unfinished
sbf_loop_stuck_example =
    sbf_loop_stuck env settings long_file 1 (omega arith) long_file-sbf 5 handlers
