-- ===== src/Time/Waiting.antt =====
-- The pause between two messages of a file, against the time that lies between their stamps.
use rosaic.Prelude.{ℕ, ◌+◌, ◌-◌, ◌*◌, ◌/◌, ◌^◌, ◌≤◌, ◌<◌, ◌≡◌, arith}
use rosaic.Time.{Stamp, Pause, pause}

-- Both parts of the stamp are in range.
abbrev pub IsStamp : Stamp → Type 0
IsStamp t = (t.sec < 2 ^ 32) × (t.nsec < 10 ^ 9)

abbrev pub total : Pause → ℕ
total p = p.seconds * 10 ^ 6 + p.microseconds

-- The time between the stamps, in nanoseconds.
abbrev pub between : Stamp → Stamp → ℕ
between old new = (new.sec * 10 ^ 9 + new.nsec) - (old.sec * 10 ^ 9 + old.nsec)

-- Where neither part of the stamp falls, the pause is the time between the stamps, rounded down to
-- microseconds.
pub pause_exact :
    (old new : Stamp)
    → IsStamp old
    → IsStamp new
    → old.sec ≤ new.sec
    → old.nsec ≤ new.nsec
    → total (pause old new) ≡ between old new / 1000
unfolding pause
pause_exact old new vo vn sec nsec = omega arith

-- Where the nanoseconds fall, though the time goes on, the pause is more than four seconds longer
-- than the time between the stamps.
pub pause_overshoots :
    (old new : Stamp)
    → IsStamp old
    → IsStamp new
    → old.sec < new.sec
    → new.nsec < old.nsec
    → between old new / 1000 + 4294966 ≤ total (pause old new)
unfolding pause
pause_overshoots old new vo vn sec nsec = omega arith

-- Where the stamp goes back by a day or less, the pause is more than 136 years.
pub pause_backwards :
    (old new : Stamp)
    → IsStamp old
    → IsStamp new
    → new.sec < old.sec
    → old.sec ≤ new.sec + 86400
    → 136 * 365 * 86400 ≤ (pause old new).seconds
unfolding pause
pause_backwards old new vo vn back day = omega arith
