-- ===== src/Contents/Fix/Time.antt =====
-- The seconds of the weeks before a block, which `GPSFixCallback` computes as an `int`.
use rosaic.Prelude.{ℕ, ◌*◌, ◌≡◌, arith, ltb, if◌then◌else◌, none, some}
use rosaic.Contents.Fix.{week_seconds}

-- The week of GPS from which on the product overflows.
abbrev first_lost : ℕ
first_lost = 3551

-- The product is the number of seconds in the weeks below 3551 and overflows from there on, at the
-- week 65535 of a receiver without the time as well.
week_seconds_bounds :
    (wnc : ℕ)
    → week_seconds wnc ≡ (if ltb wnc first_lost then some (wnc * (7 * 24 * 60 * 60)) else none)
unfolding week_seconds
week_seconds_bounds wnc = ground arith
