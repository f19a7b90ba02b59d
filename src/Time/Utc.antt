-- ===== src/Time/Utc.antt =====
-- The time of day that is computed from a GPS time, and read back from an NMEA field.
use rosaic.Prelude.{ℕ, ◌^◌, ◌+◌, ◌-◌, ◌*◌, ◌/◌, ◌%◌, ◌≤◌, ◌<◌, ◌≡◌, arith}
use rosaic.Time.{Clock, day_ms, gps_clock, minus_leap, utc_number, hours, minutes, whole}

pub record IsClock (c : Clock) : Type 0 where
  pub hour : c.hh < 24
  pub minute : c.mm < 60
  pub second : c.ss < 60
  pub hundredth : c.hs < 100

-- The seconds since midnight.
abbrev pub seconds : Clock → ℕ
seconds c = c.hh * 3600 + c.mm * 60 + c.ss

-- Every time of week gives a time of day, and the same one up to hundredths of a second.
pub gps_clock-IsClock :
    (tow : ℕ)
    → IsClock (gps_clock tow)
      × (seconds (gps_clock tow) * 100 + (gps_clock tow).hs ≡ tow % day_ms / 10)
unfolding gps_clock
gps_clock-IsClock tow = (
  record {
    hour = omega arith;
    minute = omega arith;
    second = omega arith;
    hundredth = omega arith;
  },
  omega arith,
)

-- Taking off at most 60 leap seconds gives a time of day, that many seconds earlier and round
-- midnight, and leaves the hundredths.
pub minus_leap-IsClock :
    (leap : ℕ) (c : Clock)
    → leap ≤ 60
    → IsClock c
    → IsClock (minus_leap leap c)
      × (seconds (minus_leap leap c) ≡ (seconds c + 86400 - leap) % 86400)
      × ((minus_leap leap c).hs ≡ c.hs)
unfolding minus_leap
minus_leap-IsClock leap c few v = ground arith

-- The number hhmmss that is printed is read back as the same hours, minutes and seconds.
pub utc_number_fields :
    (c : Clock)
    → IsClock c
    → (hours (utc_number c) ≡ c.hh)
      × (minutes (utc_number c) ≡ c.mm)
      × (whole (utc_number c) - hours (utc_number c) * 10000 - minutes (utc_number c) * 100 ≡ c.ss)
      × (utc_number c % 100 ≡ c.hs)
unfolding hours minutes utc_number
utc_number_fields c v = omega arith

pub utc_number_small : (c : Clock) → IsClock c → utc_number c < 2 ^ 30
unfolding utc_number
utc_number_small c v = omega (arith, v.hour, v.minute, v.second, v.hundredth)
