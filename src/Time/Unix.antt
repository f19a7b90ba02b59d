-- ===== src/Time/Unix.antt =====
-- The Unix time of a time stamp, against the day of the host's clock.
use rosaic.Prelude.{ℕ, ◌+◌, ◌-◌, ◌*◌, ◌/◌, ◌%◌, ◌^◌, ◌≤◌, ◌<◌, ◌≡◌, ◌⊎◌, arith, true}
use rosaic.Time.{
  Clock, Calendar, Stamp, utc_number, gps_clock, minus_leap, timegm, convert_utc_to_unix,
  timestamp_sbf, day_ms, nmea_nanoseconds,
}
use rosaic.Time.Utc.{
  IsClock, seconds, utc_number_fields, utc_number_small, gps_clock-IsClock, minus_leap-IsClock,
}

-- POSIX: a day has 86400 seconds, and `timegm` inverts `gmtime`.
pub record IsPosix (calendar : Calendar) : Type 0 where
  pub midnight : (t : ℕ) → calendar.timegm_midnight (calendar.gmtime_date t) ≡ t - t % 86400

-- IEEE doubles: the product of the double nearest to a number of hundredths, below 2^30, with 100 is off
-- by much less than one, so that cutting it to an integer gives the number or the one before; and whole
-- seconds are exact.
pub record IsTruncation (truncated : ℕ → ℕ) : Type 0 where
  pub above : (u : ℕ) → u < 2 ^ 30 → truncated u ≤ u
  pub below : (u : ℕ) → u < 2 ^ 30 → u ≤ truncated u + 1
  pub exact : (u : ℕ) → u < 2 ^ 30 → u % 100 ≡ 0 → truncated u ≡ u

module _ (calendar : Calendar) (posix : IsPosix calendar) (truncated : ℕ → ℕ) where
  -- `convertUTCtoUnix` puts a time of day on the date of the host's clock, always: it never adds or
  -- subtracts a day.
  pub convert_utc_to_unix-utc_number :
      (now : ℕ) (c : Clock)
      → IsClock c
      → convert_utc_to_unix calendar now (utc_number c) ≡ now - now % 86400 + seconds c
  unfolding convert_utc_to_unix timegm
  convert_utc_to_unix-utc_number now c v = omega (arith, posix.midnight now, utc_number_fields c v)

  -- The stamp of an SBF block, with a POSIX calendar, IEEE doubles and at most 60 leap seconds, if the
  -- host's clock shows the day of the message: for a message of Unix time `t`, below 2^32, the seconds are
  -- `t`, and the nanoseconds are those of the time of week down to hundredths of a second, or a hundredth
  -- of a second less.
  pub timestamp_sbf-sec :
      IsTruncation truncated
      → (leap : ℕ) (now : Stamp) (tow t : ℕ) → leap ≤ 60
      → t < 2 ^ 32
      → t % 86400 ≡ (tow % day_ms / 1000 + 86400 - leap) % 86400
      → now.sec / 86400 ≡ t / 86400
      → let stamp = timestamp_sbf calendar truncated leap now tow true in
        (stamp.sec ≡ t)
        × ((stamp.nsec ≡ tow % 1000 / 10 * 10000000)
            ⊎ (stamp.nsec + 10000000 ≡ tow % 1000 / 10 * 10000000))
  unfolding timestamp_sbf
  timestamp_sbf-sec ieee leap now tow t few small time_of_day day =
      let gps = gps_clock-IsClock tow in
      let utc = minus_leap-IsClock leap (gps_clock tow) few gps.0 in
      let u = utc_number (minus_leap leap (gps_clock tow)) in
      let fields = utc_number_fields (minus_leap leap (gps_clock tow)) utc.0 in
      let unix = convert_utc_to_unix-utc_number now.sec (minus_leap leap (gps_clock tow)) utc.0 in
      let short : u < 2 ^ 30 = utc_number_small (minus_leap leap (gps_clock tow)) utc.0 in
      let hundredths : u % 100 ≡ tow % 1000 / 10 = omega (arith, gps, utc, fields) in
      (
        omega (arith, gps, utc, unix),
        ground (arith, hundredths, ieee.above u short, ieee.below u short, ieee.exact u short),
      )

  -- If the host's clock shows the day after that of the message, the stamp is a day late.
  pub timestamp_sbf_late :
      (leap : ℕ) (now : Stamp) (tow t : ℕ)
      → leap ≤ 60
      → t + 86400 < 2 ^ 32
      → t % 86400 ≡ (tow % day_ms / 1000 + 86400 - leap) % 86400
      → now.sec / 86400 ≡ t / 86400 + 1
      → (timestamp_sbf calendar truncated leap now tow true).sec ≡ t + 86400
  unfolding timestamp_sbf
  timestamp_sbf_late leap now tow t few small time_of_day day =
      let gps = gps_clock-IsClock tow in
      let utc = minus_leap-IsClock leap (gps_clock tow) few gps.0 in
      let unix = convert_utc_to_unix-utc_number now.sec (minus_leap leap (gps_clock tow)) utc.0 in
      omega (arith, gps, utc, unix)

-- For one time of day the stamp of an SBF block has a thousand times the nanoseconds of the stamp of
-- an NMEA sentence, which counts a hundredth of a second as 10000 nanoseconds.
pub nmea_nanoseconds-timestamp_sbf :
    (calendar : Calendar) (truncated : ℕ → ℕ) (leap : ℕ) (now : Stamp) (tow : ℕ)
    → (timestamp_sbf calendar truncated leap now tow true).nsec
      ≡ 1000 * nmea_nanoseconds (truncated (utc_number (minus_leap leap (gps_clock tow))))
unfolding nmea_nanoseconds timestamp_sbf
nmea_nanoseconds-timestamp_sbf calendar truncated leap now tow = omega arith
