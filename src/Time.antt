-- ===== src/Time.antt =====
-- The time stamps: `timestampSBF` of communication/rx_message.cpp, `convertUTCtoUnix` of
-- parsers/parsing_utilities.cpp, and the waiting between two messages of a
-- file, as every branch of `RxMessage::read` does it.
--
-- A UTC time in the form hhmmss.ss is kept as the whole number of its hundredths of a second, so
-- that 12:34:56.78 is 12345678. The double of the source is the one nearest to that time; the number of
-- whole seconds is the same, and `utc_double * 100`, cut to an integer, is a parameter.
pub mod Utc
pub mod Unix
pub mod Waiting
mod Tests
use rosaic.Prelude.{
  ℕ, ◌+◌, ◌-◌, ◌*◌, ◌/◌, ◌%◌, ◌^◌, Bool, true, false, not, ◌&&◌, ◌||◌, if◌then◌else◌, leb, ltb,
  ◌==◌,
}

-- `ros::Time`
pub record Stamp : Type 0 where
  pub sec : ℕ
  pub nsec : ℕ

-- The time of day that `timestampSBF` prints as "%02u%02u%02u.%02u".
pub record Clock : Type 0 where
  pub hh : ℕ
  pub mm : ℕ
  pub ss : ℕ
  pub hs : ℕ

abbrev pub day_ms : ℕ
day_ms = 1000 * 60 * 60 * 24

-- The time of day of a GPS time of week in milliseconds, before the leap seconds.
pub gps_clock : ℕ → Clock
gps_clock tow =
    let hh = tow % day_ms / (60 * 60 * 1000) in
    let mm = (tow % day_ms - hh * (60 * 60 * 1000)) / (60 * 1000) in
    let ss = (tow % day_ms - hh * (60 * 60 * 1000) - mm * (60 * 1000)) / 1000 in
    let hs = (tow % day_ms - hh * (60 * 60 * 1000) - mm * (60 * 1000) - ss * 1000) / 10 in
    record { hh = hh; mm = mm; ss = ss; hs = hs }

-- `60 - (g_leap_seconds - ss)`: 32-bit arithmetic, stored in 16 bits.
abbrev pub borrowed : ℕ → ℕ → ℕ
borrowed leap ss = (60 + 2 ^ 32 - (leap - ss)) % 2 ^ 32 % 2 ^ 16

-- The ladder that takes the leap seconds off.
pub minus_leap : ℕ → Clock → Clock
minus_leap leap c =
    if leb leap c.ss
    then record c { ss = c.ss - leap }
    else if leb 1 c.mm
    then record c { mm = c.mm - 1; ss = borrowed leap c.ss }
    else if leb 1 c.hh
    then record c { hh = c.hh - 1; mm = 59; ss = borrowed leap c.ss }
    else record c { hh = 23; mm = 59; ss = borrowed leap c.ss }

-- The number that the printed time of day is read back as, in hundredths.
pub utc_number : Clock → ℕ
utc_number c = (c.hh * 10000 + c.mm * 100 + c.ss) * 100 + c.hs

-- `static_cast<uint32_t>(utc_double)`
abbrev pub whole : ℕ → ℕ
whole utc = utc / 100 % 2 ^ 32

pub hours : ℕ → ℕ
hours utc = whole utc / 10000

pub minutes : ℕ → ℕ
unfolding hours
minutes utc = (whole utc - hours utc * 10000) / 100

-- What the C library's calendar is relied on for: `gmtime` splits a time into its date and the
-- time of day, and `timegm` puts them together, at midnight of the date and so many seconds.
pub record Calendar : Type 1 where
  pub Date : Type 0
  pub gmtime_date : ℕ → Date
  pub timegm_midnight : Date → ℕ

module _ (calendar : Calendar) where
  open calendar use {gmtime_date, timegm_midnight}

  -- `timegm` on the fields that `convertUTCtoUnix` sets.
  pub timegm : calendar.Date → ℕ → ℕ → ℕ → ℕ
  timegm date hour minute second = timegm_midnight date + hour * 3600 + minute * 60 + second

  -- `convertUTCtoUnix`, with the time that `time(0)` returns.
  pub convert_utc_to_unix : ℕ → ℕ → ℕ
  convert_utc_to_unix now utc =
      timegm (gmtime_date now) (hours utc) (minutes utc)
        (whole utc - hours utc * 10000 - minutes utc * 100)

  -- `timestampSBF`; `now` is both `time(0)` and `ros::Time::now()`, and `truncated` gives
  -- `static_cast<uint32_t>(utc_double * 100)` for the double that `toDouble` reads.
  pub timestamp_sbf : (ℕ → ℕ) → ℕ → Stamp → ℕ → Bool → Stamp
  timestamp_sbf truncated leap now tow use_gnss =
      let utc = utc_number (minus_leap leap (gps_clock tow)) in
      if use_gnss
      then record {
        sec = convert_utc_to_unix now.sec utc % 2 ^ 32;
        nsec = truncated utc % 100 * 10000000;
      }
      else now

-- The stamp of an NMEA sentence: `(static_cast<uint32_t>(utc_double * 100) % 100) * 10000`.
pub nmea_nanoseconds : ℕ → ℕ
nmea_nanoseconds utc = utc % 100 * 10000

-- How long a branch of `read` sleeps between two messages of a file.
pub record Pause : Type 0 where
  pub seconds : ℕ
  pub microseconds : ℕ

-- `sleep(g_unix_time.sec - unix_old.sec)` and `usleep(abs(int((nsec - nsec) / 1000)))`: both
-- differences are unsigned. A quotient of at most 4294967 is an `int` as it stands.
pub pause : Stamp → Stamp → Pause
pause old new = record {
  seconds = (new.sec + 2 ^ 32 - old.sec) % 2 ^ 32;
  microseconds = (new.nsec + 2 ^ 32 - old.nsec) % 2 ^ 32 / 1000;
}

-- The test before it: the first message and one with the stamp of the last are not waited for.
pub waits : Stamp → Stamp → Bool
waits old new =
    not (old.sec == 0 && old.nsec == 0) && (not (new.sec == old.sec) || not (new.nsec == old.nsec))
