-- ===== src/Parsers/Doubles.antt =====
-- The conversions to floating-point numbers that the parsers of GGA and RMC use, and
-- `convertDMSToDegrees`. The arithmetic of the two formats is a parameter.
use rosaic.Prelude.{
  ℕ, ◌+◌, ◌-◌, ◌*◌, ◌/◌, ◌%◌, ◌^◌, Bool, ◌||◌, if◌then◌else◌, Option, none, some, [], ◌∷◌,
}
use rosaic.MessageKey.{list_eq}
use rosaic.Nmea.{Field}
use rosaic.Time as Time
use rosaic.Time.{Stamp, Calendar}
use rosaic.Parsers.{ℤ, Conversion, is_empty, is_whole, to_uint32}

-- A format with the operations on it: the casts from and to `uint32_t`, `round`, and the arithmetic
-- with the constants of the source.
pub record Doubles (D : Type 0) : Type 0 where
  pub to_uint : D → ℕ
  pub of_uint : ℕ → D
  pub rounded : D → ℕ
  pub plus : D → D → D
  pub minus : D → D → D
  pub over_60 : D → D
  pub times_100 : D → D
  pub in_mps : D → D
  pub strtod : Field → Conversion D

-- The settings and the C library: `g_use_gnss_time`, the time of the host and its calendar.
pub record Host : Type 1 where
  pub use_gnss_time : Bool
  pub now : Stamp
  pub calendar : Calendar

module _ {D : Type 0} (doubles : Doubles D) where
  open doubles use {to_uint, of_uint, rounded, plus, minus, over_60, times_100, strtod}

  -- `toDouble`; `none` is the result false.
  unfoldable pub to_double : Field → Option D
  to_double string =
      if is_empty string
      then none
      else if is_whole string (strtod string)
      then some (strtod string).value
      else none

  -- `parseDouble`; the variable keeps what it held at an empty string, here `some none`.
  unfoldable pub parse_double : Field → Option (Option D)
  parse_double string = elim (to_double string) [
    | none ↦ if is_empty string then some none else none
    | some d ↦ some (some d)
  ]

  -- `convertDMSToDegrees`
  unfoldable pub convert_dms_to_degrees : D → D
  convert_dms_to_degrees dms =
      let whole_degrees = to_uint dms / 100 in
      let minutes = minus dms (of_uint (whole_degrees * 100 % 2 ^ 32)) in
      plus (of_uint whole_degrees) (over_60 minutes)

  -- A coordinate, which starts as 0.
  abbrev pub degrees : Option D → D
  degrees none = convert_dms_to_degrees (of_uint 0)
  degrees (some dms) = convert_dms_to_degrees dms

  -- `convertUTCDoubleToSeconds`
  unfoldable pub convert_utc_double_to_seconds : D → D
  convert_utc_double_to_seconds utc =
      let hours = to_uint utc / 10000 in
      let minutes = (to_uint utc - hours * 10000) / 100 in
      plus (minus utc (of_uint (hours * 10000 + minutes * 100)))
        (of_uint (hours * 3600 + minutes * 60))

  -- `static_cast<uint32_t>(utc_double * 100)`
  abbrev pub hundredths : D → ℕ
  hundredths utc = to_uint (times_100 utc)

-- `parseUInt32`, with a variable that keeps what it held at an empty string.
unfoldable pub parse_uint32 : (Field → Conversion ℤ) → Field → Option (Option ℕ)
parse_uint32 strtol string = elim (to_uint32 strtol string) [
  | none ↦ if is_empty string then some none else none
  | some n ↦ some (some n)
]

-- The stamp of a sentence with a time, as both parsers set it.
unfoldable pub stamp : {D : Type 0} → Doubles D → Host → D → Stamp
stamp doubles host utc =
    if host.use_gnss_time
    then record {
      sec =
          Time.convert_utc_to_unix host.calendar host.now.sec (100 * doubles.to_uint utc) % 2 ^ 32;
      nsec = Time.nmea_nanoseconds (hundredths doubles utc);
    }
    else host.now

-- The time field is empty or "0": there is no time.
abbrev pub has_no_time : Field → Bool
has_no_time string = is_empty string || list_eq string (b'0' ∷ [])
