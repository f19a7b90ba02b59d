-- ===== src/Parsers/Gga.antt =====
-- parsers/nmea_parsers/gpgga.cpp: `GpggaParser::parseASCII`.
pub mod Accepts
pub mod Tests
use rosaic.Prelude.{
  ℕ, Bool, true, false, not, if◌then◌else◌, ◌==◌, Option, none, some, List, [], ◌∷◌, length, map,
}
use rosaic.Nmea.{Field}
use rosaic.Time.{Stamp}
use rosaic.Parsers.{ℤ, Conversion, parse_float, Parsed, parsed, refused, out_of_range, ◌>>=◌, field}
use rosaic.Parsers.Doubles.{
  Doubles, Host, to_double, parse_double, degrees, convert_utc_double_to_seconds, parse_uint32,
  stamp, has_no_time,
}

-- What is `none` keeps its value from the constructor of the message; the age keeps that of a variable
-- that was never set.
pub record Gpgga (D F : Type 0) : Type 0 where
  pub message_id : Field
  pub utc_seconds : D
  pub stamp : Option Stamp
  pub lat : D
  pub lon : D
  pub lat_dir : Field
  pub lon_dir : Field
  pub gps_qual : Option ℕ
  pub num_sats : Option ℕ
  pub hdop : Option F
  pub alt : Option F
  pub altitude_units : Field
  pub undulation : Option F
  pub undulation_units : Field
  pub diff_age : Option ℕ
  pub station_id : Field

-- The time part: the seconds since midnight and the stamp.
pub record Clocked (D : Type 0) : Type 0 where
  pub seconds : D
  pub at : Option Stamp

-- A conversion that makes the message invalid where it fails.
abbrev pub valid : {A : Type 0} → Option A → Parsed A
valid none = refused
valid (some a) = parsed a

abbrev pub round_age : {D : Type 0} → Doubles D → Option D → Option ℕ
round_age doubles none = none
round_age doubles (some d) = some (doubles.rounded d)

module _ {D F : Type 0} (doubles : Doubles D) (host : Host) (strtol : Field → Conversion ℤ)
    (strtof : Field → Conversion F) where
  unfoldable pub clock : Field → Parsed (Clocked D)
  clock string =
      if has_no_time string
      then parsed (record { seconds = doubles.of_uint 0; at = none })
      else elim (to_double doubles string) [
        | none ↦ refused
        | some utc ↦ parsed (record {
          seconds =
              if host.use_gnss_time
              then convert_utc_double_to_seconds doubles utc
              else doubles.of_uint 0;
          at = some (stamp doubles host utc);
        })
      ]

  -- `parseASCII`. Once a conversion has failed, the message is refused at the end in every case.
  unfoldable pub parse_ascii : List Field → Parsed (Gpgga D F)
  parse_ascii body = if not (length body == 16) then refused else (do
    id ← field body 0
    utc ← field body 1
    time ← clock utc
    lat_field ← field body 2
    lat ← valid (parse_double doubles lat_field)
    lon_field ← field body 4
    lon ← valid (parse_double doubles lon_field)
    lat_dir ← field body 3
    lon_dir ← field body 5
    qual_field ← field body 6
    gps_qual ← valid (parse_uint32 strtol qual_field)
    sats_field ← field body 7
    num_sats ← valid (parse_uint32 strtol sats_field)
    hdop_field ← field body 8
    hdop ← valid (parse_float strtof hdop_field)
    alt_field ← field body 9
    alt ← valid (parse_float strtof alt_field)
    altitude_units ← field body 10
    undulation_field ← field body 11
    undulation ← valid (parse_float strtof undulation_field)
    undulation_units ← field body 12
    age_field ← field body 13
    age ← valid (parse_double doubles age_field)
    station_id ← field body 14
    parsed (record {
      message_id = id;
      utc_seconds = time.seconds;
      stamp = time.at;
      lat = degrees doubles lat;
      lon = degrees doubles lon;
      lat_dir = lat_dir;
      lon_dir = lon_dir;
      gps_qual = gps_qual;
      num_sats = num_sats;
      hdop = hdop;
      alt = alt;
      altitude_units = altitude_units;
      undulation = undulation;
      undulation_units = undulation_units;
      diff_age = round_age doubles age;
      station_id = station_id;
    }))
