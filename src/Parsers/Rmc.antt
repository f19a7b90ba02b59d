-- ===== src/Parsers/Rmc.antt =====
-- parsers/nmea_parsers/gprmc.cpp: `GprmcParser::parseASCII`.
pub mod Dates
mod Tests
use rosaic.Prelude.{
  ℕ, Bool, true, false, not, ◌&&◌, ◌||◌, if◌then◌else◌, ltb, ◌==◌, Option, none, some, List, [],
  ◌∷◌, ◌++◌, length, take, drop,
}
use rosaic.MessageKey.{list_eq}
use rosaic.Nmea.{Field}
use rosaic.Time.{Stamp}
use rosaic.Parsers.{
  ℤ, Conversion, is_empty, parse_float, Parsed, parsed, refused, out_of_range, ◌>>=◌, field,
}
use rosaic.Parsers.Doubles.{
  Doubles, Host, to_double, parse_double, degrees, convert_utc_double_to_seconds, stamp,
  has_no_time,
}

-- What is `none` keeps its value from the constructor of the message.
pub record Gprmc (D F : Type 0) : Type 0 where
  pub message_id : Field
  pub utc_seconds : D
  pub stamp : Option Stamp
  pub position_status : Field
  pub lat : D
  pub lon : D
  pub lat_dir : Field
  pub lon_dir : Field
  pub speed : Option F
  pub track : Option F
  pub date : Field
  pub mag_var : Option F
  pub mag_var_direction : Field
  pub mode_indicator : Option Field

pub record Clocked (D : Type 0) : Type 0 where
  pub seconds : D
  pub at : Option Stamp

-- ddmmyy as 20yy-mm-dd.
unfoldable pub iso_date : Field → Field
iso_date date =
    b'2' ∷ b'0' ∷ take 2 (drop 4 date) ++ (b'-' ∷ take 2 (drop 2 date) ++ (b'-' ∷ take 2 date))

-- `date_str.substr(4, 2)` and the other two: a start behind the end is out of range.
unfoldable pub date_of : Field → Parsed Field
date_of [] = parsed []
date_of (c ∷ cs) = if ltb (length (c ∷ cs)) 4 then out_of_range else parsed (iso_date (c ∷ cs))

-- `to_be_ignored`: it starts as false, and both `&=` leave it so.
unfoldable pub to_be_ignored : Field → Field → Field → Bool
to_be_ignored status lat lon =
    let first = false && not (list_eq status (b'A' ∷ [])) in first && (is_empty lat || is_empty lon)

-- The numbers of a sentence, once all conversions have succeeded.
pub record Numbers (D F : Type 0) : Type 0 where
  pub lat : Option D
  pub lon : Option D
  pub speed : Option F
  pub track : Option F
  pub mag_var : Option F

module _ {D F : Type 0} (doubles : Doubles D) (host : Host) (strtof : Field → Conversion F)
    (in_mps : F → F) where
  unfoldable pub clock : Field → Parsed (Clocked D)
  clock string =
      if has_no_time string
      then parsed (record { seconds = doubles.of_uint 0; at = none })
      else elim (to_double doubles string) [
        | none ↦ refused
        | some utc ↦ parsed (record {
          seconds = convert_utc_double_to_seconds doubles utc;
          at = some (stamp doubles host utc);
        })
      ]

  abbrev scaled : Option F → Option F
  scaled none = none
  scaled (some v) = some (in_mps v)

  -- `valid` at the end: the five conversions, one behind the other.
  unfoldable pub numbers : Field → Field → Field → Field → Field → Parsed (Numbers D F)
  numbers lat lon speed track mag_var = elim (parse_double doubles lat) [
    | none ↦ refused
    | some la ↦ elim (parse_double doubles lon) [
      | none ↦ refused
      | some lo ↦ elim (parse_float strtof speed) [
        | none ↦ refused
        | some sp ↦ elim (parse_float strtof track) [
          | none ↦ refused
          | some tr ↦ elim (parse_float strtof mag_var) [
            | none ↦ refused
            | some mv ↦ parsed (record { lat = la; lon = lo; speed = sp; track = tr; mag_var = mv })
          ]
        ]
      ]
    ]
  ]

  abbrev mode_of : List Field → Parsed (Option Field)
  mode_of body =
      if length body == 14 then field body 12 >>= (λ mode. parsed (some mode)) else parsed none

  -- `parseASCII`: the message, and what `wasLastGPRMCValid` answers then. A failed conversion refuses
  -- the message only behind the date.
  unfoldable pub parse_ascii : List Field → Parsed (Gprmc D F × Bool)
  parse_ascii body = if ltb 14 (length body) || ltb (length body) 13 then refused else (do
    id ← field body 0
    utc ← field body 1
    time ← clock utc
    status ← field body 2
    lat_field ← field body 3
    lon_field ← field body 5
    lat_dir ← field body 4
    lon_dir ← field body 6
    speed_field ← field body 7
    track_field ← field body 8
    date_field ← field body 9
    date ← date_of date_field
    mag_field ← field body 10
    mag_dir ← field body 11
    mode ← mode_of body
    n ← numbers lat_field lon_field speed_field track_field mag_field
    parsed (
      record {
        message_id = id;
        utc_seconds = time.seconds;
        stamp = time.at;
        position_status = status;
        lat = degrees doubles n.lat;
        lon = degrees doubles n.lon;
        lat_dir = lat_dir;
        lon_dir = lon_dir;
        speed = scaled n.speed;
        track = n.track;
        date = date;
        mag_var = n.mag_var;
        mag_var_direction = mag_dir;
        mode_indicator = mode;
      },
      not (to_be_ignored status lat_field lon_field),
    ))
