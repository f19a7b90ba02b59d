-- ===== src/Parsers/Gga/Tests.antt =====
-- A GGA sentence of 16 fields, with doubles that are whole hundredths.
use rosaic.Prelude.{ℕ, ◌+◌, ◌-◌, ◌*◌, ◌/◌, refl, true, false, List, [], ◌∷◌, ◌≡◌}
use rosaic.Nmea.{Field}
use rosaic.Time.{Calendar}
use rosaic.MessageKey.{list_eq}
use rosaic.Parsers.{Conversion, parse_float, to_uint32, in_uint32}
use rosaic.Parsers.Tests.{strtol, strtof}
use rosaic.Parsers.Doubles.{Doubles, Host, to_double, parse_double, parse_uint32}
use rosaic.Parsers.Gga.Accepts.{accepts}

-- One digit.
abbrev strtod : Field → Conversion ℕ
strtod [] = record { value = 0; errno = false; end = 0 }
strtod (c ∷ cs) = record { value = (c - 48) * 100; errno = false; end = 1 }

abbrev pub doubles : Doubles ℕ
doubles = record {
  to_uint = λ d. d / 100;
  of_uint = λ n. n * 100;
  rounded = λ d. (d + 50) / 100;
  plus = λ a b. a + b;
  minus = λ a b. a - b;
  over_60 = λ d. d / 60;
  times_100 = λ d. d * 100;
  in_mps = λ d. d / 2;
  strtod = strtod;
}

abbrev pub days : Calendar
days = record { Date = ℕ; gmtime_date = λ t. t / 86400; timegm_midnight = λ d. d * 86400 }

abbrev pub host : Host
host = record { use_gnss_time = true; now = record { sec = 86400; nsec = 0 }; calendar = days }

abbrev gga : List Field
gga =
    (b'G' ∷ [])
    ∷ (b'7' ∷ [])
    ∷ (b'5' ∷ [])
    ∷ (b'N' ∷ [])
    ∷ (b'6' ∷ [])
    ∷ (b'E' ∷ [])
    ∷ (b'4' ∷ [])
    ∷ (b'8' ∷ [])
    ∷ (b'1' ∷ [])
    ∷ []
    ∷ (b'M' ∷ [])
    ∷ (b'2' ∷ [])
    ∷ (b'M' ∷ [])
    ∷ []
    ∷ []
    ∷ []
    ∷ []

gga_accepted : accepts doubles host strtol strtof gga ≡ true
unfolding to_double parse_double parse_uint32 to_uint32 in_uint32 parse_float list_eq
gga_accepted = refl
