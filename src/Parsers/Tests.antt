-- ===== src/Parsers/Tests.antt =====
-- The NMEA parsers on small sentences, with a `strtol` for one digit.
use rosaic.Prelude.{◌-◌, ◌≡◌, refl, false, leb, ◌&&◌, if◌then◌else◌, List, [], ◌∷◌, take, drop}
use rosaic.Nmea.{Field}
use rosaic.Parsers.{ℤ, pos, Conversion, parse_uint8}
use rosaic.Parsers.Gsa.Satellites.{numbers}

abbrev pub strtol : Field → Conversion ℤ
strtol [] = record { value = pos 0; errno = false; end = 0 }
strtol (c ∷ cs) =
    if leb 48 c && leb c 57
    then record { value = pos (c - 48); errno = false; end = 1 }
    else record { value = pos 0; errno = false; end = 0 }

-- Floats that are whole numbers.
abbrev pub strtof : Field → Conversion ℤ
strtof f = strtol f

-- "$GPGSV,2,2,5,7,4,3,,*": the second of two sentences, for the fifth satellite.
abbrev gsv : List Field
gsv =
    (0x24 ∷ [])
    ∷ (b'2' ∷ [])
    ∷ (b'2' ∷ [])
    ∷ (b'5' ∷ [])
    ∷ (b'7' ∷ [])
    ∷ (b'4' ∷ [])
    ∷ (b'3' ∷ [])
    ∷ []
    ∷ (b'6' ∷ [])
    ∷ []

-- A sentence of 19 fields with the satellites 7 and 9.
abbrev gsa : List Field
gsa =
    (0x24 ∷ [])
    ∷ (b'A' ∷ [])
    ∷ (b'3' ∷ [])
    ∷ (b'7' ∷ [])
    ∷ []
    ∷ (b'9' ∷ [])
    ∷ []
    ∷ []
    ∷ []
    ∷ []
    ∷ []
    ∷ []
    ∷ []
    ∷ []
    ∷ []
    ∷ (b'1' ∷ [])
    ∷ (b'1' ∷ [])
    ∷ (b'1' ∷ [])
    ∷ (b'6' ∷ [])
    ∷ []

numbers-gsa : numbers strtol (take 12 (drop 3 gsa)) ≡ 7 ∷ 9 ∷ []
unfolding numbers parse_uint8
numbers-gsa = refl
