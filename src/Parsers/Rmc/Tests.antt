-- ===== src/Parsers/Rmc/Tests.antt =====
-- An RMC sentence with the status "V".
use rosaic.Prelude.{refl, List, [], ◌∷◌, ◌≡◌}
use rosaic.Nmea.{Field}
use rosaic.Parsers.Tests.{strtof}
use rosaic.Parsers.Gga.Tests.{doubles, host}
use rosaic.Parsers.Rmc.{parse_ascii, iso_date}
use rosaic.Parsers.Rmc.Dates.{Agrees, parse_ascii_ends}

abbrev rmc : List Field
rmc =
    (b'R' ∷ [])
    ∷ (b'7' ∷ [])
    ∷ (b'V' ∷ [])
    ∷ (b'5' ∷ [])
    ∷ (b'N' ∷ [])
    ∷ (b'6' ∷ [])
    ∷ (b'E' ∷ [])
    ∷ []
    ∷ []
    ∷ (b'1' ∷ b'2' ∷ b'0' ∷ b'3' ∷ b'2' ∷ b'1' ∷ [])
    ∷ []
    ∷ []
    ∷ []
    ∷ []

date_shown :
    iso_date (b'1' ∷ b'2' ∷ b'0' ∷ b'3' ∷ b'2' ∷ b'1' ∷ [])
    ≡ b'2' ∷ b'0' ∷ b'2' ∷ b'1' ∷ b'-' ∷ b'0' ∷ b'3' ∷ b'-' ∷ b'1' ∷ b'2' ∷ []
unfolding iso_date
date_shown = refl

parse_ascii_ends_example :
    Agrees doubles host strtof (λ v. v) rmc (parse_ascii doubles host strtof (λ v. v) rmc)
parse_ascii_ends_example = parse_ascii_ends doubles host strtof (λ v. v) rmc
