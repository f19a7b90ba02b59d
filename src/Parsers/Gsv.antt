-- ===== src/Parsers/Gsv.antt =====
-- parsers/nmea_parsers/gpgsv.cpp: `GpgsvParser::parseASCII`.
pub mod Bounds
use rosaic.Prelude.{
  ℕ, zero, suc, ◌+◌, ◌-◌, ◌*◌, ◌%◌, Bool, true, false, not, ◌&&◌, ◌||◌, if◌then◌else◌, ltb, leb,
  ◌==◌, Option, none, some, List, [], ◌∷◌, length,
}
use rosaic.Nmea.{Field}
use rosaic.Parsers.{
  ℤ, pos, negsuc, Conversion, is_empty, parse_uint8, parse_float, Parsed, parsed, refused, ◌>>=◌,
  field,
}

-- A satellite; the floats stand before they are cut to integers, and `none` is a float that was
-- never set.
pub record Satellite (F : Type 0) : Type 0 where
  pub prn : ℕ
  pub elevation : Option F
  pub azimuth : Option F
  pub snr : ℤ

pub record Gpgsv (F : Type 0) : Type 0 where
  pub message_id : Field
  pub n_msgs : ℕ
  pub msg_number : ℕ
  pub n_satellites : ℕ
  pub satellites : List (Satellite F)

-- `n_sats_in_sentence`: each of the last tests overrides the ones before it.
unfoldable pub sats_in_sentence : ℕ → ℕ → ℕ → ℕ
sats_in_sentence n_msgs msg_number n_satellites =
    if msg_number == n_msgs
    then (if msg_number == 1
        then n_satellites
        else if n_satellites == 0
        then 0
        else if n_satellites % 4 == 0
        then 4
        else n_satellites % 4)
    else 4

-- `expected_length`
unfoldable pub expected_length : ℕ → ℕ
expected_length n = if n == 0 then 4 + 4 * n + 1 + 4 else 4 + 4 * n + 1

-- `static_cast<int8_t>` of a `uint8_t`
abbrev pub int8 : ℕ → ℤ
int8 n = if ltb n 128 then pos n else negsuc (255 - n)

module _ {F : Type 0} (strtol : Field → Conversion ℤ) (strtof : Field → Conversion F) where
  -- A number that must parse.
  unfoldable pub number : Field → Parsed ℕ
  unfolding parse_uint8
  number f = if (parse_uint8 strtol f).0 then parsed (parse_uint8 strtol f).1 else refused

  unfoldable pub decimal : Field → Parsed (Option F)
  unfolding parse_float
  decimal f = elim (parse_float strtof f) [ none ↦ refused | some v ↦ parsed v ]

  -- The signal strength: -1 if its field is missing or empty.
  unfoldable pub strength : List Field → ℕ → Parsed ℤ
  unfolding number field
  strength body i =
      if leb (length body) i
      then parsed (negsuc 0)
      else (field body i >>= λ f.
          if is_empty f then parsed (negsuc 0) else (number f >>= λ n. parsed (int8 n)))

  unfoldable pub satellite : List Field → ℕ → Parsed (Satellite F)
  unfolding number decimal strength field
  satellite body index = do
    f₀ ← field body index
    prn ← number f₀
    f₁ ← field body (index + 1)
    elevation ← decimal f₁
    f₂ ← field body (index + 2)
    azimuth ← decimal f₂
    snr ← strength body (index + 3)
    parsed (record { prn = prn; elevation = elevation; azimuth = azimuth; snr = snr })

  -- The loop over the satellites.
  unfoldable pub read_satellites : List Field → ℕ → ℕ → Parsed (List (Satellite F))
  unfolding satellite
  read_satellites body zero index = parsed []
  read_satellites body (suc left) index = do
    sat ← satellite body index
    rest ← read_satellites body left (index + 4)
    parsed (sat ∷ rest)

  -- The part behind the numbers of the header: the length, then the satellites.
  unfoldable pub read_body : List Field → Field → ℕ → ℕ → ℕ → Parsed (Gpgsv F)
  unfolding sats_in_sentence expected_length read_satellites
  read_body body id n_msgs msg_number n_satellites =
      let n = sats_in_sentence n_msgs msg_number n_satellites in
      if not (length body == expected_length n) && not (length body == expected_length n - 1)
      then refused
      else (read_satellites body n 4 >>= λ sats. parsed (record {
        message_id = id;
        n_msgs = n_msgs;
        msg_number = msg_number;
        n_satellites = n_satellites;
        satellites = sats;
      }))

  -- `parseASCII`
  pub parse_ascii : List Field → Parsed (Gpgsv F)
  unfolding read_body number field
  parse_ascii body = if ltb (length body) 4 then refused else (do
    id ← field body 0
    f₁ ← field body 1
    n_msgs ← number f₁
    few ← if ltb 9 n_msgs then refused else parsed tt
    f₂ ← field body 2
    msg_number ← number f₂
    inside ← if ltb n_msgs msg_number then refused else parsed tt
    f₃ ← field body 3
    n_satellites ← number f₃
    read_body body id n_msgs msg_number n_satellites)
