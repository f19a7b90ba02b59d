-- ===== src/Parsers/Gga/Accepts.antt =====
-- Which sentences the parser of GGA accepts, and what it makes of them.
use rosaic.Prelude.{
  ℕ, zero, suc, ◌<◌, ◌≡◌, refl, arith, Bool, true, false, ◌&&◌, ◌||◌, if◌then◌else◌, ◌==◌, Option,
  none, some, List, [], ◌∷◌, length, get_or, Bool-cases, inl, inr, sym, ap, ◌≢◌,
}
use mathlib.Core.Path.{subst}
use rosaic.Nmea.{Field}
use rosaic.Time.{Stamp}
use rosaic.Parsers.{ℤ, Conversion, parse_float, Parsed, parsed, refused, out_of_range, field}
use rosaic.Parsers.Gsa.{kept}
use rosaic.Parsers.Doubles.{
  Doubles, Host, to_double, parse_double, degrees, convert_utc_double_to_seconds, parse_uint32,
  stamp, has_no_time,
}
use rosaic.Parsers.Gga.{Gpgga, clock, round_age, parse_ascii}

abbrev pub is_some : {A : Type 0} → Option A → Bool
is_some none = false
is_some (some a) = true

pub field-get :
    (body : List Field) (i : ℕ) → i < length body → field body i ≡ parsed (get_or body i [])
unfolding field
field-get [] i inside = absurd (omega arith)
field-get (f ∷ body) zero inside = refl
field-get (f ∷ body) (suc i) inside = field-get body i (omega arith)

module _ {D F : Type 0} (doubles : Doubles D) (host : Host) (strtol : Field → Conversion ℤ)
    (strtof : Field → Conversion F) where
  -- What the time field gives: the seconds since midnight, which are set only where the time of the
  -- receiver is used, and the stamp.
  abbrev pub seconds_of : Field → D
  seconds_of string =
      if has_no_time string then doubles.of_uint 0 else elim (to_double doubles string) [
        | none ↦ doubles.of_uint 0
        | some utc ↦
            if host.use_gnss_time
            then convert_utc_double_to_seconds doubles utc
            else doubles.of_uint 0
      ]

  abbrev pub stamp_of : Field → Option Stamp
  stamp_of string = if has_no_time string then none else elim (to_double doubles string) [
    | none ↦ none
    | some utc ↦ some (stamp doubles host utc)
  ]

  -- The time field is missing, "0" or a number, and the nine number fields are each empty or a number.
  abbrev pub accepts : List Field → Bool
  accepts body =
      let f = λ (i : ℕ). get_or body i [] in
      (has_no_time (f 1) || is_some (to_double doubles (f 1)))
      && (is_some (parse_double doubles (f 2))
          && (is_some (parse_double doubles (f 4))
              && (is_some (parse_uint32 strtol (f 6))
                  && (is_some (parse_uint32 strtol (f 7))
                      && (is_some (parse_float strtof (f 8))
                          && (is_some (parse_float strtof (f 9))
                              && (is_some (parse_float strtof (f 11))
                                  && is_some (parse_double doubles (f 13)))))))))

  -- The message that the fields make up.
  pub record IsGga (body : List Field) (m : Gpgga D F) : Type 0 where
    pub message_id : m.message_id ≡ get_or body 0 []
    pub utc_seconds : m.utc_seconds ≡ seconds_of (get_or body 1 [])
    pub stamp : m.stamp ≡ stamp_of (get_or body 1 [])
    pub lat : m.lat ≡ degrees doubles (kept (parse_double doubles (get_or body 2 [])))
    pub lon : m.lon ≡ degrees doubles (kept (parse_double doubles (get_or body 4 [])))
    pub directions : (m.lat_dir ≡ get_or body 3 []) × (m.lon_dir ≡ get_or body 5 [])
    pub gps_qual : m.gps_qual ≡ kept (parse_uint32 strtol (get_or body 6 []))
    pub num_sats : m.num_sats ≡ kept (parse_uint32 strtol (get_or body 7 []))
    pub hdop : m.hdop ≡ kept (parse_float strtof (get_or body 8 []))
    pub alt : m.alt ≡ kept (parse_float strtof (get_or body 9 []))
    pub undulation : m.undulation ≡ kept (parse_float strtof (get_or body 11 []))
    pub units : (m.altitude_units ≡ get_or body 10 []) × (m.undulation_units ≡ get_or body 12 [])
    pub diff_age : m.diff_age ≡ round_age doubles (kept (parse_double doubles (get_or body 13 [])))
    pub station_id : m.station_id ≡ get_or body 14 []

  -- How the parser ends for a sentence.
  abbrev pub Agrees : List Field → Parsed (Gpgga D F) → Type 0
  Agrees body out_of_range = ⊥
  Agrees body refused = (length body == 16 && accepts body) ≡ false
  Agrees body (parsed m) = ((length body == 16 && accepts body) ≡ true) × IsGga body m

  whole-Agrees :
      (body : List Field)
      → length body ≡ 16
      → Agrees body (parse_ascii doubles host strtol strtof body)
  unfolding parse_ascii clock
  whole-Agrees body e =
      let f0 = field-get body 0 (omega arith) in
      let f1 = field-get body 1 (omega arith) in
      let f2 = field-get body 2 (omega arith) in
      let f3 = field-get body 3 (omega arith) in
      let f4 = field-get body 4 (omega arith) in
      let f5 = field-get body 5 (omega arith) in
      let f6 = field-get body 6 (omega arith) in
      let f7 = field-get body 7 (omega arith) in
      let f8 = field-get body 8 (omega arith) in
      let f9 = field-get body 9 (omega arith) in
      let f10 = field-get body 10 (omega arith) in
      let f11 = field-get body 11 (omega arith) in
      let f12 = field-get body 12 (omega arith) in
      let f13 = field-get body 13 (omega arith) in
      let f14 = field-get body 14 (omega arith) in ground arith

refused_length :
    {D F : Type 0} (doubles : Doubles D) (host : Host) (strtol : Field → Conversion ℤ)
    (strtof : Field → Conversion F) (body : List Field)
    → (length body == 16) ≡ false
    → parse_ascii doubles host strtol strtof body ≡ refused
unfolding parse_ascii
refused_length doubles host strtol strtof body e = simp e refl

pub parse_ascii_accepts :
    {D F : Type 0} (doubles : Doubles D) (host : Host) (strtol : Field → Conversion ℤ)
    (strtof : Field → Conversion F) (body : List Field)
    → Agrees doubles host strtol strtof body (parse_ascii doubles host strtol strtof body)
parse_ascii_accepts doubles host strtol strtof body = elim (Bool-cases (length body == 16)) [
  | inl e ↦ whole-Agrees doubles host strtol strtof body (ground arith)
  | inr e ↦
      subst (Agrees doubles host strtol strtof body)
        (sym (refused_length doubles host strtol strtof body e))
        (ap (λ b. b && accepts doubles host strtol strtof body) e)
]

pub parse_ascii-inside :
    {D F : Type 0} (doubles : Doubles D) (host : Host) (strtol : Field → Conversion ℤ)
    (strtof : Field → Conversion F) (body : List Field)
    → parse_ascii doubles host strtol strtof body ≢ out_of_range
parse_ascii-inside doubles host strtol strtof body e =
    subst (Agrees doubles host strtol strtof body) e
      (parse_ascii_accepts doubles host strtol strtof body)
