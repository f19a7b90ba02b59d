-- ===== src/Parsers/Rmc/Dates.antt =====
-- The date of an RMC sentence, and what the parser says of a sentence that is to be ignored.
use rosaic.Prelude.{
  ℕ, ◌≤◌, ◌≡◌, refl, arith, Bool, true, false, not, ◌&&◌, ◌||◌, ltb, List, [], ◌∷◌, length, get_or,
  Bool-cases, ◌⊎◌, inl, inr,
}
use mathlib.Core.Path.{subst}
use rosaic.Nmea.{Field}
use rosaic.Parsers.{Conversion, parse_float, Parsed, parsed, refused, out_of_range}
use rosaic.Parsers.Doubles.{Doubles, Host, to_double, parse_double, has_no_time}
use rosaic.Parsers.Gga.Accepts.{field-get, is_some}
use rosaic.Parsers.Rmc.{Gprmc, iso_date, date_of, to_be_ignored, clock, numbers, parse_ascii}

-- A date of one to three characters.
abbrev pub is_short : Field → Bool
is_short date = ltb 0 (length date) && ltb (length date) 4

-- An empty date stays empty.
abbrev pub shown : Field → Field
shown [] = []
shown (c ∷ cs) = iso_date (c ∷ cs)

date_of-cases :
    (date : Field)
    → ((is_short date ≡ true) × (date_of date ≡ out_of_range))
      ⊎ ((is_short date ≡ false) × (date_of date ≡ parsed (shown date)))
unfolding date_of
date_of-cases [] = inr (refl, refl)
date_of-cases (c ∷ cs) = elim (Bool-cases (ltb (length (c ∷ cs)) 4)) [
  | inl e ↦ inl (ground (arith, e), ground (arith, e))
  | inr e ↦ inr (ground (arith, e), rw e refl)
]

module _ {D F : Type 0} (doubles : Doubles D) (host : Host) (strtof : Field → Conversion F)
    (in_mps : F → F) where
  abbrev pub has_time : Field → Bool
  has_time string = has_no_time string || is_some (to_double doubles string)

  abbrev pub fits : List Field → Bool
  fits body = not (ltb 14 (length body) || ltb (length body) 13)

  -- The five number fields are each empty or a number.
  abbrev pub has_numbers : List Field → Bool
  has_numbers body =
      let f = λ (i : ℕ). get_or body i [] in
      is_some (parse_double doubles (f 3))
      && (is_some (parse_double doubles (f 5))
          && (is_some (parse_float strtof (f 7))
              && (is_some (parse_float strtof (f 8)) && is_some (parse_float strtof (f 10)))))

  -- How the parser ends for a sentence.
  abbrev pub Agrees : List Field → Parsed (Gprmc D F × Bool) → Type 0
  Agrees body out_of_range =
      (fits body && (has_time (get_or body 1 []) && is_short (get_or body 9 []))) ≡ true
  Agrees body refused =
      (fits body
        && (has_time (get_or body 1 []) && (is_short (get_or body 9 []) || has_numbers body)))
      ≡ false
  Agrees body (parsed (m, was_valid)) =
      ((fits body
          && (has_time (get_or body 1 [])
              && (not (is_short (get_or body 9 [])) && has_numbers body)))
        ≡ true)
      × (was_valid ≡ true)
      × (m.position_status ≡ get_or body 2 [])
      × (m.date ≡ shown (get_or body 9 []))

  whole-Agrees :
      (body : List Field)
      → 13 ≤ length body
      → length body ≤ 14
      → Agrees body (parse_ascii doubles host strtof in_mps body)
  unfolding parse_ascii clock numbers to_be_ignored
  whole-Agrees body low high =
      let f0 = field-get body 0 (omega arith) in
      let f1 = field-get body 1 (omega arith) in
      let f2 = field-get body 2 (omega arith) in
      let f3 = field-get body 3 (omega arith) in
      let f4 = field-get body 4 (omega arith) in
      let f5 = field-get body 5 (omega arith) in
      let f6 = field-get body 6 (omega arith) in
      let f7 = field-get body 7 (omega arith) in
      let f8 = field-get body 8 (omega arith) in
      let f9 = field-get body 9 (omega arith) in
      let f10 = field-get body 10 (omega arith) in
      let f11 = field-get body 11 (omega arith) in
      let f12 = field-get body 12 (omega arith) in
      elim (date_of-cases (get_or body 9 [])) [
        | inl (short, e) ↦ ground arith
        | inr (long, e) ↦ ground arith
      ]

  outside-Agrees :
      (body : List Field)
      → fits body ≡ false
      → Agrees body (parse_ascii doubles host strtof in_mps body)
  unfolding parse_ascii
  outside-Agrees body e = ground arith

-- `parseASCII` for RMC accepts exactly the sentences of 13 or 14 fields whose time is missing, "0" or
-- a number, whose five number fields are each empty or a number, and whose date has no character or at
-- least four; it refuses the others, but for those with a date of one to three characters, where
-- `substr` throws an exception that is not a `ParseException`. Where a sentence is accepted,
-- `wasLastGPRMCValid` answers true, whatever the status says, also for "V".
pub parse_ascii_ends :
    {D F : Type 0} (doubles : Doubles D) (host : Host) (strtof : Field → Conversion F)
    (in_mps : F → F) (body : List Field)
    → Agrees doubles host strtof in_mps body (parse_ascii doubles host strtof in_mps body)
parse_ascii_ends doubles host strtof in_mps body =
    elim (Bool-cases (fits doubles host strtof in_mps body)) [
      | inl e ↦ whole-Agrees doubles host strtof in_mps body (ground arith) (ground arith)
      | inr e ↦ outside-Agrees doubles host strtof in_mps body e
    ]

-- `substr` throws only for a date of one to three characters.
pub parse_ascii-short :
    {D F : Type 0} (doubles : Doubles D) (host : Host) (strtof : Field → Conversion F)
    (in_mps : F → F) (body : List Field)
    → parse_ascii doubles host strtof in_mps body ≡ out_of_range
    → is_short (get_or body 9 []) ≡ true
parse_ascii-short doubles host strtof in_mps body e =
    let ends : Agrees doubles host strtof in_mps body out_of_range =
      subst (Agrees doubles host strtof in_mps body) e
        (parse_ascii_ends doubles host strtof in_mps body) in
    ground (arith, ends)
