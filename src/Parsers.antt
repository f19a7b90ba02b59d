-- ===== src/Parsers.antt =====
-- parsers/string_utilities.cpp and the string conversions of parsers/parsing_utilities.cpp that the
-- NMEA parsers use. `strtol` and `strtof` of the C library are parameters.
pub mod Gsv
pub mod Gsa
pub mod Doubles
pub mod Gga
pub mod Rmc
pub mod Numbers
pub mod Tests
use rosaic.Prelude.{
  ℕ, ◌-◌, ◌^◌, Bool, true, false, not, ◌||◌, if◌then◌else◌, ltb, leb, ◌==◌, Option, none, some,
  List, [], ◌∷◌, length, get_elem?, ◌↔◌, ◌≡◌, ◌<◌, arith,
}
use rosaic.Nmea.{Field}

pub data ℤ : Type 0 where
  pos : ℕ → ℤ
  negsuc : ℕ → ℤ

-- What `strtol` or `strtof` leaves behind: the value, whether `errno` is set, and how many
-- characters were read.
pub record Conversion {ℓ} (A : Type ℓ) : Type ℓ where
  pub value : A
  pub errno : Bool
  pub end : ℕ

abbrev pub is_empty : Field → Bool
is_empty [] = true
is_empty (c ∷ cs) = false

-- The test after a conversion: no error, and the whole string was read.
abbrev pub is_whole : {A : Type 0} → Field → Conversion A → Bool
is_whole string c = not (c.errno || not (c.end == length string))

-- `std::numeric_limits<uint32_t>::max()` as the bound of a `long` that is not negative.
unfoldable pub in_uint32 : ℤ → Option ℕ
in_uint32 (pos n) = if ltb (2 ^ 32 - 1) n then none else some n
in_uint32 (negsuc n) = none

-- `toUInt32`; `none` is the result false.
unfoldable pub to_uint32 : (Field → Conversion ℤ) → Field → Option ℕ
unfolding in_uint32
to_uint32 strtol string =
    if is_empty string
    then none
    else if is_whole string (strtol string)
    then in_uint32 (strtol string).value
    else none

-- `parseUInt8`: its result, and the number that it leaves in `value`.
unfoldable pub parse_uint8 : (Field → Conversion ℤ) → Field → Bool × ℕ
unfolding to_uint32
parse_uint8 strtol string = if is_empty string then (true, 0) else elim (to_uint32 strtol string) [
  | none ↦ (false, 0)
  | some intermd ↦ if leb intermd 255 then (true, intermd) else (false, 0)
]

-- `parseFloat`: `none` is the result false. At an empty string the result is true and the variable
-- keeps what it held, here `some none`.
unfoldable pub parse_float : {F : Type 0} → (Field → Conversion F) → Field → Option (Option F)
parse_float strtof string =
    if is_empty string
    then some none
    else if is_whole string (strtof string)
    then some (some (strtof string).value)
    else none

-- How a parser ends: with a message, with a `ParseException`, or with an access behind the last
-- field.
pub data Parsed {ℓ} (A : Type ℓ) : Type ℓ where
  parsed : A → Parsed A
  refused : Parsed A
  out_of_range : Parsed A

infixl 5 ◌>>=◌
abbrev pub ◌>>=◌ : {A B : Type 0} → Parsed A → (A → Parsed B) → Parsed B
parsed a >>= f = f a
refused >>= f = refused
out_of_range >>= f = out_of_range

-- `sentence.get_body()[i]`
unfoldable pub field : List Field → ℕ → Parsed Field
field body i = elim (get_elem? body i) [ none ↦ out_of_range | some f ↦ parsed f ]

-- `parseUInt8` accepts a string that is not empty as a number exactly if `strtol` reads the whole of
-- it without an error as that number, and the number is below 256.
pub parse_uint8-number :
    (strtol : Field → Conversion ℤ) (string : Field) (n : ℕ)
    → is_empty string ≡ false
    → (◌≡◌ {A = Bool × ℕ} (parse_uint8 strtol string) (true, n))
      ↔ ((strtol string).errno ≡ false)
        × ((strtol string).end ≡ length string)
        × ((strtol string).value ≡ pos n)
        × (n < 256)
unfolding parse_uint8 to_uint32 in_uint32
parse_uint8-number strtol string n full =
    rw full (go (strtol string).value (strtol string).errno (strtol string).end)
  where
    go :
        (v : ℤ) (errno : Bool) (end : ℕ)
        → (◌≡◌ {A = Bool × ℕ}
            (elim (if not (errno || not (end == length string)) then in_uint32 v else none) [
              | none ↦ (false, 0)
              | some intermd ↦ if leb intermd 255 then (true, intermd) else (false, 0)
            ])
            (true, n))
          ↔ (errno ≡ false) × (end ≡ length string) × (v ≡ pos n) × (n < 256)
    go (pos m) errno end = (λ h. ground arith, λ h. ground arith)
    go (negsuc m) errno end = (λ h. ground arith, λ h. ground arith)
