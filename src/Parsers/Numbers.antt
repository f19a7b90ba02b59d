-- ===== src/Parsers/Numbers.antt =====
-- parsers/parsing_utilities.cpp: integers from the bytes of a buffer, which are in the order of the
-- platform, the lowest first; and the conversions of strings to integers that no parser uses.
use rosaic.Prelude.{
  ℕ, ◌+◌, ◌-◌, ◌*◌, ◌/◌, ◌%◌, ◌^◌, ◌≡◌, ◌↔◌, arith, Bool, true, false, if◌then◌else◌, ltb, leb,
  Option, none, some, List, [], ◌∷◌, length, get_or,
}
use rosaic.Nmea.{Field}
use rosaic.Parsers.{ℤ, pos, negsuc, Conversion, is_empty, is_whole, to_uint32}

-- A byte of the buffer.
abbrev at : List ℕ → ℕ → ℕ
at buffer i = get_or buffer i 0

-- `parseUInt16` and `parseUInt32` of a buffer
unfoldable pub uint16_at : List ℕ → ℕ
uint16_at buffer = at buffer 0 + 256 * at buffer 1

unfoldable pub uint32_at : List ℕ → ℕ
uint32_at buffer = at buffer 0 + 256 * at buffer 1 + 65536 * at buffer 2 + 16777216 * at buffer 3

-- The number that a word stands for in two's complement; `half` is the weight of its highest bit.
abbrev pub signed : ℕ → ℕ → ℤ
signed half word = if ltb word half then pos word else negsuc (2 * half - 1 - word)

-- `parseInt16` and `parseInt32` of a buffer
unfoldable pub int16_at : List ℕ → ℤ
int16_at buffer = signed (2 ^ 15) (uint16_at buffer)

unfoldable pub int32_at : List ℕ → ℤ
int32_at buffer = signed (2 ^ 31) (uint32_at buffer)

-- Whether a number is in the range of a signed type with numbers below `half`.
abbrev pub in_signed : ℕ → ℤ → Bool
in_signed half (pos n) = ltb n half
in_signed half (negsuc n) = ltb n half

-- `toInt32`; `none` is the result false.
unfoldable pub to_int32 : (Field → Conversion ℤ) → Field → Option ℤ
to_int32 strtol string =
    let c = strtol string in
    if is_empty string
    then none
    else if is_whole string c
    then (if in_signed (2 ^ 31) c.value then some c.value else none)
    else none

-- `parseInt16` of a string: its result, and the number that it leaves in `value`.
unfoldable pub parse_int16 : (Field → Conversion ℤ) → Field → Bool × ℤ
parse_int16 strtol string =
    if is_empty string then (true, pos 0) else elim (to_int32 strtol string) [
      | none ↦ (false, pos 0)
      | some intermd ↦ if in_signed (2 ^ 15) intermd then (true, intermd) else (false, pos 0)
    ]

-- `parseInt32` of a string; an empty one leaves the variable as it was, here `some none`.
unfoldable pub parse_int32 : (Field → Conversion ℤ) → Field → Option (Option ℤ)
parse_int32 strtol string = elim (to_int32 strtol string) [
  | none ↦ if is_empty string then some none else none
  | some n ↦ some (some n)
]

-- `parseUInt16` of a string
unfoldable pub parse_uint16 : (Field → Conversion ℤ) → Field → Bool × ℕ
parse_uint16 strtol string = if is_empty string then (true, 0) else elim (to_uint32 strtol string) [
  | none ↦ (false, 0)
  | some intermd ↦ if leb intermd 65535 then (true, intermd) else (false, 0)
]

-- The bytes of a word, and the words of a number in two's complement.
abbrev pub bytes_of : ℕ → List ℕ
bytes_of word = word % 256 ∷ word / 256 % 256 ∷ word / 65536 % 256 ∷ word / 16777216 % 256 ∷ []

abbrev pub word_of : ℕ → ℤ → ℕ
word_of half (pos n) = n
word_of half (negsuc n) = 2 * half - 1 - n

-- A number of 32 bits is read back from its bytes, and one of 16 bits from its two.
pub int_at-bytes :
    (v w : ℤ)
    → in_signed (2 ^ 31) v ≡ true
    → in_signed (2 ^ 15) w ≡ true
    → (int32_at (bytes_of (word_of (2 ^ 31) v)) ≡ v)
      × (int16_at (bytes_of (word_of (2 ^ 15) w)) ≡ w)
unfolding int32_at int16_at uint32_at uint16_at
int_at-bytes v w a b = (ground arith, ground arith)

-- `parseInt16` accepts a string that is not empty as a number exactly if `strtol` reads the whole of it
-- without an error as that number, and 16 bits hold the number.
pub parse_int16-number :
    (strtol : Field → Conversion ℤ) (string : Field) (n : ℤ)
    → is_empty string ≡ false
    → (parse_int16 strtol string ≡ (true, n))
      ↔ ((strtol string).errno ≡ false)
        × ((strtol string).end ≡ length string)
        × ((strtol string).value ≡ n)
        × (in_signed (2 ^ 15) n ≡ true)
unfolding parse_int16 to_int32
parse_int16-number strtol string n full = (λ h. ground arith, λ h. ground arith)
