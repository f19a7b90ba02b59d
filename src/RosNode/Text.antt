-- ===== src/RosNode/Text.antt =====
-- Texts as lists of bytes: literals, `std::to_string` of a `uint32_t`, and `trimString` of
-- parsers/string_utilities.cpp.
pub mod Decimal
pub mod Trim
pub mod Tests
use Prim.Native.Char.{code}
use Prim.Native.String.{String}
use rosaic.Prelude.{
  ℕ, zero, suc, ◌+◌, ◌/◌, ◌%◌, Bool, true, false, not, ◌&&◌, if◌then◌else◌, ltb, leb, ◌==◌, List,
  [], ◌∷◌, ◌++◌,
}

abbrev pub Text : Type 0
Text = List ℕ

-- The bytes of a literal.
abbrev pub codes : String → Text
codes String.[] = []
codes (String.◌∷◌ c s) = code c ∷ codes s

-- The decimal digits of a number before some text, at most so many of them.
unfoldable pub digits : ℕ → ℕ → Text → Text
digits zero v rest = rest
digits (suc most) v rest =
    let more = digits most (v / 10) ((48 + v % 10) ∷ rest) in
    if ltb v 10 then (48 + v) ∷ rest else more

-- `std::to_string`; a `uint32_t` has at most ten digits.
abbrev pub to_string : ℕ → Text
to_string v = digits 10 v []

abbrev pub reverse_onto : Text → Text → Text
reverse_onto [] rest = rest
reverse_onto (c ∷ cs) rest = reverse_onto cs (c ∷ rest)

abbrev pub is_digit : ℕ → Bool
is_digit c = leb b'0' c && leb c b'9'

-- The loop of `trimString`, on the characters in reverse. It stops before it asks about the first.
unfoldable pub trim_loop : Text → Text
trim_loop [] = []
trim_loop (c ∷ []) = c ∷ []
trim_loop (c ∷ d ∷ cs) =
    let shorter = trim_loop (d ∷ cs) in
    if c == b'0' && not (is_digit d) then c ∷ d ∷ cs else if c == b'0' then shorter else c ∷ d ∷ cs

-- `trimString` of a string that is not empty.
unfoldable pub trim_string : Text → Text
trim_string str = reverse_onto (trim_loop (reverse_onto str [])) []
