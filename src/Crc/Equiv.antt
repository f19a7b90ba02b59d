-- ===== src/Crc/Equiv.antt =====
-- The table-driven loop of crc.c against the division bit by bit.
use Prim.Native.Nat.{bit_xor}
use rosaic.Prelude.{
  ℕ, ◌*◌, ◌/◌, ◌%◌, ◌^◌, ◌<◌, ◌≡◌, refl, ◌∙◌, ap, arith, List, [], ◌∷◌, true, ltb, ltb→lt, ◌==◌,
  ==_iff, passes, passes-at,
}
use rosaic.Prelude.Bits.{xor_comm, xor_fields, xor-div, xor-mod, xor-lt, xor-zero}
use rosaic.Crc.{crc_step, crc_loop, look_up, compute16ccitt}
use rosaic.Crc.Reference.{shift_byte, divide}
use rosaic.Crc.Reference.Linear.{shift_byte-xor, shift_byte_low}

-- Every byte of a message is below 256.
abbrev pub IsBytes : List ℕ → Type 0
IsBytes [] = Unit
IsBytes (b ∷ bs) = (b < 2 ^ 8) × IsBytes bs

high_table : passes (λ h. shift_byte (h * 2 ^ 8) == look_up h) 256 ≡ true
unfolding passes shift_byte look_up
high_table = refl

-- The entry of the table at `h` is the remainder of the byte `h`, shifted through the register.
shift_byte_high : (h : ℕ) → h < 2 ^ 8 → shift_byte (h * 2 ^ 8) ≡ look_up h
shift_byte_high h lt = (==_iff _ _).0 (passes-at _ 256 high_table h lt)

look_up_table : passes (λ h. ltb (look_up h) (2 ^ 16)) 256 ≡ true
unfolding passes look_up
look_up_table = refl

pub look_up-lt : (h : ℕ) → h < 2 ^ 8 → look_up h < 2 ^ 16
look_up-lt h lt = ltb→lt _ _ (passes-at _ 256 look_up_table h lt)

-- The index that the loop looks up lies inside the table.
pub index-lt : (crc byte : ℕ) → crc < 2 ^ 16 → byte < 2 ^ 8 → bit_xor (crc / 2 ^ 8) byte < 2 ^ 8
index-lt crc byte h h' = xor-lt 8 (crc / 2 ^ 8) byte (omega arith) h'

-- One step, with the truncation to 16 bits carried out.
pub crc_step_lem :
    (crc byte : ℕ)
    → crc < 2 ^ 16
    → byte < 2 ^ 8
    → crc_step crc byte ≡ bit_xor (crc % 2 ^ 8 * 2 ^ 8) (look_up (bit_xor (crc / 2 ^ 8) byte))
unfolding crc_step
crc_step_lem crc byte h h' =
    let i = bit_xor (crc / 2 ^ 8) byte in
    let cut : look_up i % 2 ^ 16 ≡ look_up i =
      omega (arith, look_up-lt i (index-lt crc byte h h')) in
    let low : crc * 2 ^ 8 % 2 ^ 16 ≡ crc % 2 ^ 8 * 2 ^ 8 = omega arith in
    rw (xor-mod 16 (crc * 2 ^ 8) (look_up i), cut, low) refl

pub crc_step-lt : (crc byte : ℕ) → crc_step crc byte < 2 ^ 16
unfolding crc_step
crc_step-lt crc byte = omega arith

-- What enters the register splits into the index and the low byte.
entered :
    (crc byte : ℕ)
    → byte < 2 ^ 8
    → bit_xor crc (byte * 2 ^ 8) ≡ bit_xor (bit_xor (crc / 2 ^ 8) byte * 2 ^ 8) (crc % 2 ^ 8)
entered crc byte h = rw (xor_fields i (crc % 2 ^ 8) (omega arith)) (omega (arith, high, low))
  where
    i : ℕ
    i = bit_xor (crc / 2 ^ 8) byte

    high : bit_xor crc (byte * 2 ^ 8) / 2 ^ 8 ≡ i
    high =
        let e : byte * 2 ^ 8 / 2 ^ 8 ≡ byte = omega arith in
        rw (xor-div 8 crc (byte * 2 ^ 8), e) refl

    low : bit_xor crc (byte * 2 ^ 8) % 2 ^ 8 ≡ crc % 2 ^ 8
    low =
        let e : byte * 2 ^ 8 % 2 ^ 8 ≡ 0 = omega arith in
        rw (xor-mod 8 crc (byte * 2 ^ 8), e) (xor-zero (crc % 2 ^ 8))

crc_step_divides :
    (crc byte : ℕ)
    → crc < 2 ^ 16
    → byte < 2 ^ 8
    → crc_step crc byte ≡ shift_byte (bit_xor crc (byte * 2 ^ 8))
crc_step_divides crc byte h h' =
    let i = bit_xor (crc / 2 ^ 8) byte in
    let below = index-lt crc byte h h' in
    crc_step_lem crc byte h h'
    ∙ rw
        (
          entered crc byte h',
          shift_byte-xor (i * 2 ^ 8) (crc % 2 ^ 8) (omega (arith, below)) (omega arith),
          shift_byte_high i below,
          shift_byte_low (crc % 2 ^ 8) (omega arith),
        )
        (xor_comm (crc % 2 ^ 8 * 2 ^ 8) (look_up i))

crc_loop_divides :
    (crc : ℕ) (buf : List ℕ) → crc < 2 ^ 16 → IsBytes buf → crc_loop crc buf ≡ divide crc buf
unfolding crc_loop divide
crc_loop_divides crc [] h bytes = refl
crc_loop_divides crc (b ∷ buf) h bytes =
    crc_loop_divides (crc_step crc b) buf (crc_step-lt crc b) bytes.1
    ∙ ap (λ r. divide r buf) (crc_step_divides crc b h bytes.0)

-- For every sequence of bytes the table-driven loop of `compute16CCITT` computes the remainder of
-- the bitwise division by the CCITT polynomial x^16 + x^12 + x^5 + 1, with seed 0.
pub compute16ccitt_divides : (buf : List ℕ) → IsBytes buf → compute16ccitt buf ≡ divide 0 buf
unfolding compute16ccitt
compute16ccitt_divides buf bytes = crc_loop_divides 0 buf (omega arith) bytes
