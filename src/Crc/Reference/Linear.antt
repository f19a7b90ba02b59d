-- ===== src/Crc/Reference/Linear.antt =====
-- Exclusive or and the shifts of the reference division.
use Prim.Native.Nat.{bit_xor}
use rosaic.Prelude.{
  ℕ, zero, suc, ◌*◌, ◌/◌, ◌%◌, ◌^◌, ◌<◌, ◌≡◌, refl, sym, ◌∙◌, ap, arith, true, inl, inr, Bool-cases,
  leb, ◌==◌, ==_iff, passes, passes-at,
}
use rosaic.Prelude.Bits.{xor_assoc, xor_swap, xor_regroup, xor_double, xor-mod, xor-div, xor-lt}
use rosaic.Crc.Reference.{shift_bit, shift_byte}

poly : ℕ
poly = 0x1021

abbrev doubled : ℕ → ℕ
doubled r = 2 * r % 2 ^ 16

doubled-xor : (a b : ℕ) → doubled (bit_xor a b) ≡ bit_xor (doubled a) (doubled b)
doubled-xor a b = ap (λ t. t % 2 ^ 16) (sym (xor_double a b)) ∙ xor-mod 16 (2 * a) (2 * b)

-- The bit that leaves the register is the sum of those of the operands.
top : ℕ → ℕ
top r = r / 2 ^ 15

top-xor : (a b : ℕ) → top (bit_xor a b) ≡ bit_xor (top a) (top b)
unfolding top
top-xor a b = xor-div 15 a b

data Top (r : ℕ) : Type 0 where
  clear : top r ≡ 0 → shift_bit r ≡ doubled r → Top r
  carry : top r ≡ 1 → shift_bit r ≡ bit_xor (doubled r) poly → Top r

Top-cases : (r : ℕ) → r < 2 ^ 16 → Top r
unfolding top shift_bit poly
Top-cases r h = elim (Bool-cases (leb (2 ^ 15) r)) [
  | inl e ↦ carry (ground arith) (rw e)
  | inr e ↦ clear (ground arith) (rw e)
]

shift_bit-xor :
    (a b : ℕ)
    → a < 2 ^ 16
    → b < 2 ^ 16
    → shift_bit (bit_xor a b) ≡ bit_xor (shift_bit a) (shift_bit b)
shift_bit-xor a b ha hb =
    go (Top-cases a ha) (Top-cases b hb) (Top-cases (bit_xor a b) (xor-lt 16 a b ha hb))
  where
    sum : {s t : ℕ} → top a ≡ s → top b ≡ t → top (bit_xor a b) ≡ bit_xor s t
    sum p q = rw (← p, ← q) (top-xor a b)

    go :
        Top a
        → Top b
        → Top (bit_xor a b)
        → shift_bit (bit_xor a b) ≡ bit_xor (shift_bit a) (shift_bit b)
    go (clear p e) (clear q f) (clear r g) = rw (e, f, g) (doubled-xor a b)
    go (clear p e) (carry q f) (carry r g) = rw (e, f, g, doubled-xor) (xor_assoc _ _ _)
    go (carry p e) (clear q f) (carry r g) = rw (e, f, g, doubled-xor) (xor_swap _ _ _)
    go (carry p e) (carry q f) (clear r g) = rw (e, f, g, doubled-xor) (sym (xor_regroup _ _ _))
    go (clear p e) (clear q f) (carry r g) = absurd (omega (arith, sum p q))
    go (clear p e) (carry q f) (clear r g) = absurd (omega (arith, sum p q))
    go (carry p e) (clear q f) (clear r g) = absurd (omega (arith, sum p q))
    go (carry p e) (carry q f) (carry r g) = absurd (omega (arith, sum p q))

shift_bit-lt : (r : ℕ) → r < 2 ^ 16 → shift_bit r < 2 ^ 16
unfolding poly
shift_bit-lt r h = elim (Top-cases r h) [
  | clear p e ↦ rw e (omega arith)
  | carry p e ↦ rw e (xor-lt 16 (doubled r) poly (omega arith) (omega arith))
]

-- `n` shifts in a row, to prove facts about the eight of a byte by induction.
abbrev shift_bits : ℕ → ℕ → ℕ
shift_bits zero r = r
shift_bits (suc n) r = shift_bits n (shift_bit r)

shift_byte-shift_bits : (r : ℕ) → shift_byte r ≡ shift_bits 8 r
unfolding shift_byte
shift_byte-shift_bits r = refl

shift_bits-xor :
    (n a b : ℕ)
    → a < 2 ^ 16
    → b < 2 ^ 16
    → shift_bits n (bit_xor a b) ≡ bit_xor (shift_bits n a) (shift_bits n b)
shift_bits-xor zero a b ha hb = refl
shift_bits-xor (suc n) a b ha hb =
    rw (shift_bit-xor a b ha hb)
      (shift_bits-xor n (shift_bit a) (shift_bit b) (shift_bit-lt a ha) (shift_bit-lt b hb))

-- The reference shift of a byte's worth of bits is linear in the register.
pub shift_byte-xor :
    (a b : ℕ)
    → a < 2 ^ 16
    → b < 2 ^ 16
    → shift_byte (bit_xor a b) ≡ bit_xor (shift_byte a) (shift_byte b)
shift_byte-xor a b ha hb =
    rw (shift_byte-shift_bits, shift_byte-shift_bits a, shift_byte-shift_bits b)
      (shift_bits-xor 8 a b ha hb)

low_table : passes (λ l. shift_byte l == l * 2 ^ 8) 256 ≡ true
unfolding passes shift_byte
low_table = refl

-- The low byte only moves up.
pub shift_byte_low : (l : ℕ) → l < 2 ^ 8 → shift_byte l ≡ l * 2 ^ 8
shift_byte_low l h = (==_iff _ _).0 (passes-at _ 256 low_table l h)
