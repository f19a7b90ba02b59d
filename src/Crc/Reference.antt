-- ===== src/Crc/Reference.antt =====
-- The CRC-CCITT check sum bit by bit, as the division by x^16 + x^12 + x^5 + 1: what the table
-- driven loop of crc.c is to compute.
pub mod Linear
use Prim.Native.Nat.{bit_xor}
use rosaic.Prelude.{ℕ, ◌*◌, ◌%◌, ◌^◌, List, [], ◌∷◌, if◌then◌else◌, leb}

-- One shift of the 16-bit register: the bit that leaves it subtracts the polynomial.
unfoldable pub shift_bit : ℕ → ℕ
shift_bit r = if leb (2 ^ 15) r then bit_xor (2 * r % 2 ^ 16) 0x1021 else 2 * r % 2 ^ 16

unfoldable pub shift_byte : ℕ → ℕ
unfolding shift_bit
shift_byte r =
    shift_bit (shift_bit (shift_bit (shift_bit (shift_bit (shift_bit (shift_bit (shift_bit r)))))))

-- A message byte enters at the top of the register.
unfoldable pub divide : ℕ → List ℕ → ℕ
divide r [] = r
divide r (byte ∷ buf) = divide (shift_byte (bit_xor r (byte * 2 ^ 8))) buf
