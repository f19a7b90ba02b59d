-- ===== src/Crc/Tests.antt =====
-- The check sum on known inputs, and its theorems at inputs that meet their hypotheses.
use rosaic.Prelude.{ℕ, ◌≡◌, ◌≢◌, refl, arith, List, [], ◌∷◌, true, false, some, none}
use rosaic.Crc.{
  compute16ccitt, crc_loop, crc_step, look_up, is_valid, read_u16, read_bytes, crc_span,
}
use rosaic.Crc.Reference.{divide}
use rosaic.Crc.Equiv.{compute16ccitt_divides}
use rosaic.Crc.Detect.{compute16ccitt_detects}
use rosaic.Crc.Block.{Header, block_of, is_valid_detects}

-- The check value of CRC-16/XMODEM.
abbrev digits : List ℕ
digits = 0x31 ∷ 0x32 ∷ 0x33 ∷ 0x34 ∷ 0x35 ∷ 0x36 ∷ 0x37 ∷ 0x38 ∷ 0x39 ∷ []

compute16ccitt_check : compute16ccitt digits ≡ 0x31c3
unfolding compute16ccitt crc_loop crc_step look_up
compute16ccitt_check = refl

compute16ccitt_divides_example : compute16ccitt digits ≡ divide 0 digits
compute16ccitt_divides_example = compute16ccitt_divides digits (omega arith)

other_byte : ◌≢◌ {A = List ℕ} (7 ∷ []) (8 ∷ [])
other_byte = ground arith

other : ◌≢◌ {A = List ℕ} (3 ∷ []) (8 ∷ [])
other = ground arith

compute16ccitt_detects_example :
    compute16ccitt (1 ∷ 2 ∷ 7 ∷ 9 ∷ []) ≢ compute16ccitt (1 ∷ 2 ∷ 8 ∷ 9 ∷ [])
compute16ccitt_detects_example =
    compute16ccitt_detects (1 ∷ 2 ∷ []) (7 ∷ []) (8 ∷ []) (9 ∷ []) (omega arith) (omega arith)
      (omega arith) refl (omega arith) other_byte

-- A block of 12 bytes with identifier 4007.
abbrev header : Header
header = record {
  sync_1 = 0x24;
  sync_2 = 0x40;
  crc_low = 0xf8;
  crc_high = 0xcd;
  id_low = 0xa7;
  id_high = 0x0f;
  length_low = 12;
  length_high = 0;
}

pub header_accepted : is_valid (block_of header (1 ∷ 2 ∷ 3 ∷ 4 ∷ [])) ≡ some true
unfolding is_valid read_u16 read_bytes crc_span compute16ccitt crc_loop crc_step look_up
header_accepted = refl

-- A block that is cut off, and one whose length field is 0.
header_faults :
    (is_valid (block_of header (1 ∷ 2 ∷ 3 ∷ [])) ≡ none)
    × (is_valid (block_of (record header { length_low = 0 }) (1 ∷ 2 ∷ 3 ∷ 4 ∷ [])) ≡ none)
unfolding is_valid read_u16 read_bytes crc_span
header_faults = (refl, refl)

is_valid_detects_example : is_valid (block_of header (1 ∷ 2 ∷ 8 ∷ 4 ∷ [])) ≡ some false
is_valid_detects_example =
    is_valid_detects header (1 ∷ 2 ∷ []) (3 ∷ []) (8 ∷ []) (4 ∷ []) (omega arith) (omega arith)
      (omega arith) refl (omega arith) refl (omega arith) header_accepted other
