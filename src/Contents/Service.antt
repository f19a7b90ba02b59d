-- ===== src/Contents/Service.antt =====
-- communication/rx_message.cpp: the field `service` of a NavSatFix, from `signal_info` of PVTGeodetic.
pub mod Masks
use rosaic.Prelude.{
  ℕ, zero, suc, ◌+◌, ◌*◌, ◌/◌, ◌%◌, ◌≡◌, refl, ap, ◌∙◌, arith, Bool, true, false, not, ◌&&◌, ◌||◌,
  if◌then◌else◌, ◌==◌, leb,
}

pub record InPvt : Type 0 where
  pub gps_in_pvt : Bool
  pub glo_in_pvt : Bool
  pub com_in_pvt : Bool
  pub gal_in_pvt : Bool

-- The tests of a round of the loop; a system that was found stays found.
abbrev pub mark : ℕ → Bool → InPvt → InPvt
mark bit in_use found = record {
  gps_in_pvt = leb bit 5 && in_use || found.gps_in_pvt;
  glo_in_pvt = leb 8 bit && leb bit 12 && in_use || found.glo_in_pvt;
  com_in_pvt = (leb 13 bit && leb bit 14 || leb 28 bit && leb bit 30) && in_use || found.com_in_pvt;
  gal_in_pvt = (bit == 17 || leb 19 bit && leb bit 22) && in_use || found.gal_in_pvt;
}

-- The loop, with so many rounds to go and the mask of the bit.
unfoldable pub mark_bits : ℕ → ℕ → ℕ → ℕ → InPvt → InPvt
mark_bits signal_info zero bit mask found = found
mark_bits signal_info (suc rounds) bit mask found =
    mark_bits signal_info rounds (bit + 1) (mask * 2) (mark bit (signal_info / mask % 2 == 1) found)

abbrev pub to_int : Bool → ℕ
to_int true = 1
to_int false = 0

unfoldable pub in_pvt : ℕ → InPvt
in_pvt signal_info =
    mark_bits signal_info 31 0 1
      (record { gps_in_pvt = false; glo_in_pvt = false; com_in_pvt = false; gal_in_pvt = false })

unfoldable pub service : ℕ → ℕ
service signal_info =
    let found = in_pvt signal_info in
    to_int found.gps_in_pvt * 1
    + to_int found.glo_in_pvt * 2
    + to_int found.com_in_pvt * 4
    + to_int found.gal_in_pvt * 8
