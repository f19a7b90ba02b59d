-- ===== src/Contents/Service/Masks.antt =====
-- The loop over the bits of `signal_info`, against masks for the systems.
use rosaic.Prelude.{ℕ, ◌+◌, ◌*◌, ◌/◌, ◌%◌, ◌^◌, ◌≡◌, arith, not, ◌||◌, ◌==◌}
use rosaic.Contents.Service.{in_pvt, mark_bits, to_int, service}

gps_lem : (x : ℕ) → (in_pvt x).gps_in_pvt ≡ not (x % 64 == 0)
unfolding in_pvt mark_bits
gps_lem x = ground arith

glo_lem : (x : ℕ) → (in_pvt x).glo_in_pvt ≡ not (x / 2 ^ 8 % 2 ^ 5 == 0)
unfolding in_pvt mark_bits
glo_lem x = ground arith

com_lem :
    (x : ℕ)
    → (in_pvt x).com_in_pvt ≡ (not (x / 2 ^ 13 % 2 ^ 2 == 0) || not (x / 2 ^ 28 % 2 ^ 3 == 0))
unfolding in_pvt mark_bits
com_lem x = ground arith

gal_lem : (x : ℕ) → (in_pvt x).gal_in_pvt ≡ ((x / 2 ^ 17 % 2 == 1) || not (x / 2 ^ 19 % 2 ^ 4 == 0))
unfolding in_pvt mark_bits
gal_lem x = ground arith

-- A system is used if some bit is set among its own: 0 to 5 for GPS, 8 to 12 for GLONASS, 13, 14 and
-- 28 to 30 for BeiDou (COMPASS), 17 and 19 to 22 for Galileo.
unfoldable pub service_of_masks : ℕ → ℕ
service_of_masks x =
    let gps = not (x % 2 ^ 6 == 0) in
    let glo = not (x / 2 ^ 8 % 2 ^ 5 == 0) in
    let compass = not (x / 2 ^ 13 % 2 ^ 2 == 0) || not (x / 2 ^ 28 % 2 ^ 3 == 0) in
    let gal = (x / 2 ^ 17 % 2 == 1) || not (x / 2 ^ 19 % 2 ^ 4 == 0) in
    to_int gps + 2 * to_int glo + 4 * to_int compass + 8 * to_int gal

-- For every `signal_info`, the loop over the bits gives the service that the masks of the four systems
-- give; the bits outside of the masks do not count.
pub service_masks : (signal_info : ℕ) → service signal_info ≡ service_of_masks signal_info
unfolding service service_of_masks
service_masks x = simp (gps_lem x, glo_lem x, com_lem x, gal_lem x) (omega arith)
