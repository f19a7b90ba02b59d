-- ===== src/Contents/FixStatus.antt =====
-- communication/rx_message.cpp: the status of a fix in `NavSatFixCallback` and `GPSFixCallback`, and
-- the map `type_of_pvt_map` that both read, and that grows when a key is missing.
pub mod Table
use rosaic.Prelude.{
  ℕ, zero, suc, ◌+◌, ◌%◌, ◌≡◌, refl, ap, ◌∙◌, arith, Bool, true, false, Bool-cases, inl, inr, ◌&&◌,
  ◌||◌, if◌then◌else◌, ◌==◌, List, [], ◌∷◌, ◌++◌, Option, none, some,
}

-- `TypeOfPVT_Enum`
pub data TypeOfPvt : Type 0 where
  no_pvt : TypeOfPvt
  stand_alone : TypeOfPvt
  dgps : TypeOfPvt
  fixed : TypeOfPvt
  rtk_fixed : TypeOfPvt
  rtk_float : TypeOfPvt
  sbas : TypeOfPvt
  moving_base_rtk_fixed : TypeOfPvt
  moving_base_rtk_float : TypeOfPvt
  ppp : TypeOfPvt

abbrev pub TypeOfPvtMap : Type 0
TypeOfPvtMap = List (ℕ × TypeOfPvt)

-- `type_of_pvt_pairs`
abbrev pub type_of_pvt_pairs : TypeOfPvtMap
type_of_pvt_pairs =
    (0, no_pvt)
    ∷ (1, stand_alone)
    ∷ (2, dgps)
    ∷ (3, fixed)
    ∷ (4, rtk_fixed)
    ∷ (5, rtk_float)
    ∷ (6, sbas)
    ∷ (7, moving_base_rtk_fixed)
    ∷ (8, moving_base_rtk_float)
    ∷ (10, ppp)
    ∷ []

-- `map::operator[]`: a key that is missing is inserted, with the first constructor.
unfoldable pub find_pvt : ℕ → TypeOfPvtMap → Option TypeOfPvt
find_pvt key [] = none
find_pvt key ((k, t) ∷ pairs) = if k == key then some t else find_pvt key pairs

unfoldable pub at_key : ℕ → TypeOfPvtMap → TypeOfPvt × TypeOfPvtMap
at_key key pairs = elim (find_pvt key pairs) [
  | some t ↦ (t, pairs)
  | none ↦ (no_pvt, pairs ++ (key, no_pvt) ∷ [])
]

-- The statuses that the two messages have in common, and the one that only a GPSFix has.
pub data FixStatus : Type 0 where
  no_fix : FixStatus
  fix : FixStatus
  sbas_fix : FixStatus
  gbas_fix : FixStatus
  waas_fix : FixStatus

-- The switch of `NavSatFixCallback`; no constructor is left for its default, which throws.
abbrev pub nav_sat_status : TypeOfPvt → FixStatus
nav_sat_status no_pvt = no_fix
nav_sat_status stand_alone = fix
nav_sat_status fixed = fix
nav_sat_status dgps = gbas_fix
nav_sat_status rtk_fixed = gbas_fix
nav_sat_status rtk_float = gbas_fix
nav_sat_status moving_base_rtk_fixed = gbas_fix
nav_sat_status moving_base_rtk_float = gbas_fix
nav_sat_status ppp = gbas_fix
nav_sat_status sbas = sbas_fix

-- The satellites that the comment calls those of WAAS.
abbrev pub is_waas : ℕ → Bool
is_waas id = id == 131 || id == 133 || id == 135 || id == 135

-- The switch of `GPSFixCallback`.
abbrev pub gps_status : ℕ → TypeOfPvt → FixStatus
gps_status reference_id no_pvt = no_fix
gps_status reference_id stand_alone = fix
gps_status reference_id fixed = fix
gps_status reference_id dgps = gbas_fix
gps_status reference_id rtk_fixed = gbas_fix
gps_status reference_id rtk_float = gbas_fix
gps_status reference_id moving_base_rtk_fixed = gbas_fix
gps_status reference_id moving_base_rtk_float = gbas_fix
gps_status reference_id ppp = gbas_fix
gps_status reference_id sbas = if is_waas reference_id then waas_fix else sbas_fix

-- What each callback reads from the map and leaves of it, for the field `mode` of PVTGeodetic.
unfoldable pub nav_sat_fix : ℕ → TypeOfPvtMap → FixStatus × TypeOfPvtMap
nav_sat_fix mode pairs = let (t, now) = at_key (mode % 16) pairs in (nav_sat_status t, now)

unfoldable pub gps_fix : ℕ → ℕ → TypeOfPvtMap → FixStatus × TypeOfPvtMap
gps_fix mode reference_id pairs =
    let (t, now) = at_key (mode % 16) pairs in (gps_status reference_id t, now)

-- The map after calls of the two with fields `mode` and `reference_id`.
pub data StatusCall : Type 0 where
  nav_sat : ℕ → StatusCall
  gps : ℕ → ℕ → StatusCall

unfoldable pub calls : List StatusCall → TypeOfPvtMap → TypeOfPvtMap
calls [] pairs = pairs
calls (nav_sat mode ∷ later) pairs = calls later (nav_sat_fix mode pairs).1
calls (gps mode reference_id ∷ later) pairs = calls later (gps_fix mode reference_id pairs).1
