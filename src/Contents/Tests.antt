-- ===== src/Contents/Tests.antt =====
-- Blocks with two sub-blocks, and the theorems on them.
use rosaic.Prelude.{
  ℕ, zero, suc, ◌%◌, ◌≡◌, refl, arith, ◌&&◌, if◌then◌else◌, ◌==◌, List, [], ◌∷◌, ◌++◌, get_or, some,
}
use rosaic.Parsers.{negsuc}
use rosaic.Contents.{
  Memory, Status, satellite_fields, tracked, track_channels, visible, position_in_sync,
  push_satellite, used, reorder, cno,
}
use rosaic.Contents.Satellites.{IsAligned, satellite_fields-IsAligned}
use rosaic.Contents.Diagnostics.{
  find, level, label, filled, outside, diagnostic_array, gnss_signals_main_antenna,
}
use rosaic.Contents.Diagnostics.Values.{entries, Labelled, overall_last, overall_before}
use rosaic.Contents.FixStatus.{
  waas_fix, is_waas, nav_sat_fix, gps_fix, nav_sat, gps, calls, type_of_pvt_pairs,
}
use rosaic.Contents.FixStatus.Table.{status_of_mode, statuses_of_mode}
use rosaic.Contents.Service.{service}
use rosaic.Contents.Service.Masks.{service_of_masks, service_masks}

abbrev zeros : ℕ → List ℕ
zeros zero = []
zeros (suc k) = 0 ∷ zeros k

-- Satellites 5 and 7, with C/N0 fields of 160 and 120 and a signal of another type for the second.
abbrev measepoch : Memory
measepoch i =
    get_or
      (zeros 14
        ++ 2 ∷ 20 ∷ 12 ∷ 0 ∷ 0 ∷ 0 ∷ 0 ∷ 0 ∷ 5 ∷ zeros 12
        ++ 160 ∷ 0 ∷ 0 ∷ 0 ∷ 0 ∷ 0 ∷ 1 ∷ 7 ∷ zeros 12
        ++ 120 ∷ zeros 4)
      i 0

-- Satellites 7 and 9.
abbrev channelstatus : Memory
channelstatus i =
    get_or
      (zeros 14
        ++ 2 ∷ 12 ∷ 8 ∷ 0 ∷ 0 ∷ 0 ∷ 7 ∷ 0 ∷ 0 ∷ 0 ∷ 44 ∷ 1 ∷ 0 ∷ 0 ∷ 255 ∷ 0 ∷ 0 ∷ 0 ∷ 9 ∷ zeros 11)
      i 0

satellite_fields-IsAligned_example :
    (s : Status) × (satellite_fields measepoch channelstatus ≡ some s)
    × IsAligned (tracked measepoch) s
satellite_fields-IsAligned_example = satellite_fields-IsAligned measepoch channelstatus

-- A value of 7 for the main antenna, and an overall quality of 2 behind it or before it.
abbrev last_quality : Memory
last_quality i = get_or (zeros 14 ++ 2 ∷ 0 ∷ 1 ∷ 7 ∷ 0 ∷ 2 ∷ []) i 0

abbrev first_quality : Memory
first_quality i = get_or (zeros 14 ++ 2 ∷ 0 ∷ 0 ∷ 2 ∷ 1 ∷ 7 ∷ []) i 0

known_before : Labelled last_quality 1 2
unfolding label
known_before zero inside other = (gnss_signals_main_antenna, refl)
known_before (suc zero) inside other = absurd (other refl)
known_before (suc (suc i)) inside other = absurd (omega (arith, inside))

known_behind : Labelled first_quality 0 2
unfolding label
known_behind zero inside other = absurd (other refl)
known_behind (suc zero) inside other = (gnss_signals_main_antenna, refl)
known_behind (suc (suc i)) inside other = absurd (omega (arith, inside))

overall_last_example : (diagnostic_array last_quality 0 9).1 ≡ filled (entries last_quality 1 0)
unfolding find
overall_last_example = overall_last last_quality 0 9 1 refl refl known_before

overall_before_example :
    diagnostic_array first_quality 0 9 ≡ (level first_quality 0 (some 0), outside)
unfolding find
overall_before_example = overall_before first_quality 0 9 0 refl (omega arith) known_behind

-- A mode of 9, which the map does not list, before one of 6.
statuses_of_mode_example :
    ((nav_sat_fix 70 (calls (nav_sat 9 ∷ gps 9 131 ∷ []) type_of_pvt_pairs)).0
      ≡ status_of_mode (70 % 16))
    × ((gps_fix 70 131 (calls (nav_sat 9 ∷ gps 9 131 ∷ []) type_of_pvt_pairs)).0
        ≡ (if is_waas 131 && 70 % 16 == 6 then waas_fix else status_of_mode (70 % 16)))
statuses_of_mode_example = statuses_of_mode (nav_sat 9 ∷ gps 9 131 ∷ []) 70 131

service_masks_example : service 131201 ≡ service_of_masks 131201
service_masks_example = service_masks 131201

-- Satellite 7 is visible, below the horizon, with the ratio of its sub-block of type 1.
satellites_run :
    satellite_fields measepoch channelstatus
    ≡ some (record {
      satellite_used_prn = [];
      satellites_visible = 2;
      satellite_visible_prn = 7 ∷ [];
      satellite_visible_z = negsuc 0 ∷ [];
      satellite_visible_azimuth = 300 ∷ [];
      satellite_visible_snr = 30 ∷ [];
    })
unfolding satellite_fields track_channels visible position_in_sync push_satellite used reorder cno
satellites_run = refl
