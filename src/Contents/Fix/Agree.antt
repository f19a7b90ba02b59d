-- ===== src/Contents/Fix/Agree.antt =====
-- The position in the three messages that are made of PVTGeodetic and PosCovGeodetic.
use rosaic.Prelude.{◌≡◌, refl, [], ◌∷◌}
use rosaic.Contents.Fix.{Blocks, gps_numbers, gps_position, nav_sat_position}
use rosaic.Contents.Pose.{Reals, Pose, pose_callback}
use rosaic.Contents.Pose.Entries.{east, north, up, rows, covariance_of}

abbrev pose_of : {D : Type 0} → Reals D → Blocks → Pose D
pose_of reals blocks =
    pose_callback reals blocks.atteuler blocks.pvtgeodetic blocks.poscovgeodetic blocks.attcoveuler

-- Three callbacks give one position: the fixes agree in it, the pose has their longitude, latitude and
-- altitude as its coordinates, and the covariance of the fixes is that of the first three coordinates
-- of the pose, row by row.
positions_agree :
    {D : Type 0} (reals : Reals D) (blocks : Blocks)
    → let position = nav_sat_position reals blocks in
      let pose = pose_of reals blocks in
      let places = east ∷ north ∷ up ∷ [] in
      ((gps_numbers reals blocks).place ≡ position)
      × (pose.position_x ≡ position.longitude)
      × (pose.position_y ≡ position.latitude)
      × (pose.position_z ≡ position.altitude)
      × (position.position_covariance
          ≡ rows places places (covariance_of reals blocks.poscovgeodetic blocks.attcoveuler))
unfolding gps_numbers gps_position nav_sat_position pose_callback
positions_agree reals blocks = (refl, refl, refl, refl, refl)
