-- ===== src/Contents/Pose/Entries.antt =====
-- The entries of the covariance of a pose against the covariances of its six coordinates.
use Prim.Native.String.{String}
use rosaic.Prelude.{
  ℕ, ◌≡◌, ◌↔◌, refl, sym, ap, ◌∙◌, if◌then◌else◌, leb, List, [], ◌∷◌, ◌++◌, map, get_or,
}
use rosaic.Contents.{Memory}
use rosaic.Contents.Fields.{member}
use rosaic.Contents.Pose.{Reals, pose_covariance}
use rosaic.Structs.Solutions.{att_cov_euler_members, pos_cov_geodetic_members}

-- The coordinates, in the order of the rows: east is longitude, north latitude, up height.
pub data Axis : Type 0 where
  east north up roll pitch heading : Axis

abbrev pub rank : Axis → ℕ
rank east = 0
rank north = 1
rank up = 2
rank roll = 3
rank pitch = 4
rank heading = 5

abbrev pub axes : List Axis
axes = east ∷ north ∷ up ∷ roll ∷ pitch ∷ heading ∷ []

-- The entries of a matrix, row by row.
abbrev pub rows : {A : Type 0} → List Axis → List Axis → (Axis → Axis → A) → List A
rows [] columns entry = []
rows (a ∷ more) columns entry = map (entry a) columns ++ rows more columns entry

module _ {D : Type 0} (reals : Reals D) (poscov attcov : Memory) where
  open reals use {number, of_nat}

  abbrev pub pos_entry : String → D
  pos_entry name = number (member poscov pos_cov_geodetic_members name)

  abbrev pub att_entry : String → D
  att_entry name = number (member attcov att_cov_euler_members name)

  -- The covariance of two coordinates, the first not after the second.
  abbrev pub ordered_covariance : Axis → Axis → D
  ordered_covariance east east = pos_entry "cov_lonlon"
  ordered_covariance east north = pos_entry "cov_latlon"
  ordered_covariance east up = pos_entry "cov_lonhgt"
  ordered_covariance north north = pos_entry "cov_latlat"
  ordered_covariance north up = pos_entry "cov_lathgt"
  ordered_covariance up up = pos_entry "cov_hgthgt"
  ordered_covariance roll roll = att_entry "cov_rollroll"
  ordered_covariance roll pitch = att_entry "cov_pitchroll"
  ordered_covariance roll heading = att_entry "cov_headroll"
  ordered_covariance pitch pitch = att_entry "cov_pitchpitch"
  ordered_covariance pitch heading = att_entry "cov_headpitch"
  ordered_covariance heading heading = att_entry "cov_headhead"
  ordered_covariance _ _ = of_nat 0

  -- The covariance of two coordinates, whatever their order.
  abbrev pub covariance_of : Axis → Axis → D
  covariance_of a b =
      if leb (rank a) (rank b) then ordered_covariance a b else ordered_covariance b a

  -- The covariance matrix of the coordinates.
  abbrev pub covariance_matrix : List D
  covariance_matrix = rows axes axes covariance_of

  -- The matrix with some number for heading and pitch in the last row.
  abbrev pub with_last_row : D → List D
  with_last_row x = rows axes axes entry
    where
      entry : Axis → Axis → D
      entry heading pitch = x
      entry a b = covariance_of a b

  pose_covariance_last_row :
      pose_covariance reals poscov attcov ≡ with_last_row (att_entry "cov_pitchroll")
  unfolding pose_covariance
  pose_covariance_last_row = refl

  -- The covariance of a pose is the covariance matrix of its coordinates exactly if the receiver gives
  -- the same number for pitch and roll as for heading and pitch: each other entry is in its place.
  pub pose_covariance_entries :
      (pose_covariance reals poscov attcov ≡ covariance_matrix)
      ↔ (att_entry "cov_pitchroll" ≡ att_entry "cov_headpitch")
  pose_covariance_entries = (
    λ e. ap (λ entries. get_or entries 34 (of_nat 0)) (sym pose_covariance_last_row ∙ e),
    λ e. pose_covariance_last_row ∙ ap with_last_row e,
  )
