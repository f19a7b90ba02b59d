-- ===== src/Contents/Pose.antt =====
-- communication/rx_message.cpp: the pose with its covariance, and `convertEulerToQuaternion` of
-- parsers/parsing_utilities.cpp. The arithmetic of doubles is a parameter.
pub mod Entries
use Prim.Native.String.{String}
use rosaic.Prelude.{ℕ, List, [], ◌∷◌}
use rosaic.Contents.{Memory}
use rosaic.Contents.Fields.{Value, member}
use rosaic.Structs.Solutions.{
  pvt_geodetic_members, att_euler_members, att_cov_euler_members, pos_cov_geodetic_members,
}

-- Doubles: those that a member of four or eight bytes stands for, the integers, and the operations and
-- constants of the source.
pub record Reals (D : Type 0) : Type 0 where
  pub number : Value → D
  pub of_nat : ℕ → D
  pub minus_one : D
  pub pi : D
  pub half : D → D
  pub plus : D → D → D
  pub minus : D → D → D
  pub times : D → D → D
  pub over : D → D → D
  pub square : D → D
  pub root : D → D
  pub cosine : D → D
  pub sine : D → D

pub record Quaternion (D : Type 0) : Type 0 where
  pub qw : D
  pub qx : D
  pub qy : D
  pub qz : D

-- What PoseWithCovarianceStamped holds.
pub record Pose (D : Type 0) : Type 0 where
  pub orientation : Quaternion D
  pub position_x : D
  pub position_y : D
  pub position_z : D
  pub covariance : List D

module _ {D : Type 0} (reals : Reals D) where
  open reals use {number, of_nat, pi, half, plus, minus, times, over, cosine, sine}

  -- `convertEulerToQuaternion`
  unfoldable pub convert_euler_to_quaternion : D → D → D → Quaternion D
  convert_euler_to_quaternion yaw pitch roll =
      let cy = cosine (half yaw) in
      let sy = sine (half yaw) in
      let cp = cosine (half pitch) in
      let sp = sine (half pitch) in
      let cr = cosine (half roll) in
      let sr = sine (half roll) in
      record {
        qw = plus (times (times cr cp) cy) (times (times sr sp) sy);
        qx = minus (times (times sr cp) cy) (times (times cr sp) sy);
        qy = plus (times (times cr sp) cy) (times (times sr cp) sy);
        qz = minus (times (times cr cp) sy) (times (times sr sp) cy);
      }

  -- An angle in degrees.
  abbrev pub in_degrees : Value → D
  in_degrees radians = over (times (number radians) (of_nat 360)) (times (of_nat 2) pi)

  -- `pose.covariance`, from PosCovGeodetic and AttCovEuler.
  unfoldable pub pose_covariance : Memory → Memory → List D
  pose_covariance poscov attcov =
      let pos = λ (name : String). number (member poscov pos_cov_geodetic_members name) in
      let att = λ (name : String). number (member attcov att_cov_euler_members name) in
      let nought = of_nat 0 in
      pos "cov_lonlon"
      ∷ pos "cov_latlon"
      ∷ pos "cov_lonhgt"
      ∷ nought
      ∷ nought
      ∷ nought
      ∷ pos "cov_latlon"
      ∷ pos "cov_latlat"
      ∷ pos "cov_lathgt"
      ∷ nought
      ∷ nought
      ∷ nought
      ∷ pos "cov_lonhgt"
      ∷ pos "cov_lathgt"
      ∷ pos "cov_hgthgt"
      ∷ nought
      ∷ nought
      ∷ nought
      ∷ nought
      ∷ nought
      ∷ nought
      ∷ att "cov_rollroll"
      ∷ att "cov_pitchroll"
      ∷ att "cov_headroll"
      ∷ nought
      ∷ nought
      ∷ nought
      ∷ att "cov_pitchroll"
      ∷ att "cov_pitchpitch"
      ∷ att "cov_headpitch"
      ∷ nought
      ∷ nought
      ∷ nought
      ∷ att "cov_headroll"
      ∷ att "cov_pitchroll"
      ∷ att "cov_headhead"
      ∷ []

  -- `PoseWithCovarianceStampedCallback`, from AttEuler, PVTGeodetic, PosCovGeodetic and AttCovEuler.
  unfoldable pub pose_callback : Memory → Memory → Memory → Memory → Pose D
  pose_callback atteuler pvt poscov attcov =
      let att = λ (name : String). number (member atteuler att_euler_members name) in
      record {
        orientation = convert_euler_to_quaternion (att "heading") (att "pitch") (att "roll");
        position_x = in_degrees (member pvt pvt_geodetic_members "longitude");
        position_y = in_degrees (member pvt pvt_geodetic_members "latitude");
        position_z = number (member pvt pvt_geodetic_members "height");
        covariance = pose_covariance poscov attcov;
      }
