-- ===== src/Contents/Fix.antt =====
-- communication/rx_message.cpp: the numbers that `NavSatFixCallback` and `GPSFixCallback` compute, on the
-- doubles of Contents/Pose.
pub mod Unknown
mod Time
mod Agree
mod Tests
use Prim.Native.String.{String}
use rosaic.Prelude.{
  ℕ, ◌+◌, ◌*◌, ◌^◌, Bool, ◌||◌, if◌then◌else◌, ltb, ◌==◌, Option, none, some, List, [], ◌∷◌,
}
use rosaic.Contents.{Memory}
use rosaic.Contents.Fields.{Value, member}
use rosaic.Contents.Pose.{Reals, in_degrees}
use rosaic.Structs.Solutions.{
  pvt_geodetic_members, att_euler_members, att_cov_euler_members, pos_cov_geodetic_members,
  vel_cov_geodetic_members, dop_members,
}

-- The last blocks that the callback reads.
pub record Blocks : Type 0 where
  pub pvtgeodetic : Memory
  pub poscovgeodetic : Memory
  pub velcovgeodetic : Memory
  pub atteuler : Memory
  pub attcoveuler : Memory
  pub last_dop : Memory

-- An unsigned member, its lowest byte first.
abbrev pub unsigned : Value → ℕ
unsigned [] = 0
unsigned (b ∷ bytes) = b + 256 * unsigned bytes

abbrev pub pvt_field : Blocks → String → Value
pvt_field blocks name = member blocks.pvtgeodetic pvt_geodetic_members name

abbrev pub dop_field : Blocks → String → ℕ
dop_field blocks name = unsigned (member blocks.last_dop dop_members name)

-- A product of numbers of type `int`, `none` where it leaves the type.
abbrev pub int_times : Option ℕ → ℕ → Option ℕ
int_times none b = none
int_times (some a) b = if ltb (a * b) (2 ^ 31) then some (a * b) else none

-- `wnc * 7 * 24 * 60 * 60`
unfoldable pub week_seconds : ℕ → Option ℕ
week_seconds wnc = int_times (int_times (int_times (int_times (some wnc) 7) 24) 60) 60

-- What NavSatFix holds of the position.
pub record Position (D : Type 0) : Type 0 where
  pub latitude : D
  pub longitude : D
  pub altitude : D
  pub position_covariance : List D

-- What GPSFix holds of the motion, the attitude and the precision.
pub record Motion (D : Type 0) : Type 0 where
  pub track : D
  pub speed : D
  pub climb : D
  pub pitch : D
  pub roll : D
  pub time : Option D

pub record Dilution (D : Type 0) : Type 0 where
  pub gdop : D
  pub pdop : D
  pub hdop : D
  pub vdop : D
  pub tdop : D

pub record Errors (D : Type 0) : Type 0 where
  pub err : D
  pub err_horz : D
  pub err_vert : D
  pub err_track : D
  pub err_speed : D
  pub err_climb : D
  pub err_time : D
  pub err_pitch : D
  pub err_roll : D

pub record FixNumbers (D : Type 0) : Type 0 where
  pub place : Position D
  pub motion : Motion D
  pub dilution : Dilution D
  pub errors : Errors D

module _ {D : Type 0} (reals : Reals D) (blocks : Blocks) where
  open reals use {number, of_nat, minus_one, plus, times, over, square, root}

  abbrev pvt_number : String → D
  pvt_number name = number (pvt_field blocks name)

  abbrev poscov : String → D
  poscov name = number (member blocks.poscovgeodetic pos_cov_geodetic_members name)

  abbrev velcov : String → D
  velcov name = number (member blocks.velcovgeodetic vel_cov_geodetic_members name)

  abbrev attcov : String → D
  attcov name = number (member blocks.attcoveuler att_cov_euler_members name)

  abbrev att : String → D
  att name = number (member blocks.atteuler att_euler_members name)

  -- `NavSatFixCallback`, and the same lines of `GPSFixCallback`
  unfoldable pub nav_sat_position : Position D
  nav_sat_position = record {
    latitude = in_degrees reals (pvt_field blocks "latitude");
    longitude = in_degrees reals (pvt_field blocks "longitude");
    altitude = pvt_number "height";
    position_covariance =
        poscov "cov_lonlon"
        ∷ poscov "cov_latlon"
        ∷ poscov "cov_lonhgt"
        ∷ poscov "cov_latlon"
        ∷ poscov "cov_latlat"
        ∷ poscov "cov_lathgt"
        ∷ poscov "cov_lonhgt"
        ∷ poscov "cov_lathgt"
        ∷ poscov "cov_hgthgt"
        ∷ [];
  }

  -- `GPSFixCallback`
  unfoldable pub gps_position : Position D
  gps_position = record {
    latitude = in_degrees reals (pvt_field blocks "latitude");
    longitude = in_degrees reals (pvt_field blocks "longitude");
    altitude = pvt_number "height";
    position_covariance =
        poscov "cov_lonlon"
        ∷ poscov "cov_latlon"
        ∷ poscov "cov_lonhgt"
        ∷ poscov "cov_latlon"
        ∷ poscov "cov_latlat"
        ∷ poscov "cov_lathgt"
        ∷ poscov "cov_lonhgt"
        ∷ poscov "cov_lathgt"
        ∷ poscov "cov_hgthgt"
        ∷ [];
  }

  abbrev weeks_and : D → Option ℕ → Option D
  weeks_and seconds none = none
  weeks_and seconds (some weeks) = some (plus seconds (of_nat weeks))

  -- `time` is `none` where the product of `int` overflows.
  unfoldable pub gps_motion : Motion D
  gps_motion = record {
    track = pvt_number "cog";
    speed = root (plus (square (pvt_number "vn")) (square (pvt_number "ve")));
    climb = pvt_number "vu";
    pitch = att "pitch";
    roll = att "roll";
    time =
        weeks_and (over (of_nat (unsigned (pvt_field blocks "tow"))) (of_nat 1000))
          (week_seconds (unsigned (pvt_field blocks "wnc")));
  }

  abbrev hundredth : String → D
  hundredth name = over (of_nat (dop_field blocks name)) (of_nat 100)

  abbrev dop_or_unknown : String → D
  dop_or_unknown name = if dop_field blocks name == 0 then minus_one else hundredth name

  unfoldable pub gps_dilution : Dilution D
  gps_dilution = record {
    gdop =
        if dop_field blocks "pdop" == 0 || dop_field blocks "tdop" == 0
        then minus_one
        else root (plus (square (hundredth "pdop")) (square (hundredth "tdop")));
    pdop = dop_or_unknown "pdop";
    hdop = dop_or_unknown "hdop";
    vdop = dop_or_unknown "vdop";
    tdop = dop_or_unknown "tdop";
  }

  abbrev twice_root : D → D
  twice_root x = times (of_nat 2) (root x)

  unfoldable pub gps_errors : Errors D
  gps_errors =
      let vn = pvt_number "vn" in
      let ve = pvt_number "ve" in
      record {
        err =
            twice_root
              (plus (plus (poscov "cov_latlat") (poscov "cov_lonlon")) (poscov "cov_hgthgt"));
        err_horz = twice_root (plus (poscov "cov_latlat") (poscov "cov_lonlon"));
        err_vert = twice_root (poscov "cov_hgthgt");
        err_track = twice_root (
            plus
              (times (square (over (of_nat 1) (plus vn (over (square ve) vn))))
                (poscov "cov_lonlon"))
              (times (square (over ve (plus (square vn) (square ve)))) (poscov "cov_latlat")));
        err_speed = twice_root (plus (velcov "cov_vnvn") (velcov "cov_veve"));
        err_climb = twice_root (velcov "cov_vuvu");
        err_time = twice_root (poscov "cov_bb");
        err_pitch = twice_root (attcov "cov_pitchpitch");
        err_roll = twice_root (attcov "cov_rollroll");
      }

  -- `GPSFixCallback`, after the status
  unfoldable pub gps_numbers : FixNumbers D
  gps_numbers = record {
    place = gps_position;
    motion = gps_motion;
    dilution = gps_dilution;
    errors = gps_errors;
  }
