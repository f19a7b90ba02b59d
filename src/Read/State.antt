-- ===== src/Read/State.antt =====
-- The state that `RxMessage::read` works on: the message, the global flags and the messages that
-- went out.
use rosaic.Prelude.{ℕ, Bool, List}
use rosaic.Parsers.{ℤ, Conversion}
use rosaic.Nmea.{Field}
use rosaic.RxMessage.{RxMessage, Descriptors}
use rosaic.Time.{Stamp, Pause, Calendar}
use rosaic.Parsers.Doubles.{Doubles, Host}

-- `RxID_Enum`
pub data RxId : Type 0 where
  nav_sat_fix gps_fix pose_with_covariance_stamped : RxId
  gpgga gprmc gpgsa gpgsv glgsv gagsv : RxId
  pvt_cartesian pvt_geodetic pos_cov_cartesian pos_cov_geodetic att_euler att_cov_euler : RxId
  gpst channel_status meas_epoch dop vel_cov_geodetic : RxId
  diagnostic_array receiver_status quality_ind receiver_setup : RxId

-- The flags `g_..._has_arrived_...`.
pub record Arrived : Type 0 where
  pub channelstatus_gpsfix : Bool
  pub measepoch_gpsfix : Bool
  pub dop_gpsfix : Bool
  pub pvtgeodetic_gpsfix : Bool
  pub pvtgeodetic_navsatfix : Bool
  pub pvtgeodetic_pose : Bool
  pub poscovgeodetic_gpsfix : Bool
  pub poscovgeodetic_navsatfix : Bool
  pub poscovgeodetic_pose : Bool
  pub velcovgeodetic_gpsfix : Bool
  pub atteuler_gpsfix : Bool
  pub atteuler_pose : Bool
  pub attcoveuler_gpsfix : Bool
  pub attcoveuler_pose : Bool
  pub receiverstatus_diagnostics : Bool
  pub qualityind_diagnostics : Bool

-- What a branch does besides setting flags: it copies the block into the static `last_...` of its
-- kind, sleeps, or publishes a message with a stamp.
pub data Event : Type 0 where
  store : RxId → Event
  slept : Pause → Event
  published : RxId → Stamp → Event

-- `unix_time` is `g_unix_time`, and `last_tow` the `tow` of `last_pvtgeodetic_`. The newest event
-- stands first.
pub record Node : Type 0 where
  pub rx : RxMessage
  pub descriptors : Descriptors
  pub arrived : Arrived
  pub unix_time : Stamp
  pub last_tow : ℕ
  pub count_gpsfix : ℕ
  pub events : List Event

-- What the branches use of the rest of the program and of the C library: the settings, `timestampSBF`
-- (Time.antt), the clock and calendar of the host, the arithmetic of doubles, the factor that takes a
-- speed to metres per second, and the conversions of strings that the parsers call. A float stands as
-- the number of its bit pattern.
pub record Env : Type 1 where
  pub use_gnss_time : Bool
  pub read_from_file : Bool
  pub timestamp_sbf : ℕ → Bool → Stamp
  pub now : Stamp
  pub calendar : Calendar
  pub Double : Type 0
  pub doubles : Doubles Double
  pub float_in_mps : ℕ → ℕ
  pub strtol : Field → Conversion ℤ
  pub strtof : Field → Conversion ℕ

abbrev pub host_of : Env → Host
host_of env = record { use_gnss_time = env.use_gnss_time; now = env.now; calendar = env.calendar }

-- `read` returns a Boolean or throws a `std::runtime_error`. A `fault` is a read past the end of the
-- memory, or a `std::out_of_range`, which nobody catches.
pub data Outcome : Type 0 where
  returned : Bool → Node → Outcome
  thrown : Node → Outcome
  fault : Outcome
