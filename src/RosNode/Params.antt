-- ===== src/RosNode/Params.antt =====
-- node/rosaic_node.hpp: `checkRange` and `getROSInt`; node/rosaic_node.cpp: `getROSParams` and the
-- parameters that `main` reads. The parameter server is a function from names to what it holds.
pub mod Integers
pub mod Streams
pub mod Tests
use Prim.Native.String.{String}
use rosaic.Prelude.{
  ℕ, ◌-◌, ◌%◌, ◌^◌, Bool, true, false, not, ◌||◌, if◌then◌else◌, ltb, Option, none, some, [],
}
use rosaic.Parsers.{ℤ, pos, negsuc}
use rosaic.CallbackHandlers.State.{Settings}
use rosaic.RosNode.{Publish}
use rosaic.RosNode.Text.{Text, codes}
use rosaic.RosNode.Configure.{Config}

-- A float stands as what `std::to_string` gives for it.
pub record Server : Type 0 where
  pub strings : String → Option Text
  pub bools : String → Option Bool
  pub ints : String → Option ℤ
  pub floats : String → Option Text

-- `NodeHandle::param`
abbrev pub or_default {ℓ} : {A : Type ℓ} → Option A → A → A
or_default none default = default
or_default (some a) default = a

-- The cast of an `int` to `uint32_t`.
unfoldable pub to_unsigned : ℤ → ℕ
to_unsigned (pos n) = n % 2 ^ 32
to_unsigned (negsuc n) = 2 ^ 32 - 1 - n % 2 ^ 32

-- Whether `checkRange` throws.
abbrev pub out_of_bounds : ℕ → ℕ → ℕ → Bool
out_of_bounds value min max = ltb value min || ltb max value

-- `getROSInt` for a `uint32_t`: the value, and whether a range is reported.
unfoldable pub get_ros_int : Option ℤ → ℕ → ℕ × Bool
get_ros_int none default = (default, false)
get_ros_int (some param) default =
    (to_unsigned param, out_of_bounds (to_unsigned param) 0 (2 ^ 32 - 1))

module _ (server : Server) where
  abbrev string : String → String → Text
  string key default = or_default (server.strings key) (codes default)

  abbrev flag : String → Bool → Bool
  flag key default = or_default (server.bools key) default

  abbrev int : String → ℕ → ℕ
  int key default = (get_ros_int (server.ints key) default).0

  abbrev float : String → String → Text
  float key default = or_default (server.floats key) (codes default)

  -- The members `publish_...`
  abbrev pub publish_params : Publish
  publish_params = record {
    gpgga = flag "publish/gpgga" true;
    gprmc = flag "publish/gprmc" true;
    gpgsa = flag "publish/gpgsa" true;
    gpgsv = flag "publish/gpgsv" true;
    pvtcartesian = flag "publish/pvtcartesian" true;
    pvtgeodetic = flag "publish/pvtgeodetic" true;
    poscovcartesian = flag "publish/poscovcartesian" true;
    poscovgeodetic = flag "publish/poscovgeodetic" true;
    atteuler = flag "publish/atteuler" true;
    attcoveuler = flag "publish/attcoveuler" true;
  }

  -- The globals `g_publish_...`, which `main` reads.
  abbrev pub main_params : Settings
  main_params = record {
    publish_navsatfix = flag "publish/navsatfix" true;
    publish_pose = flag "publish/pose" true;
    publish_diagnostics = flag "publish/diagnostics" true;
    publish_gpst = flag "publish/gpst" true;
    publish_gpsfix = flag "publish/gpsfix" true;
  }

  -- `getROSParams`, for what `configureRx` reads; whether `device` names a TCP device is left to it.
  unfoldable pub get_ros_params : Bool → Config
  get_ros_params tcp = record {
    tcp = tcp;
    rx_serial_port = string "serial/rx_serial_port" "USB1";
    polling_period_pvt = int "polling_period/pvt" 1000;
    polling_period_rest = int "polling_period/rest" 1000;
    datum = string "datum" "ETRS89";
    publish = publish_params;
    settings = main_params;
    delta_e = float "marker_to_arp/delta_e" "0.000000";
    delta_n = float "marker_to_arp/delta_n" "0.000000";
    delta_u = float "marker_to_arp/delta_u" "0.000000";
    ant_type = string "ant_type" "Unknown";
    ant_serial_nr = string "ant_serial_nr" "Unknown";
    rx_has_internet = flag "ntrip_settings/rx_has_internet" false;
    mode = string "ntrip_settings/mode" "off";
    caster = string "ntrip_settings/caster" "";
    caster_port = int "ntrip_settings/caster_port" 0;
    username = string "ntrip_settings/username" "";
    password = string "ntrip_settings/password" "";
    mountpoint = string "ntrip_settings/mountpoint" "";
    ntrip_version = string "ntrip_settings/ntrip_version" "v2";
    send_gga = string "ntrip_settings/send_gga" "auto";
    rtcm_version = string "ntrip_settings/rtcm_version" "RTCMv3";
    rx_input_corrections_tcp = int "ntrip_settings/rx_input_corrections_tcp" 28785;
    rx_input_corrections_serial = string "ntrip_settings/rx_input_corrections_serial" "USB2";
  }
