-- ===== src/RosNode/Configure.antt =====
-- node/rosaic_node.cpp: `configureRx`, as the commands that it sends and what it waits for between them.
pub mod Outputs
pub mod Handled
pub mod Receiver
mod Tests
use rosaic.Prelude.{ℕ, zero, suc, ◌+◌, Bool, true, false, if◌then◌else◌, List, [], ◌∷◌, ◌++◌}
use Prim.Native.String.{String}
use rosaic.MessageKey.{list_eq}
use rosaic.CallbackHandlers.State.{Settings}
use rosaic.RosNode.{Publish}
use rosaic.RosNode.Text.{Text, codes, to_string, trim_string}
use rosaic.RosNode.Period.{convert_user_period_to_rx_command, is_sec}

-- What `configureRx` reads of the members and globals. `tcp` is whether `device_` matches the pattern
-- of a TCP device; the offsets are what `std::to_string` gives for them.
pub record Config : Type 0 where
  pub tcp : Bool
  pub rx_serial_port : Text
  pub polling_period_pvt : ℕ
  pub polling_period_rest : ℕ
  pub datum : Text
  pub publish : Publish
  pub settings : Settings
  pub delta_e : Text
  pub delta_n : Text
  pub delta_u : Text
  pub ant_type : Text
  pub ant_serial_nr : Text
  pub rx_has_internet : Bool
  pub mode : Text
  pub caster : Text
  pub caster_port : ℕ
  pub username : Text
  pub password : Text
  pub mountpoint : Text
  pub ntrip_version : Text
  pub send_gga : Text
  pub rtcm_version : Text
  pub rx_input_corrections_tcp : ℕ
  pub rx_input_corrections_serial : Text

-- A message that is asked for: whether it is an NMEA sentence, its name, and whether it comes with the
-- period for PVT.
pub record Request : Type 0 where
  pub is_nmea : Bool
  pub name : Text
  pub is_pvt : Bool

-- A command: the output of a message on a stream and a port of the receiver, or any other text.
pub data Command : Type 0 where
  output : (stream : ℕ) (port : Text) (request : Request) (end : Text) → Command
  other : Text → Command

-- What is sent and waited for, in order. The connection descriptor gives the port to what follows.
pub data Script : Type 0 where
  done : Script
  send : Command → Script → Script
  await_response : Script → Script
  await_cd : (Text → Script) → Script

abbrev pub say : Command → Script → Script
say command later = send command (await_response later)

abbrev pub say_text : Text → Script → Script
say_text text later = say (other text) later

-- `rx_period_...` with `..._sec_or_msec` before it.
abbrev pub period_text : ℕ → Text
period_text period =
    (if is_sec period then codes "sec" else codes "msec")
    ++ to_string (convert_user_period_to_rx_command period)

-- The bytes that are sent for a command.
unfoldable pub to_text : Config → Command → Text
to_text c (output stream port request end) =
    (if request.is_nmea then codes "sno, Stream" else codes "sso, Stream")
    ++ to_string stream
    ++ codes ", "
    ++ port
    ++ codes ", "
    ++ request.name
    ++ codes ", "
    ++ period_text (if request.is_pvt then c.polling_period_pvt else c.polling_period_rest)
    ++ end
to_text c (other text) = text

abbrev nmea_request : String → Bool → Request
nmea_request name is_pvt = record { is_nmea = true; name = codes name; is_pvt = is_pvt }

abbrev sbf_request : String → Bool → Request
sbf_request name is_pvt = record { is_nmea = false; name = codes name; is_pvt = is_pvt }

-- The tests on what is published, and what is asked for where they hold.
abbrev pub OutputGroup : Type 0
OutputGroup = Bool × List Request

abbrev pub output_groups : Publish → Settings → List OutputGroup
output_groups p s =
    (p.gpgga, nmea_request "GGA" true ∷ [])
    ∷ (p.gprmc, nmea_request "RMC" true ∷ [])
    ∷ (p.gpgsa, nmea_request "GSA" true ∷ [])
    ∷ (p.gpgsv, nmea_request "GSV" false ∷ [])
    ∷ (p.pvtcartesian, sbf_request "PVTCartesian" true ∷ [])
    ∷ (p.pvtgeodetic, sbf_request "PVTGeodetic" true ∷ [])
    ∷ (p.poscovcartesian, sbf_request "PosCovCartesian" true ∷ [])
    ∷ (p.poscovgeodetic, sbf_request "PosCovGeodetic" true ∷ [])
    ∷ (p.atteuler, sbf_request "AttEuler" false ∷ [])
    ∷ (p.attcoveuler, sbf_request "AttCovEuler" false ∷ [])
    ∷ (
      s.publish_gpsfix,
      sbf_request "ChannelStatus" true
          ∷ sbf_request "MeasEpoch" true
          ∷ sbf_request "DOP" true
          ∷ sbf_request "VelCovGeodetic" true
          ∷ [],
    )
    ∷ (
      s.publish_diagnostics,
      sbf_request "ReceiverStatus" false
          ∷ sbf_request "QualityInd" false
          ∷ sbf_request "ReceiverSetup" false
          ∷ [],
    )
    ∷ []

-- The commands for some messages, each on the next stream, and what follows from the stream behind.
unfoldable pub request_all : Text → List Request → ℕ → (ℕ → Script) → Script
request_all port [] stream later = later stream
request_all port (r ∷ rs) stream later =
    say (output stream port r (codes "\r")) (request_all port rs (stream + 1) later)

unfoldable pub request_groups : Text → List OutputGroup → ℕ → (ℕ → Script) → Script
request_groups port [] stream later = later stream
request_groups port ((test, rs) ∷ groups) stream later =
    let rest = λ (next : ℕ). request_groups port groups next later in
    if test then request_all port rs stream rest else rest stream

-- "sao"
abbrev pub antenna_offset : Config → Text
antenna_offset c =
    codes "sao, Main, "
    ++ trim_string c.delta_e
    ++ codes ", "
    ++ trim_string c.delta_n
    ++ codes ", "
    ++ trim_string c.delta_u
    ++ codes ", \""
    ++ c.ant_type
    ++ codes "\", \""
    ++ c.ant_serial_nr
    ++ codes "\", 0 \r"

-- "snts" in mode "Client"
abbrev pub ntrip_client : Config → Text
ntrip_client c =
    codes "snts, NTR1, "
    ++ c.mode
    ++ codes ", "
    ++ c.caster
    ++ codes ", "
    ++ to_string c.caster_port
    ++ codes ", "
    ++ c.username
    ++ codes ", "
    ++ c.password
    ++ codes ", "
    ++ c.mountpoint
    ++ codes ", "
    ++ c.ntrip_version
    ++ codes ", "
    ++ c.send_gga
    ++ codes " \r"

-- With internet the receiver asks a caster itself. Another mode is only reported.
abbrev pub from_caster : Config → Script
from_caster c =
    if list_eq c.mode (codes "off")
    then done
    else if list_eq c.mode (codes "Client")
    then say_text (ntrip_client c) done
    else if list_eq c.mode (codes "Client-Sapcorda")
    then say_text (codes "snts, NTR1, Client-Sapcorda, , , , , , , , \r") done
    else done

-- Without, the driver hands them on; over TCP by a port of their own, with the position on a stream.
abbrev pub by_tcp : Config → ℕ → Script
by_tcp c stream =
    say_text (codes "siss, IPS1, " ++ to_string c.rx_input_corrections_tcp ++ codes ", TCP2Way \r")
      (say (output stream (codes "IPS1") (nmea_request "GGA" true) (codes " \r"))
        (send (other (codes "sdio, IPS1, " ++ c.rtcm_version ++ codes ", +SBF+NMEA \r")) done))

abbrev pub by_serial : Config → Script
by_serial c =
    send
      (other (
        codes "sdio, "
        ++ c.rx_input_corrections_serial
        ++ codes ", "
        ++ c.rtcm_version
        ++ codes ", +SBF+NMEA \r"))
      done

unfoldable pub corrections : Config → ℕ → Script
corrections c stream =
    if c.rx_has_internet then from_caster c else if c.tcp then by_tcp c stream else by_serial c

-- The offsets and what comes behind them.
abbrev pub offsets_on : Config → ℕ → Script
offsets_on c stream =
    say_text (antenna_offset c) (say_text (codes "snts, NTR1, off \r") (corrections c stream))

-- From the login on.
unfoldable pub logged_in : Config → Text → Script
logged_in c rx_port = say_text (codes "login, Tibor, Tibor \r") (
    say_text (codes "sso, all, none, none, off \r") (
      say_text (codes "sno, all, none, none, off \r") (
        say_text (codes "sgd, " ++ c.datum ++ codes "\r")
          (request_groups rx_port (output_groups c.publish c.settings) 1 (offsets_on c)))))

abbrev pub escape_sequence : Text
escape_sequence = codes "\rSSSSSSSSSSSSSSSSSSS\r\r"

-- The start: over TCP the port is in the connection descriptor that the receiver sends.
abbrev pub opening : Bool → (Text → Script) → Text → Script
opening true later rx_serial_port = send (other escape_sequence) (await_cd later)
opening false later rx_serial_port =
    say_text (codes "lif, Identification \r") (later rx_serial_port)

-- `configureRx`
unfoldable pub configure_rx : Config → Script
configure_rx c = opening c.tcp (logged_in c) c.rx_serial_port
