-- ===== src/RosNode/Connect.antt =====
-- node/rosaic_node.cpp: `initializeIO`, `connect`, `reconnect` and the wait of the constructor, with
-- `initializeTCP` of communication/communication_core.cpp. What is outside of the program is a parameter:
-- the matching of patterns, and how the opening of a port or a socket goes at each event of the timer.
pub mod Attempts
pub mod Waiting
mod Tests
use rosaic.Prelude.{
  ℕ, Bool, true, false, not, ◌&&◌, ◌||◌, if◌then◌else◌, Option, none, some, List, [], ◌∷◌,
}
use rosaic.AsyncManager.{Manager}
use rosaic.RosNode.Text.{Text}
use rosaic.SerialPort.{Port, Initialized, not_opened, gave, set_manager, initialize_serial}

-- The patterns that `device_` is matched with, in this order.
pub data Pattern : Type 0 where
  tcp sbf_file pcap_file serial_device : Pattern

-- The second and third group of a match; the third is empty where a pattern has none.
abbrev pub Match : Type 0
Match = Text × Text

-- What a thread that `initializeIO` starts will run.
pub data Thread : Type 0 where
  connecting : Thread
  reading_sbf : Text → Thread
  reading_pcap : Text → Thread

-- The members and globals.
pub record NodeIo : Type 0 where
  pub connected : Bool
  pub serial : Bool
  pub read_from_sbf_log : Bool
  pub read_from_pcap : Bool
  pub tcp_host : Text
  pub tcp_port : Text
  pub thread : Option Thread
  pub timer_running : Bool
  pub manager : Option Manager

-- Behind a pattern that does not match comes the next one.
abbrev pub on_match : Option Match → (Match → NodeIo) → NodeIo → NodeIo
on_match none found next = next
on_match (some m) found next = found m

-- The branches of `initializeIO`, by the matches of the patterns in their order.
abbrev pub branches : Option Match → Option Match → Option Match → Option Match → NodeIo → NodeIo
branches as_tcp as_sbf as_pcap as_serial s =
    on_match as_tcp
      (λ m. record s {
        tcp_host = m.0;
        tcp_port = m.1;
        serial = false;
        read_from_sbf_log = false;
        read_from_pcap = false;
        thread = some connecting;
      })
      (on_match as_sbf
        (λ m. record s {
          serial = false;
          read_from_sbf_log = true;
          read_from_pcap = false;
          thread = some (reading_sbf m.0);
        })
        (on_match as_pcap
          (λ m. record s {
            serial = false;
            read_from_sbf_log = false;
            read_from_pcap = true;
            thread = some (reading_pcap m.0);
          })
          (on_match as_serial
            (λ m. record s {
              serial = true;
              read_from_sbf_log = false;
              read_from_pcap = false;
              thread = some connecting;
            })
            s)))

-- `initializeIO`
unfoldable pub initialize_io : (Pattern → Text → Option Match) → Text → NodeIo → NodeIo
initialize_io regex_match device s =
    branches (regex_match tcp device) (regex_match sbf_file device) (regex_match pcap_file device)
      (regex_match serial_device device) s

-- What an event of the timer meets: the port, whether the host is resolved and connected to, and the
-- manager that would be made.
pub record TimerEvent : Type 0 where
  pub port : Port
  pub resolves : Bool
  pub connects : Bool
  pub new_manager : Manager

-- How an attempt ends: with an exception, or with a result and the manager.
pub data Attempt : Type 0 where
  threw : Attempt
  ended : Bool → Option Manager → Attempt

abbrev pub of_serial : Initialized → Attempt
of_serial not_opened = threw
of_serial (gave result manager rate) = ended result manager

-- `initializeTCP`
unfoldable pub initialize_tcp : TimerEvent → Option Manager → Attempt
initialize_tcp e (some old) = if e.resolves && e.connects then ended false (some old) else threw
initialize_tcp e none =
    if e.resolves && e.connects then ended true (set_manager none e.new_manager) else threw

abbrev pub attempt : ℕ → TimerEvent → NodeIo → Attempt
attempt baudrate e s =
    if s.serial
    then of_serial (initialize_serial e.port baudrate s.manager e.new_manager)
    else initialize_tcp e s.manager

abbrev pub after_attempt : Attempt → NodeIo → NodeIo
after_attempt threw s = s
after_attempt (ended result manager) s = record s {
  manager = manager;
  connected = if result then true else s.connected;
}

-- `reconnect`
unfoldable pub reconnect : ℕ → TimerEvent → NodeIo → NodeIo
reconnect baudrate e s =
    if s.connected
    then record s { timer_running = false }
    else after_attempt (attempt baudrate e s) s

-- `connect`, which the thread runs before it handles the events.
abbrev pub connect : Option Thread → NodeIo → NodeIo
connect (some connecting) s = record s { timer_running = true }
connect (some (reading_sbf name)) s = s
connect (some (reading_pcap name)) s = s
connect none s = s

-- The events of the timer, none of which comes while it is stopped.
unfoldable pub on_events : ℕ → List TimerEvent → NodeIo → NodeIo
on_events baudrate [] s = s
on_events baudrate (e ∷ es) s =
    on_events baudrate es (if s.timer_running then reconnect baudrate e s else s)

-- The constructor starts with nothing connected or running.
abbrev pub new_node : NodeIo
new_node = record {
  connected = false;
  serial = false;
  read_from_sbf_log = false;
  read_from_pcap = false;
  tcp_host = [];
  tcp_port = [];
  thread = none;
  timer_running = false;
  manager = none;
}

-- The node once these events have come.
abbrev pub launched : (Pattern → Text → Option Match) → Text → ℕ → List TimerEvent → NodeIo
launched regex_match device baudrate es =
    let s = initialize_io regex_match device new_node in on_events baudrate es (connect s.thread s)

-- The constructor waits on `connection_condition_`.
abbrev pub is_waiting : NodeIo → Bool
is_waiting s = not s.read_from_sbf_log && not s.read_from_pcap && not s.connected
