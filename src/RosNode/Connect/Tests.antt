-- ===== src/RosNode/Connect/Tests.antt =====
-- A serial device whose port refuses a rate at the first event and takes all at the second.
use rosaic.Prelude.{ℕ, ◌≡◌, true, false, not, ◌&&◌, ◌||◌, Option, none, some, List, [], ◌∷◌}
use rosaic.AsyncManager.{construct}
use rosaic.RosNode.Text.{Text, codes}
use rosaic.RosNode.Connect.{
  Pattern, tcp, sbf_file, pcap_file, serial_device, Match, TimerEvent, launched, is_waiting,
}
use rosaic.RosNode.Connect.Attempts.{first_works}
use rosaic.RosNode.Connect.Waiting.{is_file, is_connecting, constructor_waits}

abbrev only_serial : Pattern → Text → Option Match
only_serial tcp device = none
only_serial sbf_file device = none
only_serial pcap_file device = none
only_serial serial_device device = some (device, [])

abbrev event : (ℕ → Option ℕ) → TimerEvent
event set_option = record {
  port = record { opens = true; get_option = some 9600; set_option = set_option };
  resolves = true;
  connects = true;
  new_manager = construct (0 ∷ 0 ∷ []) 2;
}

abbrev events : List TimerEvent
events = event (λ rate. none) ∷ event (λ rate. some rate) ∷ []

constructor_waits_example :
    is_waiting (launched only_serial (codes "serial:/dev/ttyACM0") 115200 events)
    ≡ not (
        is_file none none none
        || is_connecting none none none (some (codes "serial:/dev/ttyACM0", []))
          && first_works (not false) 115200 events)
constructor_waits_example =
    constructor_waits only_serial (codes "serial:/dev/ttyACM0") 115200 events
