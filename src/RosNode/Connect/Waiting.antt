-- ===== src/RosNode/Connect/Waiting.antt =====
-- When the constructor goes on.
use rosaic.Prelude.{
  ℕ, ◌≡◌, refl, ap, ◌∙◌, arith, Bool, true, false, not, ◌&&◌, ◌||◌, Bool-cases, inl, inr, Option,
  none, some, List, [], ◌∷◌,
}
use rosaic.RosNode.Text.{Text}
use rosaic.RosNode.Connect.{
  Pattern, tcp, sbf_file, pcap_file, serial_device, Match, NodeIo, TimerEvent, Attempt, attempt,
  after_attempt, branches, initialize_io, threw, ended, reconnect, connect, on_events, new_node,
  launched, is_waiting,
}
use rosaic.RosNode.Connect.Attempts.{is_some, first_works, tick, IsTrying, connected_first}

-- The flags for files, which no attempt changes.
abbrev reads_file : NodeIo → Bool
reads_file s = s.read_from_sbf_log || s.read_from_pcap

after_attempt-reads_file :
    (a : Attempt) (s : NodeIo) → reads_file (after_attempt a s) ≡ reads_file s
after_attempt-reads_file threw s = refl
after_attempt-reads_file (ended result m) s = refl

module _ (baudrate : ℕ) where
  tick-reads_file : (e : TimerEvent) (s : NodeIo) → reads_file (tick baudrate e s) ≡ reads_file s
  unfolding reconnect
  tick-reads_file e s = elim (Bool-cases s.timer_running) [
    | inr idle ↦ simp idle refl
    | inl running ↦ elim (Bool-cases s.connected) [
      | inl done_ ↦ simp (running, done_) refl
      | inr trying ↦ simp (running, trying) (after_attempt-reads_file (attempt baudrate e s) s)
    ]
  ]

  on_events-reads_file :
      (es : List TimerEvent) (s : NodeIo) → reads_file (on_events baudrate es s) ≡ reads_file s
  unfolding on_events
  on_events-reads_file [] s = refl
  on_events-reads_file (e ∷ es) s =
      on_events-reads_file es (tick baudrate e s) ∙ tick-reads_file e s

  connected_idle :
      (es : List TimerEvent) (s : NodeIo) → s.timer_running ≡ false → on_events baudrate es s ≡ s
  unfolding on_events
  connected_idle [] s idle = refl
  connected_idle (e ∷ es) s idle = simp idle (connected_idle es s idle)

  is_waiting_trying :
      (serial : Bool) (es : List TimerEvent) (s : NodeIo)
      → IsTrying baudrate serial s
      → reads_file s ≡ false
      → is_waiting (on_events baudrate es s) ≡ not (first_works serial baudrate es)
  is_waiting_trying serial es s t file =
      ground (arith, connected_first baudrate serial es s t, on_events-reads_file es s, file)

-- The matches that make a device one to connect to, and those that make it a file.
abbrev pub is_connecting : Option Match → Option Match → Option Match → Option Match → Bool
is_connecting as_tcp as_sbf as_pcap as_serial =
    is_some as_tcp || not (is_some as_sbf) && not (is_some as_pcap) && is_some as_serial

abbrev pub is_file : Option Match → Option Match → Option Match → Bool
is_file as_tcp as_sbf as_pcap = not (is_some as_tcp) && (is_some as_sbf || is_some as_pcap)

module _ (baudrate : ℕ) (es : List TimerEvent) where
  is_waiting_idle :
      (s : NodeIo) → s.timer_running ≡ false → is_waiting (on_events baudrate es s) ≡ is_waiting s
  is_waiting_idle s idle = ap (λ t. is_waiting t) (connected_idle baudrate es s idle)

  is_waiting-branches :
      (as_tcp as_sbf as_pcap as_serial : Option Match)
      → let s = branches as_tcp as_sbf as_pcap as_serial new_node in
        is_waiting (on_events baudrate es (connect s.thread s))
        ≡ not (
            is_file as_tcp as_sbf as_pcap
            || is_connecting as_tcp as_sbf as_pcap as_serial
              && first_works (not (is_some as_tcp)) baudrate es)
  is_waiting-branches (some m) as_sbf as_pcap as_serial =
      is_waiting_trying baudrate false es _
        (record { as_serial = refl; not_connected = refl; running = refl; no_manager = refl }) refl
  is_waiting-branches none (some m) as_pcap as_serial = is_waiting_idle _ refl
  is_waiting-branches none none (some m) as_serial = is_waiting_idle _ refl
  is_waiting-branches none none none (some m) =
      is_waiting_trying baudrate true es _
        (record { as_serial = refl; not_connected = refl; running = refl; no_manager = refl }) refl
  is_waiting-branches none none none none = is_waiting_idle _ refl

-- The constructor goes on exactly if the device names a file, or is one to connect to and the first
-- attempt at which it opens works, with all rates of a serial port taken. So for any other device it
-- waits for ever, and after an attempt that opens a port and fails no later attempt helps.
pub constructor_waits :
    (regex_match : Pattern → Text → Option Match) (device : Text) (baudrate : ℕ)
    (es : List TimerEvent)
    → let as_tcp = regex_match tcp device in
      let as_sbf = regex_match sbf_file device in
      let as_pcap = regex_match pcap_file device in
      is_waiting (launched regex_match device baudrate es)
      ≡ not (
          is_file as_tcp as_sbf as_pcap
          || is_connecting as_tcp as_sbf as_pcap (regex_match serial_device device)
            && first_works (not (is_some as_tcp)) baudrate es)
unfolding initialize_io
constructor_waits regex_match device baudrate es =
    is_waiting-branches baudrate es (regex_match tcp device) (regex_match sbf_file device)
      (regex_match pcap_file device) (regex_match serial_device device)
