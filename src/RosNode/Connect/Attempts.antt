-- ===== src/RosNode/Connect/Attempts.antt =====
-- The attempts to connect: the first one at which something opens decides.
use rosaic.Prelude.{
  ℕ, ◌≡◌, ◌⊎◌, refl, ap, ◌∙◌, arith, Bool, true, false, ◌&&◌, Bool-cases, Option-cases, inl, inr,
  if◌then◌else◌, Option, none, some, List, [], ◌∷◌,
}
use rosaic.AsyncManager.{Manager, set_callback}
use rosaic.SerialPort.{Port, baudrates, change_rate, set_manager, with_rate, initialize_serial}
use rosaic.RosNode.Connect.{
  NodeIo, TimerEvent, Attempt, of_serial, attempt, after_attempt, initialize_tcp, threw, ended,
  reconnect, on_events,
}

abbrev pub is_some {ℓ} : {A : Type ℓ} → Option A → Bool
is_some none = false
is_some (some a) = true

-- The port or the socket opens.
abbrev pub opens : Bool → TimerEvent → Bool
opens true e = e.port.opens
opens false e = e.resolves && e.connects

-- The port reports its rate and takes those that it is set to.
abbrev pub rates_taken : ℕ → Port → Option ℕ → Bool
rates_taken baudrate port none = false
rates_taken baudrate port (some current) = is_some (change_rate port baudrate baudrates current)

abbrev pub works : Bool → ℕ → TimerEvent → Bool
works true baudrate e = rates_taken baudrate e.port e.port.get_option
works false baudrate e = true

-- The first event at which something opens decides.
unfoldable pub first_works : Bool → ℕ → List TimerEvent → Bool
first_works serial baudrate [] = false
first_works serial baudrate (e ∷ es) =
    let rest = first_works serial baudrate es in
    if opens serial e then works serial baudrate e else rest

-- How an attempt ends, by the kind of device and the manager.
abbrev try : Bool → ℕ → TimerEvent → Option Manager → Attempt
try true baudrate e old = of_serial (initialize_serial e.port baudrate old e.new_manager)
try false baudrate e old = initialize_tcp e old

attempt-try :
    (baudrate : ℕ) (e : TimerEvent) (s : NodeIo) (serial : Bool) (old : Option Manager)
    → s.serial ≡ serial
    → s.manager ≡ old
    → attempt baudrate e s ≡ try serial baudrate e old
attempt-try baudrate e s true old x y = simp (x, y) refl
attempt-try baudrate e s false old x y = simp (x, y) refl

module _ (baudrate : ℕ) (e : TimerEvent) where
  try_shut :
      (serial : Bool) (old : Option Manager)
      → opens serial e ≡ false
      → try serial baudrate e old ≡ threw
  unfolding initialize_tcp initialize_serial
  try_shut true none shut = simp shut refl
  try_shut true (some m) shut = simp shut refl
  try_shut false none shut = simp shut refl
  try_shut false (some m) shut = simp shut refl

  try_again :
      (serial : Bool) (m : Manager)
      → opens serial e ≡ true
      → try serial baudrate e (some m) ≡ ended false (some m)
  unfolding initialize_tcp initialize_serial
  try_again true m open_ = simp open_ refl
  try_again false m open_ = simp open_ refl

  with_rate-works :
      (m : Manager) (current : Option ℕ)
      → of_serial (with_rate e.port baudrate (some m) current)
        ≡ ended (rates_taken baudrate e.port current) (some m)
  with_rate-works m none = refl
  with_rate-works m (some current) =
      elim (Option-cases (change_rate e.port baudrate baudrates current)) [
        | inl failed ↦ simp (with_rate, failed) refl
        | inr (rate, reached) ↦ simp (with_rate, reached) refl
      ]

  try_first :
      (serial : Bool)
      → opens serial e ≡ true
      → try serial baudrate e none
        ≡ ended (works serial baudrate e) (some (set_callback e.new_manager))
  unfolding initialize_tcp initialize_serial set_manager
  try_first true open_ = simp open_ (with_rate-works (set_callback e.new_manager) e.port.get_option)
  try_first false open_ = simp open_ refl

if_works :
    (result connected : Bool) → connected ≡ false → (if result then true else connected) ≡ result
if_works true connected e = refl
if_works false connected e = e

abbrev pub tick : ℕ → TimerEvent → NodeIo → NodeIo
tick baudrate e s = if s.timer_running then reconnect baudrate e s else s

-- With a manager that is there, no attempt changes whether the node is connected.
module _ (baudrate : ℕ) (m : Manager) where
  attempt_again :
      (e : TimerEvent) (s : NodeIo) (serial : Bool)
      → s.serial ≡ serial
      → s.manager ≡ some m
      → (attempt baudrate e s ≡ threw) ⊎ (attempt baudrate e s ≡ ended false (some m))
  attempt_again e s serial x there =
      let tries = attempt-try baudrate e s serial (some m) x there in
      elim (Bool-cases (opens serial e)) [
        | inl open_ ↦ inr (tries ∙ try_again baudrate e serial m open_)
        | inr shut ↦ inl (tries ∙ try_shut baudrate e serial (some m) shut)
      ]

  tick_again :
      (e : TimerEvent) (s : NodeIo)
      → s.manager ≡ some m
      → ((tick baudrate e s).manager ≡ some m) × ((tick baudrate e s).connected ≡ s.connected)
  unfolding reconnect
  tick_again e s there = ground (arith, attempt_again e s s.serial refl there)

  stuck :
      (es : List TimerEvent) (s : NodeIo)
      → s.manager ≡ some m
      → (on_events baudrate es s).connected ≡ s.connected
  unfolding on_events
  stuck [] s there = refl
  stuck (e ∷ es) s there =
      let (kept, same) = tick_again e s there in stuck es (tick baudrate e s) kept ∙ same

-- The first attempt at which something opens decides, and the later ones change nothing.
module _ (baudrate : ℕ) (serial : Bool) where
  pub record IsTrying (s : NodeIo) : Type 0 where
    pub as_serial : s.serial ≡ serial
    pub not_connected : s.connected ≡ false
    pub running : s.timer_running ≡ true
    pub no_manager : s.manager ≡ none

  tick_trying :
      (e : TimerEvent) (s : NodeIo) (a : Attempt)
      → IsTrying s
      → try serial baudrate e none ≡ a
      → tick baudrate e s ≡ after_attempt a s
  unfolding reconnect
  tick_trying e s a t ends =
      let tries = attempt-try baudrate e s serial none t.as_serial t.no_manager in
      simp (t.running, t.not_connected, tries, ends) refl

  pub connected_first :
      (es : List TimerEvent) (s : NodeIo)
      → IsTrying s
      → (on_events baudrate es s).connected ≡ first_works serial baudrate es
  unfolding on_events first_works
  connected_first [] s t = t.not_connected
  connected_first (e ∷ es) s t = elim (Bool-cases (opens serial e)) [
    | inl open_ ↦
        let m = set_callback e.new_manager in
        let ticked = tick_trying e s _ t (try_first baudrate e serial open_) in
        let result = stuck baudrate m es (tick baudrate e s) (ap (λ u. u.manager) ticked) in
        simp open_ (
          result
          ∙ ap (λ u. u.connected) ticked
          ∙ if_works (works serial baudrate e) s.connected t.not_connected)
    | inr shut ↦
        let ticked = tick_trying e s threw t (try_shut baudrate e serial none shut) in
        simp shut (ap (λ u. (on_events baudrate es u).connected) ticked ∙ connected_first es s t)
  ]
