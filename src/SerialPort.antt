-- ===== src/SerialPort.antt =====
-- communication/communication_core.cpp: `initializeSerial` and `setManager`. The port is a parameter:
-- whether it opens, the rate that it reports, and the rate that it reports after it was set to one.
mod Tests
use rosaic.Prelude.{
  ℕ, ◌+◌, ◌<◌, ◌≡◌, ◌≢◌, refl, sym, ◌∙◌, arith, Bool, true, false, Bool-cases, inl, inr, ◌&&◌, ◌||◌,
  if◌then◌else◌, ltb, leb, ◌==◌, Option, none, some, List, [], ◌∷◌,
}
use mathlib.Core.List.{Memᴰ}
use rosaic.AsyncManager.{Manager, set_callback}

pub record Port : Type 0 where
  pub opens : Bool
  pub get_option : Option ℕ
  pub set_option : ℕ → Option ℕ

-- `BAUDRATES`
abbrev pub baudrates : List ℕ
baudrates =
    1200 ∷ 2400 ∷ 4800 ∷ 9600 ∷ 19200 ∷ 38400 ∷ 57600 ∷ 115200 ∷ 230400 ∷ 460800 ∷ 500000 ∷ 576000
    ∷ 921600 ∷ 1000000 ∷ 1152000 ∷ 1500000 ∷ 2000000 ∷ 2500000 ∷ 3000000 ∷ 3500000 ∷ 4000000 ∷ []

-- A round of the loop over the rates: the rate afterwards, or an error of the port.
abbrev pub try_rate : Port → ℕ → ℕ → ℕ → Option ℕ
try_rate port desired current rate =
    if leb rate current && ltb rate desired then some current else port.set_option rate

-- The loop over the rates; `none` is the return of false when the port reports an error.
unfoldable pub change_rate : Port → ℕ → List ℕ → ℕ → Option ℕ
change_rate port desired [] current = some current
change_rate port desired (rate ∷ rates) current =
    let rest : Option ℕ = elim (try_rate port desired current rate) [
      | none ↦ none
      | some now ↦ change_rate port desired rates now
    ] in
    if current == desired then some current else rest

-- `setManager`: a manager that is there is kept.
unfoldable pub set_manager : Option Manager → Manager → Option Manager
set_manager (some old) manager = some old
set_manager none manager = some (set_callback manager)

-- How `initializeSerial` ends: it throws, or returns, with the manager and the rate that was reported
-- last.
pub data Initialized : Type 0 where
  not_opened : Initialized
  gave : Bool → Option Manager → Option ℕ → Initialized

abbrev pub with_rate : Port → ℕ → Option Manager → Option ℕ → Initialized
with_rate port desired manager none = gave false manager none
with_rate port desired manager (some current) = elim (change_rate port desired baudrates current) [
  | none ↦ gave false manager none
  | some rate ↦ gave true manager (some rate)
]

unfoldable pub initialize_serial : Port → ℕ → Option Manager → Manager → Initialized
initialize_serial port desired (some old) manager =
    if port.opens then gave false (some old) none else not_opened
initialize_serial port desired none manager =
    if port.opens
    then with_rate port desired (set_manager none manager) port.get_option
    else not_opened

-- The port takes every rate.
abbrev pub AcceptsAll : Port → Type 0
AcceptsAll port = (rate : ℕ) → port.set_option rate ≡ some rate

change_rate-same :
    (port : Port) (rates : List ℕ) (desired : ℕ)
    → change_rate port desired rates desired ≡ some desired
unfolding change_rate
change_rate-same port [] desired = refl
change_rate-same port (rate ∷ rates) desired = ground arith

-- On a port that takes every rate, the loop ends at the desired rate, if the table has it, whatever
-- the rate is at the start: higher, lower or the same.
pub change_rate_reaches :
    (port : Port) (desired : ℕ) (rates : List ℕ) (current : ℕ)
    → AcceptsAll port
    → Memᴰ desired rates
    → change_rate port desired rates current ≡ some desired
unfolding change_rate
change_rate_reaches port desired [] current accepts m = elim m [ ]
change_rate_reaches port desired (rate ∷ rates) current accepts (Memᴰ.head e) =
    ground (arith, accepts rate, change_rate-same port rates desired)
change_rate_reaches port desired (rate ∷ rates) current accepts (Memᴰ.tail m) = ground (
  arith,
  accepts rate,
  change_rate_reaches port desired rates current accepts m,
  change_rate_reaches port desired rates rate accepts m,
)

abbrev final : ℕ → List ℕ → ℕ
final current [] = current
final current (rate ∷ rates) = final rate rates

abbrev pub is_rate : ℕ → List ℕ → Bool
is_rate desired [] = false
is_rate desired (rate ∷ rates) = rate == desired || is_rate desired rates

change_rate-final :
    (port : Port) (desired first : ℕ) (rates : List ℕ) (current : ℕ)
    → AcceptsAll port
    → is_rate desired (first ∷ rates) ≡ false
    → desired < final first rates
    → current ≢ desired
    → change_rate port desired (first ∷ rates) current ≡ some (final first rates)
unfolding change_rate
change_rate-final port desired first [] current accepts other below differs =
    ground (arith, accepts first)
change_rate-final port desired first (rate ∷ rates) current accepts other below differs = ground (
  arith,
  accepts first,
  change_rate-final port desired rate rates current accepts,
  change_rate-final port desired rate rates first accepts,
)

-- On a port that takes every rate, a desired rate below 4000000 that the table of the source does
-- not have leaves the port at 4000000, unless the port has the desired rate already.
pub change_rate_unlisted :
    (port : Port) (desired current : ℕ)
    → AcceptsAll port
    → is_rate desired baudrates ≡ false
    → desired < 4000000
    → current ≢ desired
    → change_rate port desired baudrates current ≡ some 4000000
change_rate_unlisted port desired current accepts other below differs =
    change_rate-final port desired 1200 _ current accepts other below differs
