-- ===== src/Contents/Diagnostics.antt =====
-- communication/rx_message.cpp: `DiagnosticArrayCallback`.
pub mod Values
use rosaic.Prelude.{
  ℕ, zero, suc, ◌+◌, ◌-◌, ◌*◌, ◌/◌, ◌%◌, Bool, true, false, ◌||◌, if◌then◌else◌, ltb, ◌==◌, List,
  [], ◌∷◌, length, Option, none, some,
}
use rosaic.Contents.{Memory, u16, n_of}

-- The levels of a DiagnosticStatus.
pub data Level : Type 0 where
  ok : Level
  warn : Level
  error : Level
  stale : Level

-- The keys of the values.
pub data Label : Type 0 where
  gnss_signals_main_antenna : Label
  gnss_signals_aux1_antenna : Label
  rf_power_main_antenna : Label
  rf_power_aux1_antenna : Label
  cpu_headroom : Label
  ocxo_stability : Label
  base_station_measurements : Label
  rtk_post_processing : Label

-- A key and the number that is printed as its value; `none` where both are left empty.
abbrev pub KeyValue : Type 0
KeyValue = Option (Label × ℕ)

-- The array `indicators` of the block QualityInd.
abbrev pub indicators : Memory → ℕ → ℕ
indicators byte i = u16 byte (16 + 2 * i)

-- An indicator under `indicators_type_mask`, and under `indicators_value_mask` and shifted.
abbrev pub type_of : Memory → ℕ → ℕ
type_of byte i = indicators byte i % 256

abbrev pub value_of : Memory → ℕ → ℕ
value_of byte i = indicators byte i / 256 % 16

-- The first loop, with so many rounds to go: the position of the overall quality.
unfoldable pub find : Memory → ℕ → ℕ → Option ℕ
find byte zero i = none
find byte (suc rounds) i = if type_of byte i == 0 then some i else find byte rounds (i + 1)

abbrev pub level_of_value : ℕ → Level
level_of_value v = if v == 0 then stale else if v == 1 || v == 2 then warn else ok

-- The level, which a message has as `ok` from the start.
abbrev pub level : Memory → ℕ → Option ℕ → Level
level byte rx_error found =
    if rx_error == 0
    then (elim found [ none ↦ ok | some i ↦ level_of_value (value_of byte i) ])
    else error

-- The tests on the type of an indicator; `none` is the assertion that fails.
unfoldable pub label : ℕ → Option Label
label t =
    if t == 1
    then some gnss_signals_main_antenna
    else if t == 2
    then some gnss_signals_aux1_antenna
    else if t == 11
    then some rf_power_main_antenna
    else if t == 12
    then some rf_power_aux1_antenna
    else if t == 21
    then some cpu_headroom
    else if t == 25
    then some ocxo_stability
    else if t == 30
    then some base_station_measurements
    else if t == 31
    then some rtk_post_processing
    else none

abbrev pub replicate : ℕ → List KeyValue
replicate zero = []
replicate (suc k) = none ∷ replicate k

abbrev pub put_at : ℕ → KeyValue → List KeyValue → List KeyValue
put_at i kv [] = []
put_at zero kv (x ∷ xs) = kv ∷ xs
put_at (suc i) kv (x ∷ xs) = x ∷ put_at i kv xs

-- How the second loop ends: the values, a failed assertion, or a write behind the end of `values`.
pub data Filled : Type 0 where
  filled : List KeyValue → Filled
  asserted : Filled
  outside : Filled

-- A round of the second loop.
unfoldable pub write_value : Memory → ℕ → ℕ → List KeyValue → Filled
write_value byte qualityind_pos i values =
    if i == qualityind_pos then filled values else (elim (label (type_of byte i)) [
      | none ↦ asserted
      | some l ↦
          if ltb i (length values)
          then filled (put_at i (some (l, value_of byte i)) values)
          else outside
    ])

-- The second loop, with so many rounds to go.
unfoldable pub write_values : Memory → ℕ → ℕ → ℕ → List KeyValue → Filled
write_values byte qualityind_pos zero i values = filled values
write_values byte qualityind_pos (suc rounds) i values =
    elim (write_value byte qualityind_pos i values) [
      | filled now ↦ write_values byte qualityind_pos rounds (i + 1) now
      | asserted ↦ asserted
      | outside ↦ outside
    ]

-- The argument of `resize`, which is cast to 16 bits.
abbrev pub values_size : ℕ → ℕ
values_size count = if count == 0 then 65535 else count - 1

abbrev pub position_or : ℕ → Option ℕ → ℕ
position_or unset none = unset
position_or unset (some i) = i

-- `DiagnosticArrayCallback` on the block QualityInd and the field `rx_error` of ReceiverStatus: the
-- level and the values. `unset` is what `qualityind_pos` holds while nothing was assigned to it.
unfoldable pub diagnostic_array : Memory → ℕ → ℕ → Level × Filled
diagnostic_array byte rx_error unset =
    let found = find byte (n_of byte) 0 in
    (
      level byte rx_error found,
      write_values byte (position_or unset found) (n_of byte) 0
          (replicate (values_size (n_of byte))),
    )
