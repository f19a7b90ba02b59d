-- ===== src/RosNode/Text/Tests.antt =====
-- Numbers and offsets as texts, and periods.
use rosaic.Prelude.{◌≡◌, refl, arith, not, ◌&&◌, ◌||◌, leb, ◌==◌, false}
use rosaic.RosNode.Text.{codes, to_string, trim_string, trim_loop, digits}
use rosaic.RosNode.Text.Decimal.{value, value-to_string}
use rosaic.RosNode.Period.{is_sec, valid_period, period_told, period_kept}

printed : to_string 28785 ≡ codes "28785"
unfolding digits
printed = refl

value-to_string_example : value (to_string 4294967295) 0 ≡ 4294967295
value-to_string_example = value-to_string 4294967295 (omega arith)

trimmed_zero : trim_string (codes "0.000000") ≡ codes "0.0"
unfolding trim_string trim_loop
trimmed_zero = refl

-- A period that the receiver is told as one millisecond.
period_kept_example :
    ((period_told 1500 == 1500) ≡ (leb 10 1500 && leb 1500 500 || is_sec 1500 || 1500 == 0))
    × ((valid_period 1500 && not (period_told 1500 == 1500)) ≡ false)
period_kept_example = period_kept 1500
