-- ===== src/RosNode/Period.antt =====
-- parsers/parsing_utilities.cpp: `convertUserPeriodToRxCommand`, and the units that `configureRx` in
-- node/rosaic_node.cpp puts before its result. A period is a number of milliseconds.
use rosaic.Prelude.{ℕ, ◌*◌, ◌/◌, ◌≡◌, arith, Bool, false, not, ◌&&◌, ◌||◌, if◌then◌else◌, leb, ◌==◌}

unfoldable pub convert_user_period_to_rx_command : ℕ → ℕ
convert_user_period_to_rx_command period_user =
    if leb period_user 500 && leb 10 period_user then period_user else period_user / 1000

-- `pvt_sec_or_msec` and `rest_sec_or_msec` are "sec", and not "msec".
unfoldable pub is_sec : ℕ → Bool
is_sec period = period == 1000 || period == 2000 || period == 5000 || period == 10000

-- The periods for which `getROSParams` reports no error.
unfoldable pub valid_period : ℕ → Bool
valid_period p =
    p == 10
    || p == 20
    || p == 50
    || p == 100
    || p == 200
    || p == 250
    || p == 500
    || p == 1000
    || p == 2000
    || p == 5000
    || p == 10000

-- The period that the receiver is told.
unfoldable pub period_told : ℕ → ℕ
period_told period =
    let count = convert_user_period_to_rx_command period in
    if is_sec period then 1000 * count else count

-- The receiver is told the period that the user asked for exactly if that is one of 10 to 500
-- milliseconds, or 1, 2, 5 or 10 seconds, or zero. So `getROSParams` reports an error for each period
-- that the receiver is told otherwise: those without an error are kept.
pub period_kept :
    (period : ℕ)
    → ((period_told period == period)
        ≡ (leb 10 period && leb period 500 || is_sec period || period == 0))
      × ((valid_period period && not (period_told period == period)) ≡ false)
unfolding period_told is_sec convert_user_period_to_rx_command valid_period
period_kept period = (ground arith, ground arith)
