-- ===== src/RosNode/Params/Integers.antt =====
-- Integer parameters.
use rosaic.Prelude.{ℕ, ◌-◌, ◌^◌, ◌<◌, ◌≡◌, arith, false, some}
use rosaic.Parsers.{pos, negsuc}
use rosaic.RosNode.Params.{to_unsigned, get_ros_int}

-- The range is asked of the number after its cast, and no number is out of it: a parameter that is not
-- negative is taken as it is, and a negative one wraps around without a report.
pub get_ros_int_unreported :
    (n default : ℕ)
    → n < 2 ^ 31
    → (get_ros_int (some (pos n)) default ≡ (n, false))
      × (get_ros_int (some (negsuc n)) default ≡ (2 ^ 32 - 1 - n, false))
unfolding get_ros_int to_unsigned
get_ros_int_unreported n default below = (ground arith, ground arith)
