-- ===== src/AsyncManager/Waiting.antt =====
-- The timer that `wait` sets again and again.
use rosaic.Prelude.{
  ℕ, zero, suc, ◌≤◌, ◌<◌, ◌-◌, ◌≡◌, arith, Bool, if◌then◌else◌, ltb, Option, none, some,
}
use rosaic.AsyncManager.{Manager, count_max, wait}

-- The calls of `wait` until the timer is not set again: how many there are, and whether the last
-- interrupts the reading thread. `states` are the members when the count has a value.
unfoldable pub timer : ℕ → (ℕ → Manager) → ℕ → Option (ℕ × Bool)
timer zero states count = none
timer (suc fuel) states count =
    let (next, again, interrupts) = wait (states count) count in
    let rest = timer fuel states next in
    if again
    then elim rest [ none ↦ none | some (calls, last) ↦ some (suc calls, last) ]
    else some (1, interrupts)

-- `wait` is called as often as the count is below six, once a second, and then no more; the last
-- call interrupts the reading thread exactly if `read` has run fewer than three times by then.
pub timer_ends :
    (fuel : ℕ) (states : ℕ → Manager) (count : ℕ)
    → count < count_max
    → count_max - count ≤ fuel
    → timer fuel states count ≡ some (count_max - count, ltb (states 5).do_read_count 3)
unfolding timer wait
timer_ends zero states count small enough = absurd (omega arith)
timer_ends (suc fuel) states count small enough = ground (arith, timer_ends fuel states (suc count))
