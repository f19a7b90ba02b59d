-- ===== src/RxMessage/Size.antt =====
-- `messageSize`: how far an NMEA sentence reaches.
use rosaic.Prelude.{
  ℕ, zero, suc, ◌+◌, ◌%◌, ◌^◌, ◌≤◌, ◌<◌, ◌≡◌, ◌⊎◌, inl, inr, refl, arith, Bool, true, false, ◌==◌,
  if◌then◌else◌, Bool-cases,
}
use mathlib.Core.Path.{ap₂}
use native.Mathlib.Decide.{ℕ_discrete}
use rosaic.RxMessage.{RxMessage, is_response, goes_on, size_loop, message_size}

-- The size that the loop returns once it has passed `size` bytes and stands at `pos`: it ends
-- before the first byte at which it may stop, and at the end of the buffer if there is none.
pub record EndsAt (m : RxMessage) (response : Bool) (start limit size : ℕ) : Type 0 where
  pub below : size ≤ limit
  pub passes : (k : ℕ) → start < k → k < size → goes_on response m k ≡ true
  pub stops : (size ≡ limit) ⊎ (goes_on response m size ≡ false)

-- One more round, when the loop goes on.
EndsAt-more :
    {m : RxMessage} {response : Bool} {start limit size : ℕ}
    → goes_on response m (start + 1) ≡ true
    → EndsAt m response (start + 1) limit size
    → EndsAt m response start limit size
EndsAt-more {m} {response} {start} {limit} {size} go r = record {
  below = r.below;
  passes = λ k above under. elim (ℕ_discrete k (start + 1)) [
    | yes e ↦ rw e go
    | no ne ↦ r.passes k (omega arith) under
  ];
  stops = r.stops;
}

-- The size that the loop returns from a position on: it ends there.
EndsAt-here :
    {m : RxMessage} {response : Bool} {start limit : ℕ}
    → start + 1 ≤ limit
    → ((start + 1 ≡ limit) ⊎ (goes_on response m (start + 1) ≡ false))
    → EndsAt m response start limit (start + 1)
EndsAt-here below stop = record {
  below = below;
  passes = λ k above under. absurd (omega arith);
  stops = stop;
}

module _ (left : ℕ) (response : Bool) (m : RxMessage) (size pos : ℕ) where
  abbrev next_pos : ℕ
  next_pos = (pos + 1) % 2 ^ 16

  size_loop_more :
      goes_on response m next_pos ≡ true
      → size_loop (suc (suc left)) response m size pos
        ≡ size_loop (suc left) response m (size + 1) next_pos
  unfolding size_loop
  size_loop_more go =
      let more : (suc left == 0) ≡ false = ground arith in
      ap₂
        (λ a b.
          if a
          then size + 1
          else if b
          then size_loop (suc left) response m (size + 1) next_pos
          else size + 1)
        more go

  size_loop_stop :
      goes_on response m next_pos ≡ false
      → size_loop (suc (suc left)) response m size pos ≡ size + 1
  unfolding size_loop
  size_loop_stop end =
      let more : (suc left == 0) ≡ false = ground arith in
      ap₂
        (λ a b.
          if a
          then size + 1
          else if b
          then size_loop (suc left) response m (size + 1) next_pos
          else size + 1)
        more end

size_loop_last :
    (response : Bool) (m : RxMessage) (size pos : ℕ) → size_loop 1 response m size pos ≡ size + 1
unfolding size_loop
size_loop_last response m size pos = refl

size_loop-EndsAt :
    (left : ℕ) (response : Bool) (m : RxMessage) (pos : ℕ)
    → 0 < left
    → pos + left < 2 ^ 16
    → EndsAt m response pos (pos + left) (size_loop left response m pos pos)
      × (pos < size_loop left response m pos pos)
size_loop-EndsAt zero response m pos some_ fits = absurd (omega arith)
size_loop-EndsAt (suc zero) response m pos some_ fits =
    rw (size_loop_last response m pos pos)
      (EndsAt-here (omega arith) (inl (omega arith)), omega arith)
size_loop-EndsAt (suc (suc left)) response m pos some_ fits =
    let here : (pos + 1) % 2 ^ 16 ≡ pos + 1 = omega arith in
    let limit : pos + suc (suc left) ≡ pos + 1 + suc left = omega arith in
    let rest = size_loop-EndsAt (suc left) response m (pos + 1) (omega arith) (omega arith) in
    elim (Bool-cases (goes_on response m (pos + 1))) [
      | inl go ↦
          rw (size_loop_more left response m pos pos (rw here go), here, limit)
            (EndsAt-more go rest.0, omega (arith, rest.1))
      | inr end ↦
          rw (size_loop_stop left response m pos pos (rw here end))
            (EndsAt-here (omega arith) (inr end), omega arith)
    ]

-- At a message with at least two bytes in a buffer below 2 ^ 16 bytes, `messageSize` is the number
-- of bytes before the first place, behind the first byte, where the message may end, and the whole
-- buffer if there is none.
pub message_size-EndsAt :
    (m : RxMessage)
    → 2 ≤ m.count
    → m.count < 2 ^ 16
    → EndsAt m (is_response m) 0 m.count (message_size m).0 × (0 < (message_size m).0)
unfolding message_size
message_size-EndsAt m two fits =
    let r = size_loop-EndsAt m.count (is_response m) m 0 (omega arith) (omega arith) in
    let e : 0 + m.count ≡ m.count = omega arith in rw e at r
