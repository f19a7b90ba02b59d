-- ===== src/AsyncManager/Window.antt =====
-- The stretch of the parsing thread's memory that the callback is told to read.
use rosaic.Prelude.{
  ℕ, zero, suc, ◌+◌, ◌-◌, ◌≤◌, ◌<◌, ◌^◌, ◌≡◌, refl, sym, ap, ◌∙◌, arith, List, [], ◌∷◌, ◌++◌,
  length, take, drop, length-append, length-take, length-drop, take-append, drop-append, take_all,
  take-append-drop,
}
use mathlib.Core.Path.{subst}
use rosaic.CircularBuffer.Memory.{memcpy, length-memcpy}
use rosaic.CircularBuffer.{read, sub_size}
use rosaic.CircularBuffer.Refine.{contents, length-contents}
use rosaic.AsyncManager.{Manager, Parser, start_over, taken, threw, call_ended}
use rosaic.AsyncManager.Shared.{Sound, bytes-read_all}

take-append_past : (xs ys : List ℕ) (n : ℕ) → take (length xs + n) (xs ++ ys) ≡ xs ++ take n ys
take-append_past [] ys n = ap (λ k. take k ys) (omega arith)
take-append_past (x ∷ xs) ys n =
    let e : suc (length xs) + n ≡ suc (length xs + n) = omega arith in
    rw e (ap (λ t. x ∷ t) (take-append_past xs ys n))

take-memcpy :
    (mem : List ℕ) (at : ℕ) (source : List ℕ)
    → at ≤ length mem
    → take (at + length source) (memcpy mem at source) ≡ take at mem ++ source
unfolding memcpy
take-memcpy mem at source fits =
    let e : at ≡ length (take at mem) = omega (arith, length-take at mem) in
    ap (λ k. take (k + length source) (memcpy mem at source)) e
    ∙ take-append_past (take at mem) (source ++ drop (at + length source) mem) (length source)
    ∙ ap (λ t. take at mem ++ t)
        (take-append (length source) source (drop (at + length source) mem) (omega arith)
          ∙ take_all (length source) source (omega arith))

take-take : (n l : ℕ) (xs : List ℕ) → n ≤ l → take n xs ≡ take n (take l xs)
take-take zero l xs fits = refl
take-take (suc n) zero xs fits = absurd (omega arith)
take-take (suc n) (suc l) [] fits = refl
take-take (suc n) (suc l) (x ∷ xs) fits = ap (λ t. x ∷ t) (take-take n l xs (omega arith))

take-drop-take :
    (k n l : ℕ) (xs : List ℕ) → k + n ≤ l → take n (drop k xs) ≡ take n (drop k (take l xs))
take-drop-take zero n l xs fits = take-take n l xs (omega arith)
take-drop-take (suc k) n zero xs fits = absurd (omega arith)
take-drop-take (suc k) n (suc l) [] fits = refl
take-drop-take (suc k) n (suc l) (x ∷ xs) fits = take-drop-take k n l xs (omega arith)

-- What the callback reads: `arg_for_read_callback` bytes from `to_be_parsed_` on.
unfoldable pub window : Parser → List ℕ
window p = take p.arg_for_read_callback (drop p.offset p.memory)

-- The bytes read since the memory was allocated.
unfoldable pub filled : Parser → List ℕ
filled p = take p.shift_bytes p.memory

module _ (m : Manager) (p : Parser) (v : Sound m) where
  pub filled-taken :
      p.shift_bytes ≤ length p.memory
      → take (p.shift_bytes + length (contents m.circular_buffer)) (taken m p).2.memory
        ≡ filled p ++ contents m.circular_buffer
  unfolding taken filled
  filled-taken fits =
      rw (bytes-read_all m.circular_buffer v.valid)
        (take-memcpy p.memory p.shift_bytes (contents m.circular_buffer) fits)

-- The parsing thread's variables at its first call, and at the call after one that threw a position.
abbrev pub first_call : Manager → List ℕ → Parser
first_call m fresh = (taken m (start_over fresh)).2

abbrev pub next_call : Manager → Parser → ℕ → Parser
next_call m p at = (taken m (call_ended [] p (threw at))).2

-- The variables during a call, with `d` the bytes read since the memory was allocated: the
-- callback is told to read inside them.
pub record Calling (p : Parser) (d : List ℕ) : Type 0 where
  pub start : take (p.shift_bytes + p.current_buffer_size) p.memory ≡ d
  pub size : p.shift_bytes + p.current_buffer_size ≡ length d
  pub inside : p.offset + p.arg_for_read_callback ≤ length d
  pub room : length d ≤ length p.memory

window-Calling :
    (p : Parser) (d : List ℕ)
    → Calling p d
    → window p ≡ take p.arg_for_read_callback (drop p.offset d)
unfolding window
window-Calling p d c =
    take-drop-take p.offset p.arg_for_read_callback (p.shift_bytes + p.current_buffer_size) p.memory
      (omega (arith, c.inside, c.size))
    ∙ ap (λ d. take p.arg_for_read_callback (drop p.offset d)) c.start

module _ (m : Manager) (v : Sound m) where
  pub length-taken :
      (p : Parser)
      → p.shift_bytes + m.circular_buffer.size ≤ length p.memory
      → length (taken m p).2.memory ≡ length p.memory
  unfolding taken
  length-taken p room =
      length-memcpy p.memory p.shift_bytes (read m.circular_buffer m.circular_buffer.size).1 (
        omega (
          arith,
          ap (λ t. length t) (bytes-read_all m.circular_buffer v.valid),
          length-contents m.circular_buffer,
        ))

  taken-Calling :
      (p : Parser)
      → p.offset + p.arg_for_read_callback ≤ p.shift_bytes
      → p.shift_bytes + m.circular_buffer.size ≤ length p.memory
      → Calling (taken m p).2 (filled p ++ contents m.circular_buffer)
  unfolding taken filled
  taken-Calling p inside room =
      let c = contents m.circular_buffer in
      let len = length-append (take p.shift_bytes p.memory) c in
      let same = length-contents m.circular_buffer in
      let cut = length-take p.shift_bytes p.memory in
      record {
        start =
            ap (λ k. take (p.shift_bytes + k) (taken m p).2.memory) (sym same)
            ∙ filled-taken m p v (omega arith);
        size = omega (arith, len, same, cut);
        inside = omega (arith, len, same, cut);
        room = omega (arith, len, same, cut, length-taken p room);
      }

  first_call-Calling :
      (fresh : List ℕ)
      → m.circular_buffer.size ≤ length fresh
      → Calling (first_call m fresh) (contents m.circular_buffer)
        × ((first_call m fresh).arg_for_read_callback ≡ length (contents m.circular_buffer))
  unfolding start_over taken filled
  first_call-Calling fresh room = (
    taken-Calling (start_over fresh) (omega arith) (omega (arith, room)),
    omega (arith, length-contents m.circular_buffer),
  )

  length-first_call :
      (fresh : List ℕ)
      → m.circular_buffer.size ≤ length fresh
      → length (first_call m fresh).memory ≡ length fresh
  unfolding start_over
  length-first_call fresh room = length-taken (start_over fresh) (omega (arith, room))

  next_call-Calling :
      (p : Parser) (d : List ℕ) (at : ℕ)
      → Calling p d
      → length p.memory < 2 ^ 64
      → at ≤ p.arg_for_read_callback
      → length d + m.circular_buffer.size ≤ length p.memory
      → let p' = next_call m p at in
        Calling p' (d ++ contents m.circular_buffer)
        × (p'.offset ≡ at)
        × (p'.arg_for_read_callback
            ≡ (p.arg_for_read_callback - at) + length (contents m.circular_buffer))
        × (length p'.memory ≡ length p.memory)
  unfolding call_ended
  next_call-Calling p d at c small fits room =
      let q = call_ended [] p (threw at) in
      let left : sub_size p.arg_for_read_callback at ≡ p.arg_for_read_callback - at =
        omega (arith, c.inside, c.room) in
      let start_again : filled q ≡ d = unfold filled in c.start in
      (
        subst (λ d'. Calling (taken m q).2 (d' ++ contents m.circular_buffer)) (start_again)
            (taken-Calling q (omega (arith, left, c.inside, c.size)) (omega (arith, c.size))),
        unfold taken in refl,
        unfold taken in omega (arith, left, length-contents m.circular_buffer),
        length-taken q (omega (arith, c.size)),
      )

-- After a first call that throws a position, the next call is told to read exactly the bytes of the
-- first from that position on, and then what the buffer holds by then: nothing is skipped, nothing
-- is parsed twice. Both must fit in the memory.
pub first_retry :
    (m₁ m₂ : Manager) (fresh : List ℕ) (at : ℕ)
    → Sound m₁
    → Sound m₂
    → length fresh < 2 ^ 64
    → length (contents m₁.circular_buffer) + length (contents m₂.circular_buffer) ≤ length fresh
    → at ≤ length (contents m₁.circular_buffer)
    → window (next_call m₂ (first_call m₁ fresh) at)
      ≡ drop at (contents m₁.circular_buffer) ++ contents m₂.circular_buffer
first_retry m₁ m₂ fresh at v₁ v₂ small room fits =
    let c₁ = contents m₁.circular_buffer in
    let c₂ = contents m₂.circular_buffer in
    let p = next_call m₂ (first_call m₁ fresh) at in
    let len₁ = length-contents m₁.circular_buffer in
    let len₂ = length-contents m₂.circular_buffer in
    let (first, arg) = first_call-Calling m₁ v₁ fresh (omega (arith, len₁)) in
    let size = length-first_call m₁ v₁ fresh (omega (arith, len₁)) in
    let (second, at', arg', _) =
      next_call-Calling m₂ v₂ (first_call m₁ fresh) c₁ at first (omega (arith, size))
        (omega (arith, arg)) (omega (arith, size, len₂)) in
    window-Calling p (c₁ ++ c₂) second
    ∙ take_all p.arg_for_read_callback (drop p.offset (c₁ ++ c₂))
        (omega (arith, length-drop p.offset (c₁ ++ c₂), length-append c₁ c₂, at', arg', arg))
    ∙ ap (λ k. drop k (c₁ ++ c₂)) at'
    ∙ drop-append at c₁ c₂ fits

-- After two calls in a row that throw a position, the third call is told to read from the second
-- position on, counted from the start of the memory and not from where the second call began. So it
-- reads again as many bytes as the first position says, and is not given as many at the end.
pub second_retry_shifted :
    (m₁ m₂ m₃ : Manager) (fresh : List ℕ) (at₁ at₂ : ℕ)
    → Sound m₁
    → Sound m₂
    → Sound m₃
    → length fresh < 2 ^ 64
    → length (contents m₁.circular_buffer)
        + length (contents m₂.circular_buffer)
        + length (contents m₃.circular_buffer)
      ≤ length fresh
    → at₁ ≤ length (contents m₁.circular_buffer)
    → at₂ ≤ length (drop at₁ (contents m₁.circular_buffer) ++ contents m₂.circular_buffer)
    → (last : List ℕ) × (length last ≡ at₁)
      × (window (next_call m₃ (next_call m₂ (first_call m₁ fresh) at₁) at₂) ++ last
          ≡ drop at₂ (
              contents m₁.circular_buffer
              ++ contents m₂.circular_buffer
              ++ contents m₃.circular_buffer))
second_retry_shifted m₁ m₂ m₃ fresh at₁ at₂ v₁ v₂ v₃ small room fits₁ fits₂ =
    let c₁ = contents m₁.circular_buffer in
    let c₂ = contents m₂.circular_buffer in
    let c₃ = contents m₃.circular_buffer in
    let p₁ = first_call m₁ fresh in
    let p₂ = next_call m₂ p₁ at₁ in
    let p₃ = next_call m₃ p₂ at₂ in
    let d = c₁ ++ c₂ ++ c₃ in
    let len₁ = length-contents m₁.circular_buffer in
    let len₂ = length-contents m₂.circular_buffer in
    let len₃ = length-contents m₃.circular_buffer in
    let (first, arg) = first_call-Calling m₁ v₁ fresh (omega (arith, len₁)) in
    let size = length-first_call m₁ v₁ fresh (omega (arith, len₁)) in
    let (second, at', arg', size') =
      next_call-Calling m₂ v₂ p₁ c₁ at₁ first (omega (arith, size)) (omega (arith, arg))
        (omega (arith, size, len₂)) in
    let both = length-append c₁ c₂ in
    let told = length-append (drop at₁ c₁) c₂ in
    let rest = length-drop at₁ c₁ in
    let (third, at'', arg'', _) =
      next_call-Calling m₃ v₃ p₂ (c₁ ++ c₂) at₂ second (omega (arith, size, size'))
        (omega (arith, arg, arg', told, rest)) (omega (arith, size, size', len₃, both)) in
    let rest₃ = drop p₃.offset d in
    (
      drop p₃.arg_for_read_callback rest₃,
      omega (
        arith,
        length-drop p₃.arg_for_read_callback rest₃,
        length-drop p₃.offset d,
        length-append (c₁ ++ c₂) c₃,
        both,
        at'',
        arg,
        arg',
        arg'',
        told,
        rest,
      ),
      ap (λ w. w ++ drop p₃.arg_for_read_callback rest₃) (window-Calling p₃ d third)
          ∙ take-append-drop p₃.arg_for_read_callback rest₃
          ∙ ap (λ k. drop k d) at'',
    )
