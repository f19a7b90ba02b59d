-- ===== src/Crc/Detect.antt =====
-- Which changes of a message the check sum of crc.c detects.
use Prim.Native.Nat.{bit_xor}
use rosaic.Prelude.{
  ℕ, ◌+◌, ◌*◌, ◌/◌, ◌%◌, ◌^◌, ◌≤◌, ◌<◌, ◌≡◌, refl, sym, ◌∙◌, ap, arith, ◌≢◌, List, [], ◌∷◌, ◌++◌,
  true, length, if◌then◌else◌, ◌==◌, ==_iff, passes, passes-at,
}
use mathlib.Core.Path.{ap₂}
use rosaic.Prelude.Bits.{xor_comm, xor_injective, xor-div, xor-mod, zero-xor}
use rosaic.Crc.{crc_step, crc_loop, look_up, crc_look_up, compute16ccitt}
use rosaic.Crc.Equiv.{IsBytes, crc_step_lem, crc_step-lt, index-lt}

-- The first index from `i` on whose entry ends in the byte `low`.
find_low : List ℕ → ℕ → ℕ → ℕ
find_low [] low i = i
find_low (t ∷ ts) low i = if t % 2 ^ 8 == low then i else find_low ts low (i + 1)

low_bytes_table : passes (λ i. find_low crc_look_up (look_up i % 2 ^ 8) 0 == i) 256 ≡ true
unfolding passes look_up find_low
low_bytes_table = refl

-- No two entries of the table end in the same byte.
look_up_injective :
    (i j : ℕ) → i < 2 ^ 8 → j < 2 ^ 8 → look_up i % 2 ^ 8 ≡ look_up j % 2 ^ 8 → i ≡ j
look_up_injective i j hi hj e = sym (found i hi) ∙ ap (λ l. find_low crc_look_up l 0) e ∙ found j hj
  where
    found : (i : ℕ) → i < 2 ^ 8 → find_low crc_look_up (look_up i % 2 ^ 8) 0 ≡ i
    found i h = (==_iff _ _).0 (passes-at _ 256 low_bytes_table i h)

abbrev index : ℕ → ℕ → ℕ
index crc byte = bit_xor (crc / 2 ^ 8) byte

crc_step_low :
    (crc byte : ℕ)
    → crc < 2 ^ 16
    → byte < 2 ^ 8
    → crc_step crc byte % 2 ^ 8 ≡ look_up (index crc byte) % 2 ^ 8
crc_step_low crc byte h h' =
    let cut : crc % 2 ^ 8 * 2 ^ 8 % 2 ^ 8 ≡ 0 = omega arith in
    rw (crc_step_lem crc byte h h', xor-mod 8 (crc % 2 ^ 8 * 2 ^ 8) (look_up (index crc byte)), cut)
      (zero-xor _)

crc_step_high :
    (crc byte : ℕ)
    → crc < 2 ^ 16
    → byte < 2 ^ 8
    → crc_step crc byte / 2 ^ 8 ≡ bit_xor (crc % 2 ^ 8) (look_up (index crc byte) / 2 ^ 8)
crc_step_high crc byte h h' =
    let shifted : crc % 2 ^ 8 * 2 ^ 8 / 2 ^ 8 ≡ crc % 2 ^ 8 = omega arith in
    rw
      (
        crc_step_lem crc byte h h',
        xor-div 8 (crc % 2 ^ 8 * 2 ^ 8) (look_up (index crc byte)),
        shifted,
      )
      refl

-- A step can be undone up to the way in which the index was made.
crc_step_injective :
    (c c' b b' : ℕ)
    → c < 2 ^ 16
    → c' < 2 ^ 16
    → b < 2 ^ 8
    → b' < 2 ^ 8
    → crc_step c b ≡ crc_step c' b'
    → (index c b ≡ index c' b') × (c % 2 ^ 8 ≡ c' % 2 ^ 8)
crc_step_injective c c' b b' hc hc' hb hb' e = (same, low)
  where
    same : index c b ≡ index c' b'
    same =
        look_up_injective _ _ (index-lt c b hc hb) (index-lt c' b' hc' hb')
          (sym (crc_step_low c b hc hb) ∙ ap (λ t. t % 2 ^ 8) e ∙ crc_step_low c' b' hc' hb')

    low : c % 2 ^ 8 ≡ c' % 2 ^ 8
    low = xor_injective (c % 2 ^ 8) (c' % 2 ^ 8) (look_up (index c b) / 2 ^ 8) (
        sym (crc_step_high c b hc hb)
        ∙ ap (λ t. t / 2 ^ 8) e
        ∙ crc_step_high c' b' hc' hb'
        ∙ ap (λ i. bit_xor (c' % 2 ^ 8) (look_up i / 2 ^ 8)) (sym same))

-- With one byte, the register before the step is determined; with one register, the byte is.
crc_step_register :
    (c c' b : ℕ) → c < 2 ^ 16 → c' < 2 ^ 16 → b < 2 ^ 8 → crc_step c b ≡ crc_step c' b → c ≡ c'
crc_step_register c c' b hc hc' hb e =
    let parts = crc_step_injective c c' b b hc hc' hb hb e in
    let high = xor_injective (c / 2 ^ 8) (c' / 2 ^ 8) b parts.0 in omega (arith, high, parts.1)

index_byte : (c b b' : ℕ) → index c b ≡ index c b' → b ≡ b'
index_byte c b b' e = xor_injective b b' (c / 2 ^ 8) (xor_comm _ _ ∙ e ∙ xor_comm _ _)

crc_loop_injective :
    (c c' : ℕ) (buf : List ℕ)
    → c < 2 ^ 16
    → c' < 2 ^ 16
    → IsBytes buf
    → crc_loop c buf ≡ crc_loop c' buf
    → c ≡ c'
unfolding crc_loop
crc_loop_injective c c' [] hc hc' bytes e = e
crc_loop_injective c c' (b ∷ buf) hc hc' bytes e = crc_step_register c c' b hc hc' bytes.0 (
    crc_loop_injective (crc_step c b) (crc_step c' b) buf (crc_step-lt c b) (crc_step-lt c' b)
      bytes.1 e)

pub crc_loop-append : (c : ℕ) (xs ys : List ℕ) → crc_loop c (xs ++ ys) ≡ crc_loop (crc_loop c xs) ys
unfolding crc_loop
crc_loop-append c [] ys = refl
crc_loop-append c (x ∷ xs) ys = crc_loop-append (crc_step c x) xs ys

crc_loop-lt : (c : ℕ) (buf : List ℕ) → c < 2 ^ 16 → crc_loop c buf < 2 ^ 16
unfolding crc_loop
crc_loop-lt c [] h = h
crc_loop-lt c (b ∷ buf) h = crc_loop-lt (crc_step c b) buf (crc_step-lt c b)

-- The byte that was stepped over shows in the low byte of the register after it.
byte_of_low :
    (c b b' : ℕ)
    → c < 2 ^ 16
    → b < 2 ^ 8
    → b' < 2 ^ 8
    → crc_step c b % 2 ^ 8 ≡ crc_step c b' % 2 ^ 8
    → b ≡ b'
byte_of_low c b b' hc hb hb' e = index_byte c b b' (
    look_up_injective _ _ (index-lt c b hc hb) (index-lt c b' hc hb')
      (sym (crc_step_low c b hc hb) ∙ e ∙ crc_step_low c b' hc hb'))

-- Two bytes in a row are determined by the registers before and after them.
pair_injective :
    (c a b a' b' : ℕ)
    → c < 2 ^ 16
    → IsBytes (a ∷ b ∷ a' ∷ b' ∷ [])
    → crc_step (crc_step c a) b ≡ crc_step (crc_step c a') b'
    → (a ≡ a') × (b ≡ b')
pair_injective c a b a' b' hc (ha, (hb, (ha', (hb', _)))) e = (first, second)
  where
    parts :
        (index (crc_step c a) b ≡ index (crc_step c a') b')
        × (crc_step c a % 2 ^ 8 ≡ crc_step c a' % 2 ^ 8)
    parts = crc_step_injective _ _ b b' (crc_step-lt c a) (crc_step-lt c a') hb hb' e

    first : a ≡ a'
    first = byte_of_low c a a' hc ha ha' parts.1

    second : b ≡ b'
    second =
        index_byte (crc_step c a) b b' (parts.0 ∙ ap (λ t. index (crc_step c t) b') (sym first))

-- A burst of at most two bytes is determined by the registers before and after it.
burst_injective :
    (c : ℕ) (xs ys : List ℕ)
    → c < 2 ^ 16
    → IsBytes xs
    → IsBytes ys
    → length xs ≡ length ys
    → length xs ≤ 2
    → crc_loop c xs ≡ crc_loop c ys
    → xs ≡ ys
unfolding crc_loop
burst_injective c [] [] hc bx by same short e = refl
burst_injective c [] (y ∷ ys) hc bx by same short e = absurd (omega arith)
burst_injective c (x ∷ xs) [] hc bx by same short e = absurd (omega arith)
burst_injective c (x ∷ []) (y ∷ []) hc bx by same short e =
    ap (λ t. t ∷ []) (byte_of_low c x y hc bx.0 by.0 (ap (λ t. t % 2 ^ 8) e))
burst_injective c (x ∷ []) (y ∷ _ ∷ ys) hc bx by same short e = absurd (omega arith)
burst_injective c (x ∷ _ ∷ xs) (y ∷ []) hc bx by same short e = absurd (omega arith)
burst_injective c (x ∷ a ∷ []) (y ∷ b ∷ []) hc bx by same short e =
    let (p, q) = pair_injective c x a y b hc (bx.0, (bx.1.0, (by.0, (by.1.0, tt)))) e in
    ap₂ (λ s t. s ∷ t ∷ []) p q
burst_injective c (x ∷ a ∷ []) (y ∷ b ∷ _ ∷ ys) hc bx by same short e = absurd (omega arith)
burst_injective c (x ∷ a ∷ _ ∷ xs) (y ∷ b ∷ ys) hc bx by same short e = absurd (omega arith)

-- Two messages that differ only in one stretch of at most two neighbouring bytes never have the
-- same check sum.
pub compute16ccitt_detects :
    (before xs ys after : List ℕ)
    → IsBytes xs
    → IsBytes ys
    → IsBytes after
    → length xs ≡ length ys
    → length xs ≤ 2
    → xs ≢ ys
    → compute16ccitt (before ++ (xs ++ after)) ≢ compute16ccitt (before ++ (ys ++ after))
unfolding compute16ccitt
compute16ccitt_detects before xs ys after bx by ba same short differ e = differ (
    burst_injective c xs ys start bx by same short (
      crc_loop_injective (crc_loop c xs) (crc_loop c ys) after (crc_loop-lt c xs start)
        (crc_loop-lt c ys start) ba (sym (split xs) ∙ e ∙ split ys)))
  where
    c : ℕ
    c = crc_loop 0 before

    start : c < 2 ^ 16
    start = crc_loop-lt 0 before (omega arith)

    split : (zs : List ℕ) → crc_loop 0 (before ++ (zs ++ after)) ≡ crc_loop (crc_loop c zs) after
    split zs = crc_loop-append 0 before (zs ++ after) ∙ crc_loop-append c zs after
