-- ===== src/Prelude/Bits.antt =====
-- Laws of `^` on machine words: its halves and parities, and what follows from them by induction.
use Prim.Native.Nat.{ℕ, zero, suc, ◌+◌, ◌*◌, ◌/◌, ◌%◌, ◌^◌, ◌≤◌, ◌<◌, bit_xor}
use Prim.Native.Nat.{bit_xor-bitwise, differ, digits}
use mathlib.Core.Path.{◌≡◌, refl, sym, ◌∙◌}
use native.Mathlib.Nat.{pow-suc, div-div-eq-div-mul, div-one, div-add-mod, mul_comm}
use native.Mathlib.Omega.{arith}

-- The recursion on digits that the native operation stands for, at a given fuel.
abbrev xor_digits : ℕ → ℕ → ℕ → ℕ
xor_digits fuel a b = digits (λ rest. rest) differ fuel a b

-- Any two amounts of fuel that cover the first operand give one result.
xor_digits_agree :
    (fuel fuel' a b : ℕ) → a ≤ fuel → a ≤ fuel' → xor_digits fuel a b ≡ xor_digits fuel' a b
xor_digits_agree zero zero zero b h h' = refl
xor_digits_agree zero (suc k) zero b h h' = refl
xor_digits_agree (suc k) zero zero b h h' = refl
xor_digits_agree (suc k) (suc k') zero b h h' = refl
xor_digits_agree zero _ (suc a) b h h' = absurd (omega arith)
xor_digits_agree (suc k) zero (suc a) b h h' = absurd (omega arith)
xor_digits_agree (suc k) (suc k') (suc a) b h h' =
    omega (arith, xor_digits_agree k k' (suc a / 2) (b / 2) (omega arith) (omega arith))

differ_parity : (x y : ℕ) → x < 2 → y < 2 → differ x y ≡ (x + y) % 2
differ_parity zero zero h k = refl
differ_parity zero (suc zero) h k = refl
differ_parity (suc zero) zero h k = refl
differ_parity (suc zero) (suc zero) h k = refl
differ_parity zero (suc (suc y)) h k = absurd (omega arith)
differ_parity (suc zero) (suc (suc y)) h k = absurd (omega arith)
differ_parity (suc (suc x)) y h k = absurd (omega arith)

pub zero-xor : (b : ℕ) → bit_xor 0 b ≡ b
zero-xor b = bit_xor-bitwise 0 b

bit_xor_step : (a b : ℕ) → bit_xor a b ≡ bit_xor (a / 2) (b / 2) * 2 + (a + b) % 2
bit_xor_step zero b = omega (arith, zero-xor b, zero-xor (b / 2))
bit_xor_step (suc a) b = omega (
  arith,
  bit_xor-bitwise (suc a) b,
  bit_xor-bitwise (suc a / 2) (b / 2),
  xor_digits_agree a (suc a / 2) (suc a / 2) (b / 2) (omega arith) (omega arith),
  differ_parity (suc a % 2) (b % 2) (omega arith) (omega arith),
)

-- The halves of a word are combined apart from its lowest digit.
pub xor_half : (a b : ℕ) → bit_xor a b / 2 ≡ bit_xor (a / 2) (b / 2)
xor_half a b = omega (arith, bit_xor_step a b)

pub xor_parity : (a b : ℕ) → bit_xor a b % 2 ≡ (a + b) % 2
xor_parity a b = omega (arith, bit_xor_step a b)

-- Two numbers with equal halves and equal parities are equal.
eq_of_halves : (a b : ℕ) → a / 2 ≡ b / 2 → a % 2 ≡ b % 2 → a ≡ b
eq_of_halves a b h p = omega arith

-- The bound `k` makes the inductions below structural: halving brings every operand below it.
xor_comm_below : (k a b : ℕ) → a + b ≤ k → bit_xor a b ≡ bit_xor b a
xor_comm_below zero zero zero h = refl
xor_comm_below zero zero (suc b) h = absurd (omega arith)
xor_comm_below zero (suc a) b h = absurd (omega arith)
xor_comm_below (suc k) a b h =
    eq_of_halves _ _
      (omega (arith, xor_half a b, xor_half b a, xor_comm_below k (a / 2) (b / 2) (omega arith)))
      (omega (arith, xor_parity a b, xor_parity b a))

pub xor_comm : (a b : ℕ) → bit_xor a b ≡ bit_xor b a
xor_comm a b = xor_comm_below (a + b) a b (omega arith)

xor_assoc_below : (k a b c : ℕ) → a + b + c ≤ k → bit_xor (bit_xor a b) c ≡ bit_xor a (bit_xor b c)
xor_assoc_below zero zero zero zero h = refl
xor_assoc_below zero zero zero (suc c) h = absurd (omega arith)
xor_assoc_below zero zero (suc b) c h = absurd (omega arith)
xor_assoc_below zero (suc a) b c h = absurd (omega arith)
xor_assoc_below (suc k) a b c h =
    eq_of_halves _ _
      (rw (xor_half, xor_half, xor_half, xor_half)
        (xor_assoc_below k (a / 2) (b / 2) (c / 2) (omega arith)))
      (omega (
        arith,
        xor_parity (bit_xor a b) c,
        xor_parity a (bit_xor b c),
        xor_parity a b,
        xor_parity b c,
      ))

pub xor_assoc : (a b c : ℕ) → bit_xor (bit_xor a b) c ≡ bit_xor a (bit_xor b c)
xor_assoc a b c = xor_assoc_below (a + b + c) a b c (omega arith)

xor_self_below : (k a : ℕ) → a ≤ k → bit_xor a a ≡ 0
xor_self_below zero zero h = refl
xor_self_below (suc k) zero h = refl
xor_self_below zero (suc a) h = absurd (omega arith)
xor_self_below (suc k) (suc a) h = omega (
  arith,
  xor_half (suc a) (suc a),
  xor_parity (suc a) (suc a),
  xor_self_below k (suc a / 2) (omega arith),
)

pub xor_self : (a : ℕ) → bit_xor a a ≡ 0
xor_self a = xor_self_below a a (omega arith)

pub xor-zero : (a : ℕ) → bit_xor a 0 ≡ a
xor-zero a = xor_comm a 0 ∙ zero-xor a

-- A value combined twice with the same word is unchanged.
pub xor_cancel : (a b : ℕ) → bit_xor (bit_xor a b) b ≡ a
xor_cancel a b = rw (xor_assoc, xor_self) (xor-zero a)

-- Combining with one word is injective.
pub xor_injective : (a b c : ℕ) → bit_xor a c ≡ bit_xor b c → a ≡ b
xor_injective a b c h = cc (xor_cancel a c, xor_cancel b c)

div-pow-suc : (k a : ℕ) → a / 2 ^ suc k ≡ a / 2 / 2 ^ k
div-pow-suc k a = rw (pow-suc, div-div-eq-div-mul, mul_comm) refl

mod-pow-suc : (k a : ℕ) → a % 2 ^ suc k ≡ 2 * (a / 2 % 2 ^ k) + a % 2
mod-pow-suc k a = omega (arith, div-add-mod a (2 ^ suc k), div-add-mod (a / 2) (2 ^ k), quotient)
  where
    quotient : 2 ^ suc k * (a / 2 ^ suc k) ≡ 2 * (2 ^ k * (a / 2 / 2 ^ k))
    quotient = rw (div-pow-suc, pow-suc) (omega arith)

mod_half : (k a : ℕ) → a % 2 ^ suc k / 2 ≡ a / 2 % 2 ^ k
mod_half k a = omega (arith, mod-pow-suc k a)

mod_parity : (k a : ℕ) → a % 2 ^ suc k % 2 ≡ a % 2
mod_parity k a = omega (arith, mod-pow-suc k a)

-- A shift to the right goes under `^`.
pub xor-div : (k a b : ℕ) → bit_xor a b / 2 ^ k ≡ bit_xor (a / 2 ^ k) (b / 2 ^ k)
xor-div zero a b = rw (div-one, div-one, div-one) refl
xor-div (suc k) a b =
    rw (div-pow-suc k (bit_xor a b), div-pow-suc k a, div-pow-suc k b, xor_half)
      (xor-div k (a / 2) (b / 2))

-- So does a cut to the low digits.
pub xor-mod : (k a b : ℕ) → bit_xor a b % 2 ^ k ≡ bit_xor (a % 2 ^ k) (b % 2 ^ k)
xor-mod zero a b = rw (mod_one a, mod_one b) (mod_one (bit_xor a b))
  where
    mod_one : (n : ℕ) → n % 2 ^ 0 ≡ 0
    mod_one n = omega arith
xor-mod (suc k) a b =
    eq_of_halves _ _
      (rw (mod_half, xor_half, xor_half, mod_half, mod_half) (xor-mod k (a / 2) (b / 2)))
      (omega (
        arith,
        mod_parity k (bit_xor a b),
        mod_parity k a,
        mod_parity k b,
        xor_parity a b,
        xor_parity (a % 2 ^ suc k) (b % 2 ^ suc k),
      ))

pub xor_double : (a b : ℕ) → bit_xor (2 * a) (2 * b) ≡ 2 * bit_xor a b
xor_double a b =
    eq_of_halves _ _ (rw (xor_half, double_half a, double_half b) (sym (double_half (bit_xor a b))))
      (omega (arith, xor_parity (2 * a) (2 * b)))
  where
    double_half : (n : ℕ) → 2 * n / 2 ≡ n
    double_half n = omega arith

-- Words of `k` bits stay words of `k` bits.
pub xor-lt : (k a b : ℕ) → a < 2 ^ k → b < 2 ^ k → bit_xor a b < 2 ^ k
xor-lt zero zero zero h h' = omega arith
xor-lt zero (suc a) b h h' = absurd (omega arith)
xor-lt zero zero (suc b) h h' = absurd (omega arith)
xor-lt (suc k) a b h h' = omega (
  arith,
  pow-suc 2 k,
  xor_half a b,
  xor-lt k (a / 2) (b / 2) (omega (arith, pow-suc 2 k)) (omega (arith, pow-suc 2 k)),
)

-- The last two of three words change places.
pub xor_swap : (a b c : ℕ) → bit_xor (bit_xor a b) c ≡ bit_xor (bit_xor a c) b
xor_swap a b c = rw (xor_assoc a b c, xor_comm b c) (sym (xor_assoc a c b))

-- A word that enters on both sides of a sum drops out.
pub xor_regroup : (a b p : ℕ) → bit_xor (bit_xor a p) (bit_xor b p) ≡ bit_xor a b
xor_regroup a b p = rw (xor_swap a p (bit_xor b p), ← xor_assoc a b p, xor_cancel) refl

-- A byte below a shifted word is added to it.
pub xor_fields : (h l : ℕ) → l < 2 ^ 8 → bit_xor (h * 2 ^ 8) l ≡ h * 2 ^ 8 + l
xor_fields h l fits = omega (arith, xor-div 8 (h * 2 ^ 8) l, xor-mod 8 (h * 2 ^ 8) l, high, low)
  where
    high : bit_xor (h * 2 ^ 8 / 2 ^ 8) (l / 2 ^ 8) ≡ h
    high =
        let e : h * 2 ^ 8 / 2 ^ 8 ≡ h = omega arith in
        let f : l / 2 ^ 8 ≡ 0 = omega arith in rw (e, f) (xor-zero h)

    low : bit_xor (h * 2 ^ 8 % 2 ^ 8) (l % 2 ^ 8) ≡ l
    low =
        let e : h * 2 ^ 8 % 2 ^ 8 ≡ 0 = omega arith in
        let f : l % 2 ^ 8 ≡ l = omega arith in rw (e, f) (zero-xor l)
