-- ===== src/RosNode/Text/Decimal.antt =====
-- Printing a number and reading it back.
use rosaic.Prelude.{
  ℕ, zero, suc, ◌+◌, ◌-◌, ◌*◌, ◌/◌, ◌%◌, ◌^◌, ◌≤◌, ◌<◌, ◌≡◌, refl, ◌∙◌, ap, arith, Bool-cases, inl,
  inr, ltb, [], ◌∷◌,
}
use native.Mathlib.Nat.{pow-suc}
use rosaic.RosNode.Text.{Text, digits, to_string}

-- The number that decimal digits write, behind the digits of `before`.
unfoldable pub value : Text → ℕ → ℕ
value [] before = before
value (c ∷ cs) before = value cs (before * 10 + (c - 48))

digits-small : (most v : ℕ) (rest : Text) → v < 10 → digits (suc most) v rest ≡ (48 + v) ∷ rest
unfolding digits
digits-small most v rest small = ground arith

digits-large :
    (most v : ℕ) (rest : Text)
    → 10 ≤ v
    → digits (suc most) v rest ≡ digits most (v / 10) ((48 + v % 10) ∷ rest)
unfolding digits
digits-large most v rest large = ground arith

value-small :
    (most v : ℕ) (rest : Text) → v < 10 → value (digits (suc most) v rest) 0 ≡ value rest v
unfolding value
value-small most v rest small =
    let e : 0 * 10 + (48 + v - 48) ≡ v = omega arith in
    simp (digits-small most v rest small, e) refl

value-digits :
    (most v : ℕ) (rest : Text)
    → v < 10 ^ suc most
    → value (digits (suc most) v rest) 0 ≡ value rest v
unfolding value
value-digits zero v rest below = value-small zero v rest (omega arith)
value-digits (suc most) v rest below = elim (Bool-cases (ltb v 10)) [
  | inl small ↦ value-small (suc most) v rest (ground arith)
  | inr large ↦
      let e : v / 10 * 10 + (48 + v % 10 - 48) ≡ v = omega arith in
      let less : v / 10 < 10 ^ suc most = omega (arith, pow-suc 10 (suc most)) in
      rw (digits-large (suc most) v rest (ground arith))
        (value-digits most (v / 10) ((48 + v % 10) ∷ rest) less ∙ ap (λ t. value rest t) e)
]

-- A number that a `uint32_t` can hold is read back from its digits.
pub value-to_string : (v : ℕ) → v < 2 ^ 32 → value (to_string v) 0 ≡ v
unfolding value
value-to_string v below = value-digits 9 v [] (omega arith)
