-- ===== src/RosNode/Text/Trim.antt =====
-- `trimString` on what `std::to_string` gives for a `float`: digits with a point.
use rosaic.Prelude.{
  ℕ, zero, suc, ◌≡◌, ◌≢◌, ◌⊎◌, refl, sym, ap, ◌∙◌, arith, true, inl, inr, [], ◌∷◌, ◌++◌, append-nil,
}
use mathlib.Core.Path.{subst}
use rosaic.RosNode.Text.{Text, reverse_onto, is_digit, trim_loop, trim_string}

abbrev pub zeros : ℕ → Text
zeros zero = []
zeros (suc k) = b'0' ∷ zeros k

zeros-cons : (k : ℕ) (rest : Text) → zeros k ++ b'0' ∷ rest ≡ b'0' ∷ (zeros k ++ rest)
zeros-cons zero rest = refl
zeros-cons (suc k) rest = ap (λ t. b'0' ∷ t) (zeros-cons k rest)

reverse_onto-zeros : (k : ℕ) (rest : Text) → reverse_onto (zeros k) rest ≡ zeros k ++ rest
reverse_onto-zeros zero rest = refl
reverse_onto-zeros (suc k) rest = reverse_onto-zeros k (b'0' ∷ rest) ∙ zeros-cons k rest

reverse_onto-append :
    (xs ys rest : Text) → reverse_onto (xs ++ ys) rest ≡ reverse_onto ys (reverse_onto xs rest)
reverse_onto-append [] ys rest = refl
reverse_onto-append (x ∷ xs) ys rest = reverse_onto-append xs ys (x ∷ rest)

reverse_twice :
    (xs ys rest : Text) → reverse_onto (reverse_onto xs ys) rest ≡ reverse_onto ys (xs ++ rest)
reverse_twice [] ys rest = refl
reverse_twice (x ∷ xs) ys rest = reverse_twice xs (x ∷ ys) rest

-- The digit that the loop ends at, in the reversed text: no zero, or the first behind the point.
abbrev Ends : ℕ → Text → Type 0
Ends c before = (c ≢ b'0') ⊎ ((whole : Text) × (before ≡ b'.' ∷ whole))

at_point : (c : ℕ) (whole : Text) → trim_loop (c ∷ b'.' ∷ whole) ≡ c ∷ b'.' ∷ whole
unfolding trim_loop
at_point c whole = ground arith

trim_loop-Ends : (c : ℕ) (before : Text) → Ends c before → trim_loop (c ∷ before) ≡ c ∷ before
unfolding trim_loop
trim_loop-Ends c [] ends = refl
trim_loop-Ends c (d ∷ rest) (inl other) = ground arith
trim_loop-Ends c (d ∷ rest) (inr (whole, e)) =
    subst (λ t. trim_loop (c ∷ t) ≡ c ∷ t) (sym e) (at_point c whole)

drop_zero :
    (c : ℕ) (rest : Text) → is_digit c ≡ true → trim_loop (b'0' ∷ c ∷ rest) ≡ trim_loop (c ∷ rest)
unfolding trim_loop
drop_zero c rest digit = ground arith

trim_loop-zeros :
    (k c : ℕ) (before : Text)
    → is_digit c ≡ true
    → Ends c before
    → trim_loop (zeros k ++ c ∷ before) ≡ c ∷ before
trim_loop-zeros zero c before digit ends = trim_loop-Ends c before ends
trim_loop-zeros (suc zero) c before digit ends =
    drop_zero c before digit ∙ trim_loop-Ends c before ends
trim_loop-zeros (suc (suc k)) c before digit ends =
    drop_zero b'0' (zeros k ++ c ∷ before) refl ∙ trim_loop-zeros (suc k) c before digit ends

trimmed :
    (k c : ℕ) (before : Text)
    → is_digit c ≡ true
    → Ends c before
    → trim_string (reverse_onto before (c ∷ zeros k)) ≡ reverse_onto before (c ∷ [])
unfolding trim_string
trimmed k c before digit ends =
    let reversed : reverse_onto (reverse_onto before (c ∷ zeros k)) [] ≡ zeros k ++ c ∷ before =
      reverse_twice before (c ∷ zeros k) []
      ∙ reverse_onto-zeros k (c ∷ before ++ [])
      ∙ ap (λ t. zeros k ++ c ∷ t) (append-nil before) in
    ap (λ t. reverse_onto t [])
      (ap (λ t. trim_loop t) reversed ∙ trim_loop-zeros k c before digit ends)

reversed-Ends :
    (whole part : Text) (c : ℕ)
    → (part ≡ []) ⊎ (c ≢ b'0')
    → Ends c (reverse_onto (whole ++ b'.' ∷ part) [])
reversed-Ends whole part c (inl none_) =
    inr (reverse_onto whole [], simp none_ (reverse_onto-append whole (b'.' ∷ []) []))
reversed-Ends whole part c (inr other) = inl other

-- Of the digits behind a point, `trimString` removes just the zeros at the end, and keeps the first:
-- whatever stands before the point, the digits `part` and `c` stay if `c` is no zero or is alone.
pub trim_string-zeros :
    (whole part : Text) (c k : ℕ)
    → is_digit c ≡ true
    → (part ≡ []) ⊎ (c ≢ b'0')
    → trim_string ((whole ++ b'.' ∷ part) ++ c ∷ zeros k) ≡ (whole ++ b'.' ∷ part) ++ c ∷ []
trim_string-zeros whole part c k digit last =
    let kept = whole ++ b'.' ∷ part in
    let ends = reversed-Ends whole part c last in
    let back : (rest : Text) → reverse_onto (reverse_onto kept []) rest ≡ kept ++ rest =
      λ rest. reverse_twice kept [] rest in
    ap (λ t. trim_string t) (sym (back (c ∷ zeros k)))
    ∙ trimmed k c (reverse_onto kept []) digit ends
    ∙ back (c ∷ [])
