-- ===== src/Parsers/Gsa/Satellites.antt =====
-- The satellites of a GSA sentence: the array that the loop fills, against the list of the fields.
use rosaic.Prelude.{
  ℕ, zero, suc, ◌+◌, ◌≤◌, ◌<◌, ◌≡◌, ◌≢◌, ap, refl, sym, arith, true, false, Bool-cases, inl, inr,
  if◌then◌else◌, ◌==◌, List, [], ◌∷◌, ◌++◌, length, take, drop, length-take, length-drop,
}
use mathlib.Core.Path.{◌∙◌}
use rosaic.Parsers.{
  out_of_range, ℤ, Conversion, is_empty, parse_uint8, parse_float, parsed, refused, field,
}
use native.Mathlib.Decide.{ℕ_discrete}
use rosaic.Nmea.{Field}
use rosaic.Parsers.Gsa.{Gpgsa, no_ids, kept, set_at, id_loop, parse_ascii}

-- The numbers of the fields that are not empty, in order.
unfoldable pub numbers : (Field → Conversion ℤ) → List Field → List ℕ
numbers strtol [] = []
numbers strtol (f ∷ fs) =
    if is_empty f then numbers strtol fs else (parse_uint8 strtol f).1 ∷ numbers strtol fs

take-set_at :
    (i v : ℕ) (xs rest : List ℕ)
    → i < length xs
    → take (i + 1) (set_at i v xs) ++ rest ≡ take i xs ++ (v ∷ rest)
unfolding set_at
take-set_at i v [] rest inside = absurd (omega (arith, inside))
take-set_at zero v (x ∷ xs) rest inside = refl
take-set_at (suc i) v (x ∷ xs) rest inside =
    let e : suc i + 1 ≡ suc (i + 1) = omega arith in
    rw e (ap (λ t. x ∷ t) (take-set_at i v xs rest (omega arith)))

length-set_at : (i v : ℕ) (xs : List ℕ) → length (set_at i v xs) ≡ length xs
unfolding set_at
length-set_at i v [] = refl
length-set_at zero v (x ∷ xs) = refl
length-set_at (suc i) v (x ∷ xs) = omega (arith, length-set_at i v xs)

append-nil : (xs : List ℕ) → xs ++ [] ≡ xs
append-nil [] = refl
append-nil (x ∷ xs) = ap (λ t. x ∷ t) (append-nil xs)

id_loop-numbers :
    (strtol : Field → Conversion ℤ) (fs : List Field) (ids : List ℕ) (n : ℕ)
    → n + length fs ≤ length ids
    → id_loop strtol fs ids n ≡ take n ids ++ numbers strtol fs
unfolding id_loop numbers
id_loop-numbers strtol [] ids n room = sym (append-nil (take n ids))
id_loop-numbers strtol (f ∷ fs) ids n room = elim (Bool-cases (is_empty f)) [
  | inl empty ↦ rw empty (id_loop-numbers strtol fs ids n (omega arith))
  | inr full ↦
      (let v = (parse_uint8 strtol f).1 in
        let ids' = set_at n v ids in
        rw full (
          id_loop-numbers strtol fs ids' (n + 1) (omega (arith, length-set_at n v ids))
          ∙ take-set_at n v ids (numbers strtol fs) (omega arith)))
]

field-there :
    (body : List Field) (i : ℕ) → i < length body → (f : Field) × (field body i ≡ parsed f)
unfolding field
field-there [] i inside = absurd (omega (arith, inside))
field-there (f ∷ body) zero inside = (f, refl)
field-there (f ∷ body) (suc i) inside = field-there body i (omega arith)

-- `parseASCII` for GSA accepts exactly the sentences of 19 fields, never reads a field behind the
-- end, and returns as satellites the numbers of the fields 3 to 14 that are not empty, in order.
pub parse_ascii_satellites :
    {F : Type 0} (strtol : Field → Conversion ℤ) (strtof : Field → Conversion F) (body : List Field)
    → (length body ≢ 19 → parse_ascii strtol strtof body ≡ refused)
      × (length body ≡ 19
          → (msg : Gpgsa F) × (parse_ascii strtol strtof body ≡ parsed msg)
            × (msg.sv_ids ≡ numbers strtol (take 12 (drop 3 body))))
unfolding parse_ascii
parse_ascii_satellites strtol strtof body = (
  λ other. let wrong : (length body == 19) ≡ false = ground (arith, other) in rw wrong refl,
  λ e.
      (let right : (length body == 19) ≡ true = ground (arith, e) in
        let (f₀, e₀) = field-there body 0 (omega (arith, e)) in
        let (f₁, e₁) = field-there body 1 (omega (arith, e)) in
        let (f₂, e₂) = field-there body 2 (omega (arith, e)) in
        let (f₃, e₃) = field-there body 15 (omega (arith, e)) in
        let (f₄, e₄) = field-there body 16 (omega (arith, e)) in
        let (f₅, e₅) = field-there body 17 (omega (arith, e)) in
        (
          record {
            message_id = f₀;
            auto_manual_mode = f₁;
            fix_mode = (parse_uint8 strtol f₂).1;
            sv_ids = id_loop strtol (take 12 (drop 3 body)) no_ids 0;
            pdop = kept (parse_float strtof f₃);
            hdop = kept (parse_float strtof f₄);
            vdop = kept (parse_float strtof f₅);
          },
          rw (right, e₀, e₁, e₂, e₃, e₄, e₅) refl,
          id_loop-numbers strtol (take 12 (drop 3 body)) no_ids 0
              (omega (arith, length-take 12 (drop 3 body), length-drop 3 body)),
        )),
)

pub parse_ascii-total :
    {F : Type 0} (strtol : Field → Conversion ℤ) (strtof : Field → Conversion F) (body : List Field)
    → parse_ascii strtol strtof body ≢ out_of_range
parse_ascii-total strtol strtof body e =
    let (other, right) = parse_ascii_satellites strtol strtof body in
    elim (ℕ_discrete (length body) 19) [
      | yes same ↦ cc (e, (right same).1)
      | no differs ↦ cc (e, other differs)
    ]
