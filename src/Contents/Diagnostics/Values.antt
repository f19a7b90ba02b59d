-- ===== src/Contents/Diagnostics/Values.antt =====
-- The values of a DiagnosticArray, which leave no room for the overall quality.
use rosaic.Prelude.{
  ℕ, zero, suc, ◌+◌, ◌-◌, ◌≤◌, ◌<◌, ◌≡◌, ◌≢◌, refl, sym, ap, ◌∙◌, arith, Bool-cases, inl, inr, ltb,
  List, [], ◌∷◌, ◌++◌, length, none, some, append_assoc, length-append,
}
use native.Mathlib.Decide.{ℕ_discrete}
use rosaic.Contents.{Memory, n_of}
use rosaic.Contents.Diagnostics.{
  Label, KeyValue, type_of, value_of, find, level, label, replicate, put_at, filled, outside,
  write_value, write_values, values_size, diagnostic_array,
}

length-replicate : (k : ℕ) → length (replicate k) ≡ k
length-replicate zero = refl
length-replicate (suc k) = ap (λ t. suc t) (length-replicate k)

length-put_at : (i : ℕ) (kv : KeyValue) (xs : List KeyValue) → length (put_at i kv xs) ≡ length xs
length-put_at i kv [] = refl
length-put_at zero kv (x ∷ xs) = refl
length-put_at (suc i) kv (x ∷ xs) = ap (λ t. suc t) (length-put_at i kv xs)

put_at-append :
    (kv x : KeyValue) (before after : List KeyValue)
    → put_at (length before) kv (before ++ x ∷ after) ≡ before ++ kv ∷ after
put_at-append kv x [] after = refl
put_at-append kv x (b ∷ before) after = ap (λ t. b ∷ t) (put_at-append kv x before after)

-- The value of one indicator.
unfoldable pub entry : Memory → ℕ → KeyValue
entry byte i = elim (label (type_of byte i)) [ none ↦ none | some l ↦ some (l, value_of byte i) ]

-- The values of so many indicators from `i` on.
unfoldable pub entries : Memory → ℕ → ℕ → List KeyValue
entries byte zero i = []
entries byte (suc k) i = entry byte i ∷ entries byte k (i + 1)

module _ (byte : Memory) (p : ℕ) where
  write_value-skipped : (values : List KeyValue) → write_value byte p p values ≡ filled values
  unfolding write_value
  write_value-skipped values = ground arith

  write_value-inside :
      (i : ℕ) (l : Label) (values : List KeyValue)
      → i ≢ p
      → label (type_of byte i) ≡ some l
      → i < length values
      → write_value byte p i values ≡ filled (put_at i (entry byte i) values)
  unfolding write_value entry
  write_value-inside i l values other known inside = ground arith

  write_value-outside :
      (i : ℕ) (l : Label) (values : List KeyValue)
      → i ≢ p
      → label (type_of byte i) ≡ some l
      → length values ≤ i
      → write_value byte p i values ≡ outside
  unfolding write_value
  write_value-outside i l values other known behind = ground arith

-- Every other indicator among `count` has a type that the program knows.
abbrev pub Labelled : Memory → ℕ → ℕ → Type 0
Labelled byte p count =
    (i : ℕ) → i < count → i ≢ p → (l : Label) × (label (type_of byte i) ≡ some l)

module _ (byte : Memory) (p rounds i : ℕ) (values : List KeyValue) where
  write_values-next :
      (now : List KeyValue)
      → write_value byte p i values ≡ filled now
      → write_values byte p (suc rounds) i values ≡ write_values byte p rounds (i + 1) now
  unfolding write_values
  write_values-next now e = simp (write_values, e) refl

  write_values-stop :
      write_value byte p i values ≡ outside → write_values byte p (suc rounds) i values ≡ outside
  unfolding write_values
  write_values-stop e = simp (write_values, e) refl

  write_value-at : i ≡ p → write_value byte p i values ≡ filled values
  write_value-at same = rw same (write_value-skipped byte p values)

-- From a position on that is not behind the array, the loop ends behind it.
write_values-outside :
    (byte : Memory) (p count rounds i : ℕ) (values : List KeyValue)
    → Labelled byte p count
    → p + 1 < count
    → i < count
    → i + rounds ≡ count
    → length values + 1 ≡ count
    → write_values byte p rounds i values ≡ outside
write_values-outside byte p count zero i values known h inside all size = absurd (omega arith)
write_values-outside byte p count (suc rounds) i values known h inside all size =
    elim (ℕ_discrete i p) [
      | yes same ↦
          write_values-next byte p rounds i values values
            (write_value-at byte p rounds i values same)
          ∙ write_values-outside byte p count rounds (i + 1) values known h (omega arith)
              (omega arith) size
      | no other ↦
          let (l, e) = known i inside other in
          elim (Bool-cases (ltb i (length values))) [
            | inl room ↦
                let now = put_at i (entry byte i) values in
                let same_size = length-put_at i (entry byte i) values in
                write_values-next byte p rounds i values now
                  (write_value-inside byte p i l values other e (ground arith))
                ∙ write_values-outside byte p count rounds (i + 1) now known h (ground arith)
                    (omega arith) (omega (arith, same_size, size))
            | inr full ↦
                write_values-stop byte p rounds i values
                  (write_value-outside byte p i l values other e (ground arith))
          ]
    ]

-- Up to the overall quality, behind which nothing follows, the values are filled in order.
write_values-filled :
    (byte : Memory) (count rounds : ℕ) (before : List KeyValue)
    → Labelled byte count (count + 1)
    → length before + rounds ≡ count
    → write_values byte count (suc rounds) (length before) (before ++ replicate rounds)
      ≡ filled (before ++ entries byte rounds (length before))
unfolding entries write_values
write_values-filled byte count zero before known all =
    let here : length before ≡ count = omega arith in
    let skipped = write_value-at byte count zero (length before) (before ++ []) here in
    write_values-next byte count zero (length before) (before ++ []) (before ++ []) skipped
write_values-filled byte count (suc rounds) before known all =
    let i = length before in
    let other : i ≢ count = λ e. omega arith in
    let (l, e) = known i (omega arith) other in
    let size = length-append before (replicate (suc rounds)) in
    let written =
      write_value-inside byte count i l (before ++ replicate (suc rounds)) other e
        (omega (arith, size)) in
    let grown = before ++ (entry byte i ∷ []) in
    let put : put_at i (entry byte i) (before ++ replicate (suc rounds))
        ≡ grown ++ replicate rounds =
      put_at-append (entry byte i) none before (replicate rounds)
      ∙ sym (append_assoc before (entry byte i ∷ []) (replicate rounds)) in
    let next : length grown ≡ i + 1 = length-append before (entry byte i ∷ []) in
    let rest = write_values-filled byte count rounds grown known (omega (arith, next)) in
    let more = entries byte rounds in
    let moved : write_values byte count (suc rounds) (i + 1) (grown ++ replicate rounds)
        ≡ filled (grown ++ more (i + 1)) =
      rw (sym next) rest in
    write_values-next byte count (suc rounds) i (before ++ replicate (suc rounds)) _
      (written ∙ ap (λ t. filled t) put)
    ∙ moved
    ∙ ap (λ t. filled t) (append_assoc before (entry byte i ∷ []) (more (i + 1)))

-- With the overall quality as the last indicator, and types that the program knows before it, the
-- values are those of the other indicators, in order and complete.
pub overall_last :
    (byte : Memory) (rx_error unset count : ℕ)
    → n_of byte ≡ count + 1
    → find byte (n_of byte) 0 ≡ some count
    → Labelled byte count (count + 1)
    → (diagnostic_array byte rx_error unset).1 ≡ filled (entries byte count 0)
unfolding diagnostic_array
overall_last byte rx_error unset count many found known =
    let size : values_size (n_of byte) ≡ count = ground arith in
    let rounds : n_of byte ≡ suc count = omega arith in
    let all : write_values byte count (n_of byte) 0 (replicate count)
        ≡ filled (entries byte count 0) =
      rw rounds (write_values-filled byte count count [] known (omega arith)) in
    simp (found, size) all

-- With the overall quality before the last indicator, and types that the program knows elsewhere, the
-- value of the last indicator is written behind the end of `values`.
pub overall_before :
    (byte : Memory) (rx_error unset p : ℕ)
    → find byte (n_of byte) 0 ≡ some p
    → p + 1 < n_of byte
    → Labelled byte p (n_of byte)
    → diagnostic_array byte rx_error unset ≡ (level byte rx_error (some p), outside)
unfolding diagnostic_array
overall_before byte rx_error unset p found before known =
    let size : values_size (n_of byte) ≡ n_of byte - 1 = ground arith in
    let behind =
      write_values-outside byte p (n_of byte) (n_of byte) 0 (replicate (n_of byte - 1)) known before
        (omega arith) (omega arith) (omega (arith, length-replicate (n_of byte - 1))) in
    simp (found, size) (ap (λ v. (level byte rx_error (some p), v)) behind)
