-- ===== src/Parsers/Gsv/Bounds.antt =====
-- The fields that the GSV parser reads, and how many satellites it takes from a sentence.
use rosaic.Prelude.{
  ℕ, zero, suc, ◌+◌, ◌-◌, ◌*◌, ◌≤◌, ◌<◌, min, ◌≡◌, ◌≢◌, inl, inr, refl, arith, Bool, true, false,
  not, ◌&&◌, ltb, leb, ◌==◌, if◌then◌else◌, Bool-cases, Option, none, some, List, [], ◌∷◌, length,
}
use mathlib.Core.Path.{subst}
use rosaic.Nmea.{Field}
use rosaic.Parsers.{
  ℤ, negsuc, Conversion, is_empty, parse_uint8, parse_float, Parsed, parsed, refused, out_of_range,
  ◌>>=◌, field,
}
use rosaic.Parsers.Gsv.{
  Gpgsv, sats_in_sentence, expected_length, int8, number, decimal, strength, satellite,
  read_satellites, read_body, parse_ascii,
}

-- No access is out of range, and a result that is parsed has the property.
unfoldable pub Within : {A : Type 0} → (A → Type 0) → Parsed A → Type 0
Within P (parsed a) = P a
Within P refused = Unit
Within P out_of_range = ⊥

Within->>= :
    {A B : Type 0} (P : A → Type 0) (Q : B → Type 0) (r : Parsed A) (f : A → Parsed B)
    → Within P r
    → ((a : A) → P a → Within Q (f a))
    → Within Q (r >>= f)
unfolding Within
Within->>= P Q (parsed a) f p next = next a p
Within->>= P Q refused f p next = tt
Within->>= P Q out_of_range f p next = absurd p

-- A part of which only its accesses matter.
chain :
    {A B : Type 0} (Q : B → Type 0) (r : Parsed A) (f : A → Parsed B)
    → Within (λ a. Unit) r
    → ((a : A) → Within Q (f a))
    → Within Q (r >>= f)
chain Q r f p next = Within->>= (λ a. Unit) Q r f p (λ a h. next a)

parsed-Within : {A : Type 0} (a : A) → Within (λ a. Unit) (parsed a)
unfolding Within
parsed-Within a = tt

length_enough :
    (n : ℕ) (body : List Field)
    → (not (length body == expected_length n) && not (length body == expected_length n - 1)) ≡ false
    → 4 + 4 * n ≤ length body
unfolding expected_length
length_enough n body right = ground arith

field-Within : (body : List Field) (i : ℕ) → i < length body → Within (λ f. Unit) (field body i)
unfolding field Within
field-Within [] i inside = absurd (omega (arith, inside))
field-Within (f ∷ body) zero inside = tt
field-Within (f ∷ body) (suc i) inside = field-Within body i (omega arith)

-- What a GSV message looks like that was parsed from a sentence.
abbrev pub IsGsv : {F : Type 0} → List Field → Gpgsv F → Type 0
IsGsv body msg =
    (length msg.satellites ≡ sats_in_sentence msg.n_msgs msg.msg_number msg.n_satellites)
    × (msg.msg_number ≤ msg.n_msgs)
    × (msg.n_msgs ≤ 9)
    × (4 + 4 * length msg.satellites ≤ length body)

module _ {F : Type 0} (strtol : Field → Conversion ℤ) (strtof : Field → Conversion F) where
  number-Within : (f : Field) → Within (λ n. Unit) (number strtol strtof f)
  unfolding number Within
  number-Within f = elim (Bool-cases (parse_uint8 strtol f).0) [
    | inl good ↦ rw good tt
    | inr bad ↦ rw bad tt
  ]

  decimal-Within : (f : Field) → Within (λ v. Unit) (decimal strtol strtof f)
  unfolding decimal Within
  decimal-Within f = go (parse_float strtof f)
    where
      go :
          (o : Option (Option F))
          → Within (λ v. Unit) (elim o [ none ↦ refused | some v ↦ parsed v ])
      go none = tt
      go (some v) = tt

  present-Within :
      (f : Field) (b : Bool)
      → Within
          (λ s. Unit)
          (if b then parsed (negsuc 0) else (number strtol strtof f >>= λ n. parsed (int8 n)))
  unfolding Within
  present-Within f true = tt
  present-Within f false = chain (λ s. Unit) (number strtol strtof f) _ (number-Within f) (λ n. tt)

  strength-Within : (body : List Field) (i : ℕ) → Within (λ s. Unit) (strength strtol strtof body i)
  unfolding strength Within
  strength-Within body i = elim (Bool-cases (leb (length body) i)) [
    | inl past ↦ rw past tt
    | inr inside ↦ rw inside (
        chain (λ s. Unit) (field body i) _ (field-Within body i (ground (arith, inside)))
          (λ f. present-Within f (is_empty f)))
  ]

  -- The three fields of a satellite before its signal strength lie inside the sentence.
  satellite-Within :
      (body : List Field) (index : ℕ)
      → index + 2 < length body
      → Within (λ s. Unit) (satellite strtol strtof body index)
  unfolding satellite
  satellite-Within body index inside =
      chain (λ s. Unit) (field body index) _ (field-Within body index (omega arith))
        (λ f₀.
          chain (λ s. Unit) (number strtol strtof f₀) _ (number-Within f₀)
            (λ prn.
              chain (λ s. Unit) (field body (index + 1)) _
                (field-Within body (index + 1) (omega arith))
                (λ f₁.
                  chain (λ s. Unit) (decimal strtol strtof f₁) _ (decimal-Within f₁)
                    (λ elevation.
                      chain (λ s. Unit) (field body (index + 2)) _
                        (field-Within body (index + 2) inside)
                        (λ f₂.
                          chain (λ s. Unit) (decimal strtol strtof f₂) _ (decimal-Within f₂)
                            (λ azimuth.
                              chain (λ s. Unit) (strength strtol strtof body (index + 3)) _
                                (strength-Within body (index + 3)) (λ snr. parsed-Within _)))))))

  read_satellites-Within :
      (body : List Field) (left index : ℕ)
      → index + 4 * left ≤ length body
      → Within (λ sats. length sats ≡ left) (read_satellites strtol strtof body left index)
  unfolding read_satellites Within
  read_satellites-Within body zero index inside = refl
  read_satellites-Within body (suc left) index inside =
      chain (λ sats. length sats ≡ suc left) (satellite strtol strtof body index) _
        (satellite-Within body index (omega arith))
        (λ sat.
          Within->>= (λ sats. length sats ≡ left) (λ sats. length sats ≡ suc left)
            (read_satellites strtol strtof body left (index + 4)) _
            (read_satellites-Within body left (index + 4) (omega arith))
            (λ rest e. omega (arith, e)))

  read_body-Within :
      (body : List Field) (id : Field) (n_msgs msg_number n_satellites : ℕ)
      → msg_number ≤ n_msgs
      → n_msgs ≤ 9
      → Within (IsGsv body) (read_body strtol strtof body id n_msgs msg_number n_satellites)
  unfolding read_body Within
  read_body-Within body id n_msgs msg_number n_satellites inside few =
      let n = sats_in_sentence n_msgs msg_number n_satellites in
      let wrong =
        not (length body == expected_length n) && not (length body == expected_length n - 1) in
      elim (Bool-cases wrong) [
        | inl other ↦ rw other tt
        | inr right ↦
            (let enough : 4 + 4 * n ≤ length body = length_enough n body right in
              rw right (
                Within->>= (λ sats. length sats ≡ n) (IsGsv body)
                  (read_satellites strtol strtof body n 4) _
                  (read_satellites-Within body n 4 enough)
                  (λ sats e. (e, inside, few, omega (arith, e, enough)))))
      ]

  below : (n : ℕ) (m : ℕ) → Within (λ u. n ≤ m) (if ltb m n then refused else parsed tt)
  unfolding Within
  below n m = elim (Bool-cases (ltb m n)) [
    | inl more ↦ rw more tt
    | inr fine ↦ rw fine (ground (arith, fine))
  ]

  parse_ascii-Within : (body : List Field) → Within (IsGsv body) (parse_ascii strtol strtof body)
  unfolding parse_ascii Within
  parse_ascii-Within body = elim (Bool-cases (ltb (length body) 4)) [
    | inl short ↦ rw short tt
    | inr enough ↦
        (let four : 4 ≤ length body = ground (arith, enough) in
          rw enough (
            chain (IsGsv body) (field body 0) _ (field-Within body 0 (omega arith)) (λ id.
              chain (IsGsv body) (field body 1) _ (field-Within body 1 (omega arith)) (λ f₁.
                chain (IsGsv body) (number strtol strtof f₁) _ (number-Within f₁) (λ n_msgs.
                  Within->>= (λ u. n_msgs ≤ 9) (IsGsv body) _ _ (below n_msgs 9)
                    (λ u few.
                      chain (IsGsv body) (field body 2) _ (field-Within body 2 (omega arith)) (λ f₂.
                        chain (IsGsv body) (number strtol strtof f₂) _ (number-Within f₂)
                          (λ msg_number.
                            Within->>= (λ u. msg_number ≤ n_msgs) (IsGsv body) _ _
                              (below msg_number n_msgs)
                              (λ u inside.
                                chain (IsGsv body) (field body 3) _
                                  (field-Within body 3 (omega arith))
                                  (λ f₃.
                                    chain (IsGsv body) (number strtol strtof f₃) _
                                      (number-Within f₃)
                                      (λ n_satellites.
                                        read_body-Within body id n_msgs msg_number n_satellites
                                          inside few)))))))))))
  ]

-- `parseASCII` for GSV never reads a field behind the end of the sentence, whatever the sentence and
-- whatever `strtol` and `strtof` return; a message that it returns has as many satellites as the
-- numbers of its header ask for, all of them in fields of the sentence, and a number of messages of at
-- most nine, none smaller than the number of the message itself.
pub parse_ascii_inside :
    {F : Type 0} (strtol : Field → Conversion ℤ) (strtof : Field → Conversion F) (body : List Field)
    → (parse_ascii strtol strtof body ≢ out_of_range)
      × ((msg : Gpgsv F) → parse_ascii strtol strtof body ≡ parsed msg → IsGsv body msg)
unfolding Within
parse_ascii_inside strtol strtof body = (
  λ e. subst (λ r. Within (IsGsv body) r) e (parse_ascii-Within strtol strtof body),
  λ msg e. subst (λ r. Within (IsGsv body) r) e (parse_ascii-Within strtol strtof body),
)

-- In a sequence of `n` sentences for `t` satellites, as many sentences as four satellites in each
-- take, sentence `k` is parsed for the satellites that are left behind the ones before it, and at
-- most for four.
pub sats_in_sentence-min :
    (n k t : ℕ)
    → 1 ≤ k
    → k ≤ n
    → t ≤ 4 * n
    → 4 * n < t + 4
    → sats_in_sentence n k t ≡ min 4 (t - 4 * (k - 1))
unfolding sats_in_sentence
sats_in_sentence-min n k t one inside all few = ground arith
