-- ===== src/Crc/Block.antt =====
-- `isValid` on whole SBF blocks: what it answers, and what it reads.
use mathlib.Core.Option.{some-injective}
use rosaic.Prelude.{
  ◌↔◌, ℕ, ◌+◌, ◌*◌, ◌^◌, ◌≤◌, ◌<◌, ◌≡◌, ◌≢◌, refl, sym, ◌∙◌, ap, arith, List, ◌∷◌, ◌++◌, true,
  false, none, some, length, length-append, take_all, leb, ◌==◌, ==_iff, Bool-cases, inl, inr,
}
use rosaic.Crc.{compute16ccitt, read_u16, read_bytes, crc_span, is_valid}
use rosaic.Crc.Equiv.{IsBytes}
use rosaic.Crc.Detect.{compute16ccitt_detects}

-- `BlockHeader_t`, byte by byte, in front of the body of the block.
pub record Header : Type 0 where
  pub sync_1 : ℕ
  pub sync_2 : ℕ
  pub crc_low : ℕ
  pub crc_high : ℕ
  pub id_low : ℕ
  pub id_high : ℕ
  pub length_low : ℕ
  pub length_high : ℕ

-- The part that the check sum covers: identifier, length and body.
abbrev pub covered : Header → List ℕ → List ℕ
covered h body = h.id_low ∷ h.id_high ∷ h.length_low ∷ h.length_high ∷ body

abbrev pub block_of : Header → List ℕ → List ℕ
block_of h body = h.sync_1 ∷ h.sync_2 ∷ h.crc_low ∷ h.crc_high ∷ covered h body

abbrev pub length_field : Header → ℕ
length_field h = h.length_low + 2 ^ 8 * h.length_high

abbrev pub crc_field : Header → ℕ
crc_field h = h.crc_low + 2 ^ 8 * h.crc_high

module _ (h : Header) (body : List ℕ) where
  read_crc : read_u16 (block_of h body) 2 ≡ crc_field h
  unfolding read_u16
  read_crc = refl

  span :
      length_field h ≡ 8 + length body
      → length_field h < 2 ^ 16
      → crc_span (block_of h body) ≡ 4 + length body
  unfolding crc_span read_u16
  span e fits = omega arith

  read_covered : read_bytes (block_of h body) 4 (4 + length body) ≡ some (covered h body)
  unfolding read_bytes
  read_covered =
      let inside : leb (4 + (4 + length body)) (length (block_of h body)) ≡ true = ground arith in
      rw inside (ap some (take_all (4 + length body) (covered h body) (omega arith)))

  -- On a block that ends where its length field says, the check sum of all after the first four
  -- bytes is compared with the field.
  pub is_valid_whole :
      length_field h ≡ 8 + length body
      → length_field h < 2 ^ 16
      → is_valid (block_of h body) ≡ some (compute16ccitt (covered h body) == crc_field h)
  unfolding is_valid
  is_valid_whole e fits =
      let header : leb 8 (length (block_of h body)) ≡ true = ground arith in
      rw (header, span e fits, read_covered, read_crc) refl

-- In fewer than 2^32 bytes of memory, `isValid` stays inside it exactly when the memory holds a header
-- and the whole length that the header names, and that length is at least 4: below it the `size_t`
-- subtraction wraps, and the loop runs on past the memory.
pub is_valid_reads :
    (block : List ℕ)
    → read_u16 block 6 < 2 ^ 16
    → length block < 2 ^ 32
    → (is_valid block ≢ none)
      ↔ ((8 ≤ length block) × (4 ≤ read_u16 block 6) × (read_u16 block 6 ≤ length block))
unfolding is_valid crc_span read_bytes
is_valid_reads block word mem = ground arith

-- `isValid` rejects every block that differs from an accepted one, behind the header, in one
-- stretch of at most two bytes, both of the length that their header names.
pub is_valid_detects :
    (h : Header) (before xs ys after : List ℕ)
    → IsBytes xs
    → IsBytes ys
    → IsBytes after
    → length xs ≡ length ys
    → length xs ≤ 2
    → length_field h ≡ 8 + length (before ++ (xs ++ after))
    → length_field h < 2 ^ 16
    → is_valid (block_of h (before ++ (xs ++ after))) ≡ some true
    → xs ≢ ys
    → is_valid (block_of h (before ++ (ys ++ after))) ≡ some false
is_valid_detects h before xs ys after bx by ba same short e fits ok differ =
    is_valid_whole h (before ++ (ys ++ after)) (e ∙ ap (λ n. 8 + n) lengths) fits ∙ ap some rejected
  where
    lengths : length (before ++ (xs ++ after)) ≡ length (before ++ (ys ++ after))
    lengths = omega (
      arith,
      length-append before (xs ++ after),
      length-append before (ys ++ after),
      length-append xs after,
      length-append ys after,
    )

    accepted : compute16ccitt (covered h (before ++ (xs ++ after))) ≡ crc_field h
    accepted =
        (==_iff _ _).0
          (some-injective _ _ (sym (is_valid_whole h (before ++ (xs ++ after)) e fits) ∙ ok))

    prefix : List ℕ
    prefix = h.id_low ∷ h.id_high ∷ h.length_low ∷ h.length_high ∷ before

    rejected : (compute16ccitt (covered h (before ++ (ys ++ after))) == crc_field h) ≡ false
    rejected =
        elim (Bool-cases (compute16ccitt (covered h (before ++ (ys ++ after))) == crc_field h)) [
          | inr no_match ↦ no_match
          | inl match ↦ absurd (
              compute16ccitt_detects prefix xs ys after bx by ba same short differ
                (accepted ∙ sym ((==_iff _ _).0 match)))
        ]
