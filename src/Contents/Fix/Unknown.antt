-- ===== src/Contents/Fix/Unknown.antt =====
-- The dilutions of precision that the receiver does not know, which GPSFix gives as -1.
use rosaic.Prelude.{
  ℕ, ◌≡◌, ◌≢◌, ◌↔◌, ◌⊎◌, inl, inr, refl, Bool, true, false, ◌||◌, ◌==◌, if◌then◌else◌,
}
use rosaic.Contents.Fix.{Blocks, dop_field, gps_dilution}
use rosaic.Contents.Pose.{Reals}

module _ {D : Type 0} (reals : Reals D) where
  open reals use {of_nat, minus_one, over, root}

  -- A number that stands for two, and is unknown where either is.
  either_unknown :
      (first second : Bool) (both one two : D)
      → both ≢ minus_one
      → one ≢ minus_one
      → two ≢ minus_one
      → ((if first || second then minus_one else both) ≡ minus_one)
        ↔ ((if first then minus_one else one) ≡ minus_one)
          ⊎ ((if second then minus_one else two) ≡ minus_one)
  either_unknown true second both one two b o t = (λ e. inl refl, λ e. refl)
  either_unknown false true both one two b o t = (λ e. inr refl, λ e. refl)
  either_unknown false false both one two b o t =
      (λ e. absurd (b e), elim [ inl e ↦ absurd (o e) | inr e ↦ absurd (t e) ])

  -- Where no quotient by 100 and no root is -1: the fix gives -1 for `gdop` exactly if it gives -1 for
  -- `pdop` or for `tdop`.
  pub gdop_unknown :
      ((n : ℕ) → over (of_nat n) (of_nat 100) ≢ minus_one)
      → ((x : D) → root x ≢ minus_one)
      → (blocks : Blocks)
      → ((gps_dilution reals blocks).gdop ≡ minus_one)
        ↔ ((gps_dilution reals blocks).pdop ≡ minus_one)
          ⊎ ((gps_dilution reals blocks).tdop ≡ minus_one)
  unfolding gps_dilution
  gdop_unknown quotient square_root blocks =
      let one = dop_field blocks "pdop" in
      let two = dop_field blocks "tdop" in
      either_unknown (one == 0) (two == 0) (root _) (over (of_nat one) (of_nat 100))
        (over (of_nat two) (of_nat 100)) (square_root _) (quotient one) (quotient two)
