-- ===== src/RxMessage/Identify.antt =====
-- `isMessage` against `messageID`.
use Prim.Native.Nat.{bit_and, bit_and-bitwise, digits}
use rosaic.Prelude.{
  ℕ, zero, suc, ◌/◌, min, ◌≡◌, ◌≢◌, ◌↔◌, refl, ◌∙◌, ap, arith, true, false, ◌==◌, List,
}
use rosaic.MessageKey.{block, text, list_eq→eq, list_eq, list_eq_refl, first_token}
use rosaic.RxMessage.{
  message_text, RxMessage, is_sbf, is_nmea, message_id, is_message_block, is_message_text,
}
use rosaic.RxMessage.Frames.{header_kinds}

and_digits-zero : (fuel a : ℕ) → digits (λ b. 0) min fuel a 0 ≡ 0
and_digits-zero zero a = refl
and_digits-zero (suc fuel) zero = refl
and_digits-zero (suc fuel) (suc a) = omega (arith, and_digits-zero fuel (suc a / 2))

bit_and-zero : (a : ℕ) → bit_and a 0 ≡ 0
bit_and-zero a = bit_and-bitwise a 0 ∙ and_digits-zero a a

-- `isMessage` with a block number answers false for every SBF block and every number but the mask
-- 8191 itself, also for the number that `messageID` names: the comparison is made before the mask.
pub is_message_block-message_id :
    (m : RxMessage) (id : ℕ)
    → is_sbf m ≡ true
    → message_id m ≡ block id
    → id ≢ 8191
    → is_message_block m id ≡ false
unfolding is_message_block
is_message_block-message_id m id sbf named other =
    let compared : (8191 == id) ≡ false = ground arith in rw (sbf, compared, bit_and-zero) refl

-- `isMessage` with a string answers true exactly for the NMEA sentences that `messageID` names so.
pub is_message_text-message_id :
    (m : RxMessage) (id : List ℕ)
    → is_nmea m ≡ true
    → (is_message_text m id ≡ true) ↔ (message_id m ≡ text id)
unfolding is_message_text message_id
is_message_text-message_id m id nmea =
    let not_sbf : is_sbf m ≡ false = ground (arith, header_kinds m) in
    let field = first_token 0x2c (message_text m) in
    (
      λ h. rw (not_sbf, nmea) (ap text (list_eq→eq field id (rw nmea at h))),
      λ e. rw nmea (named field (rw (not_sbf, nmea) at e)),
    )
  where
    named : (field : List ℕ) → text field ≡ text id → list_eq field id ≡ true
    named field e = let same : field ≡ id = cc in rw same (list_eq_refl id)
