-- ===== src/Read/Separators.antt =====
-- Messages without a comma or an asterisk, which are cut into one field.
use rosaic.Prelude.{
  ℕ, zero, suc, ◌≡◌, refl, arith, Bool, true, false, not, ◌&&◌, ◌||◌, ◌==◌, List, [], ◌∷◌, get_or,
  take, drop, ap, ◌∙◌,
}
use rosaic.MessageKey.{up_to, first_token}
use rosaic.Nmea.{split_fields, push, sentence_of}
use rosaic.RxMessage.{RxMessage, message_text, message_size}
use rosaic.RxMessage.Frames.{message_text-take}
use rosaic.Read.Safety.{ShortDate, date_field}

-- No byte separates fields.
abbrev pub free : List ℕ → Bool
free [] = true
free (c ∷ cs) = not (c == 0x2c || c == 0x2a) && free cs

pub free-drop : (k : ℕ) (t : List ℕ) → free t ≡ true → free (drop k t) ≡ true
free-drop zero t e = e
free-drop (suc k) [] e = e
free-drop (suc k) (c ∷ t) e = free-drop k t (ground (arith, e))

free-take : (k : ℕ) (t : List ℕ) → free t ≡ true → free (take k t) ≡ true
free-take zero t e = refl
free-take (suc k) [] e = refl
free-take (suc k) (c ∷ t) e = ground (arith, e, free-take k t (ground (arith, e)))

free-up_to : (sep : ℕ) (t : List ℕ) → free t ≡ true → free (up_to sep t) ≡ true
unfolding up_to
free-up_to sep [] e = refl
free-up_to sep (c ∷ t) e = ground (arith, e, free-up_to sep t (ground (arith, e)))

free-first_token : (sep : ℕ) (t : List ℕ) → free t ≡ true → free (first_token sep t) ≡ true
unfolding first_token
free-first_token sep [] e = refl
free-first_token sep (c ∷ t) e =
    ground
      (arith, e, free-up_to sep t (ground (arith, e)), free-first_token sep t (ground (arith, e)))

-- The second field and those behind it are missing.
get_or-push : (c k : ℕ) (fs : List (List ℕ)) → get_or (push c fs) (suc k) [] ≡ get_or fs (suc k) []
get_or-push c k [] = refl
get_or-push c k (f ∷ fs) = refl

get_or-split_fields : (k : ℕ) (t : List ℕ) → free t ≡ true → get_or (split_fields t) (suc k) [] ≡ []
unfolding split_fields
get_or-split_fields k [] e = refl
get_or-split_fields k (c ∷ t) e =
    let other : (c == 0x2c || c == 0x2a) ≡ false = ground (arith, e) in
    let rest : free t ≡ true = ground (arith, e) in
    rw other (get_or-push c k (split_fields t) ∙ get_or-split_fields k t rest)

-- A buffer without separators has no message with a date.
pub free-ShortDate :
    (buffer : List ℕ) → free buffer ≡ true → (m : RxMessage) → m.bytes ≡ buffer → ShortDate m → ⊥
unfolding sentence_of
free-ShortDate buffer e m same s =
    let n = record m { crc_check = s.crc } in
    let text = message_text n in
    let bytes : free n.bytes ≡ true = ap free same ∙ e in
    let whole : free text ≡ true =
      ap free (message_text-take n)
      ∙ free-take (message_size n).0 (drop n.pos n.bytes) (free-drop n.pos n.bytes bytes) in
    let none : date_field n ≡ [] =
      get_or-split_fields 8 (first_token 0x0d text) (free-first_token 0x0d text whole) in
    ground (arith, s.short, none)
