-- ===== src/Nmea.antt =====
-- parsers/nmea_sentence.hpp, and how `RxMessage::read` of communication/rx_message.cpp cuts the text
-- of a message into an `NMEASentence`.
use rosaic.Prelude.{ℕ, ◌||◌, ◌==◌, if◌then◌else◌, List, [], ◌∷◌}
use rosaic.MessageKey.{first_token}

-- A field of a sentence is the list of its bytes.
abbrev pub Field : Type 0
Field = List ℕ

pub record Sentence : Type 0 where
  pub id : Field
  pub body : List Field

-- Puts a byte in front of the first field.
abbrev pub push : ℕ → List Field → List Field
push c [] = (c ∷ []) ∷ []
push c (f ∷ fs) = (c ∷ f) ∷ fs

-- A tokenizer with the separators `,` and `*` that keeps empty tokens.
unfoldable pub split_fields : List ℕ → List Field
split_fields [] = [] ∷ []
split_fields (c ∷ cs) =
    if c == 0x2c || c == 0x2a then [] ∷ split_fields cs else push c (split_fields cs)

-- `one_message`, up to the carriage return, cut into its fields.
unfoldable pub sentence_of : Field → List ℕ → Sentence
unfolding split_fields first_token
sentence_of id message = record { id = id; body = split_fields (first_token 0x0d message) }
