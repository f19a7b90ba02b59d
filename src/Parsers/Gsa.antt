-- ===== src/Parsers/Gsa.antt =====
-- parsers/nmea_parsers/gpgsa.cpp: `GpgsaParser::parseASCII`.
pub mod Satellites
use rosaic.Prelude.{
  ℕ, zero, suc, ◌+◌, Bool, true, false, not, if◌then◌else◌, ◌==◌, Option, none, some, List, [], ◌∷◌,
  length, take, drop,
}
use rosaic.Nmea.{Field}
use rosaic.Parsers.{
  ℤ, Conversion, is_empty, parse_uint8, parse_float, Parsed, parsed, refused, ◌>>=◌, field,
}

-- The dilutions of precision are `none` where the parser leaves them as they were constructed.
pub record Gpgsa (F : Type 0) : Type 0 where
  pub message_id : Field
  pub auto_manual_mode : Field
  pub fix_mode : ℕ
  pub sv_ids : List ℕ
  pub pdop : Option F
  pub hdop : Option F
  pub vdop : Option F

-- `sv_ids.resize(12, 0)`
abbrev pub no_ids : List ℕ
no_ids = 0 ∷ 0 ∷ 0 ∷ 0 ∷ 0 ∷ 0 ∷ 0 ∷ 0 ∷ 0 ∷ 0 ∷ 0 ∷ 0 ∷ []

-- `sv_ids[i] = v`
unfoldable pub set_at : ℕ → ℕ → List ℕ → List ℕ
set_at i v [] = []
set_at zero v (x ∷ xs) = v ∷ xs
set_at (suc i) v (x ∷ xs) = x ∷ set_at i v xs

-- The `std::string` at which `parseFloat` reports failure, or which is empty, changes nothing.
abbrev pub kept : {F : Type 0} → Option (Option F) → Option F
kept none = none
kept (some v) = v

-- The loop over the identifiers that are left, and the last `resize`.
unfoldable pub id_loop : (Field → Conversion ℤ) → List Field → List ℕ → ℕ → List ℕ
id_loop strtol [] ids n_svs = take n_svs ids
id_loop strtol (id ∷ fields) ids n_svs =
    let skipped = id_loop strtol fields ids n_svs in
    let stored = id_loop strtol fields (set_at n_svs (parse_uint8 strtol id).1 ids) (n_svs + 1) in
    if not (is_empty id) then stored else skipped

module _ {F : Type 0} (strtol : Field → Conversion ℤ) (strtof : Field → Conversion F) where
  -- `parseASCII`
  unfoldable pub parse_ascii : List Field → Parsed (Gpgsa F)
  parse_ascii body = if not (length body == 19) then refused else (do
    id ← field body 0
    mode ← field body 1
    fix ← field body 2
    pdop ← field body 15
    hdop ← field body 16
    vdop ← field body 17
    parsed (record {
      message_id = id;
      auto_manual_mode = mode;
      fix_mode = (parse_uint8 strtol fix).1;
      sv_ids = id_loop strtol (take 12 (drop 3 body)) no_ids 0;
      pdop = kept (parse_float strtof pdop);
      hdop = kept (parse_float strtof hdop);
      vdop = kept (parse_float strtof vdop);
    }))
