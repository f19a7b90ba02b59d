-- ===== src/RxMessage/Scan.antt =====
-- Where `search` stops.
use rosaic.Prelude.{
  ℕ, zero, suc, ◌+◌, ◌-◌, ◌≤◌, ◌<◌, ◌≡◌, ◌⊎◌, inl, inr, refl, arith, ◌^◌, Bool, true, false, some,
  Bool-cases, ap,
}
use mathlib.Core.Path.{ap₂, ◌∙◌}
use rosaic.RxMessage.{
  is_sbf, is_nmea, is_response, is_connection_descriptor, RxMessage, Descriptors, at_header, scan,
  search, stop_reading,
}
use rosaic.RxMessage.Frames.{IsWhole, next_advances, jump_of}

-- The same message, `k` bytes further on.
abbrev pub moved : RxMessage → ℕ → RxMessage
moved m k = record m { pos = m.pos + k; count = m.count - k }

-- `m'` stands at the first header from `m` on, or at the end of the buffer.
pub record FirstHeader (m : RxMessage) (g : Descriptors) (m' : RxMessage) : Type 0 where
  pub skipped : ℕ
  pub inside : skipped ≤ m.count
  pub position : m'.pos ≡ m.pos + skipped
  pub rest : m'.count ≡ m.count - skipped
  pub same : (m'.bytes ≡ m.bytes) × (m'.crc_check ≡ m.crc_check)
  pub no_header : (k : ℕ) → k < skipped → at_header (moved m k) g ≡ false
  pub stops : (m'.count ≡ 0) ⊎ (at_header m' g ≡ true)

at_header_cong :
    (m : RxMessage) (g : Descriptors) {p p' c c' : ℕ}
    → p ≡ p'
    → c ≡ c'
    → at_header (record m { pos = p; count = c }) g
      ≡ at_header (record m { pos = p'; count = c' }) g
at_header_cong m g p c = ap₂ (λ x y. at_header (record m { pos = x; count = y }) g) p c

FirstHeader-suc :
    (left : ℕ) (m : RxMessage) (g : Descriptors) {m' : RxMessage}
    → m.count ≡ suc left
    → at_header m g ≡ false
    → FirstHeader (record m { pos = m.pos + 1; count = left }) g m'
    → FirstHeader m g m'
FirstHeader-suc left m g e none_here r = record {
  skipped = suc r.skipped;
  inside = omega (arith, r.inside);
  position = omega (arith, r.position);
  rest = omega (arith, r.rest);
  same = r.same;
  no_header = before;
  stops = r.stops;
}
  where
    before : (k : ℕ) → k < suc r.skipped → at_header (moved m k) g ≡ false
    before zero h = at_header_cong m g (omega arith) (omega arith) ∙ none_here
    before (suc k) h = at_header_cong m g (omega arith) (omega arith) ∙ r.no_header k (omega arith)

scan-FirstHeader :
    (left : ℕ) (m : RxMessage) (g : Descriptors) → m.count ≡ left → FirstHeader m g (scan left m g)
unfolding scan
scan-FirstHeader zero m g e = record {
  skipped = 0;
  inside = omega arith;
  position = omega arith;
  rest = omega arith;
  same = (refl, refl);
  no_header = λ k h. absurd (omega arith);
  stops = inl e;
}
scan-FirstHeader (suc left) m g e = elim (Bool-cases (at_header m g)) [
  | inl header ↦ rw header (record {
    skipped = 0;
    inside = omega arith;
    position = omega arith;
    rest = omega arith;
    same = (refl, refl);
    no_header = λ k h. absurd (omega arith);
    stops = inr header;
  })
  | inr none_here ↦ rw none_here (
      FirstHeader-suc left m g e none_here
        (scan-FirstHeader left (record m { pos = m.pos + 1; count = left }) g refl))
]

-- The state that `search` leaves behind when it starts to scan at `m`.
abbrev pub stopped : RxMessage → Descriptors → RxMessage
stopped m g = record (scan m.count m g) { found = true }

at_header-found :
    (m : RxMessage) (g : Descriptors) (b : Bool)
    → at_header (record m { found = b }) g ≡ at_header m g
unfolding at_header is_sbf is_nmea is_response is_connection_descriptor
at_header-found m g b = refl

FirstHeader-found :
    {m m' : RxMessage} {g : Descriptors}
    → FirstHeader m g m'
    → FirstHeader m g (record m' { found = true })
FirstHeader-found {m} {m'} {g} r = record {
  skipped = r.skipped;
  inside = r.inside;
  position = r.position;
  rest = r.rest;
  same = r.same;
  no_header = r.no_header;
  stops = rw (at_header-found m' g true) r.stops;
}

-- A search in a new message stops at the first header of the buffer, or at its end if it has none.
pub search-FirstHeader :
    (m : RxMessage) (g : Descriptors)
    → m.found ≡ false
    → (search m g ≡ some (stopped m g, g)) × FirstHeader m g (stopped m g)
unfolding search
search-FirstHeader m g fresh =
    (rw fresh refl, FirstHeader-found (scan-FirstHeader m.count m g refl))

-- The message behind a header, as far as `next` goes.
abbrev pub after : RxMessage → RxMessage
after m = record m { found = false; pos = m.pos + jump_of m; count = m.count - jump_of m }

-- A search from a message that was found, and whose block has arrived whole, in a buffer of fewer
-- than 2^64 bytes, goes on behind it: to the first header from there on, at least one byte further,
-- and never past the end.
pub search-after :
    (m : RxMessage) (g : Descriptors)
    → m.found ≡ true
    → at_header m g ≡ true
    → IsWhole m
    → m.count < 2 ^ 64
    → (search m g ≡ some (stopped (after m) (stop_reading m g), stop_reading m g))
      × FirstHeader (after m) (stop_reading m g) (stopped (after m) (stop_reading m g))
      × ((stopped (after m) (stop_reading m g)).count < m.count)
unfolding search
search-after m g old header whole small =
    let step = next_advances m g header whole small in
    let first =
      FirstHeader-found (scan-FirstHeader (after m).count (after m) (stop_reading m g) refl) in
    (simp (old, step.2), first, omega (arith, step.0, step.1, first.inside, first.rest))

scan-header :
    (left : ℕ) (m : RxMessage) (g : Descriptors)
    → m.count ≡ left
    → at_header m g ≡ true
    → scan left m g ≡ m
unfolding scan
scan-header zero m g e header = refl
scan-header (suc left) m g e header = rw header refl

-- A search in a new message that begins with a header stays there.
pub search-here :
    (m : RxMessage) (g : Descriptors)
    → m.found ≡ false
    → at_header m g ≡ true
    → search m g ≡ some (record m { found = true }, g)
search-here m g fresh header =
    (search-FirstHeader m g fresh).0
    ∙ ap (λ (k : RxMessage). some (record k { found = true }, g))
        (scan-header m.count m g refl header)
