-- ===== src/CallbackHandlers/CutOff.antt =====
-- `readCallback` at an SBF block of which only a part was handed over.
use rosaic.Prelude.{ℕ, suc, ◌+◌, ◌≤◌, ◌<◌, ◌≡◌, refl, arith, true, false, List, get_or, ltb, ◌==◌}
use rosaic.RxMessage.{RxMessage, construct, is_sbf, get_block_length}
use rosaic.RxMessage.Frames.{bytes-sbf, sbf-at_header, sbf-bytes, found-again}
use rosaic.RxMessage.Scan.{search-here}
use rosaic.Read.State.{Env}
use rosaic.CallbackHandlers.State.{Settings, Handlers}
use rosaic.CallbackHandlers.{threw, read_callback, walk, iterate, body}
use rosaic.CallbackHandlers.Ends.{named_length}

-- An SBF header at the start of a memory, that names more than `size` bytes.
pub record IsCutOff (buffer : List ℕ) (size : ℕ) : Type 0 where
  pub first : get_or buffer 0 0 ≡ 0x24
  pub second : get_or buffer 1 0 ≡ 0x40
  pub long : size < named_length buffer 0

-- The state of the handlers in which `readCallback` throws.
abbrev pub stopped_at_start : List ℕ → ℕ → Handlers → Handlers
stopped_at_start buffer size h = record h {
  node = record h.node { rx = record (construct buffer size) { found = true } };
}

module _ (env : Env) (settings : Settings) (buffer : List ℕ) (size : ℕ) (h : Handlers)
    (two : 2 ≤ size) (cut : IsCutOff buffer size) where
  abbrev here : RxMessage
  here = record (construct buffer size) { found = true }

  here-sbf : is_sbf here ≡ true
  unfolding construct
  here-sbf = bytes-sbf here two cut.first cut.second

  fresh-sbf : is_sbf (construct buffer size) ≡ true
  unfolding construct
  fresh-sbf = bytes-sbf (construct buffer size) two cut.first cut.second

  here-short : ltb size (get_block_length here) ≡ true
  unfolding construct
  here-short = ground (arith, cut.long, sbf-bytes here here-sbf)

  iterate-cut :
      iterate env settings (record h { node = record h.node { rx = construct buffer size } })
      ≡ threw 0 (stopped_at_start buffer size h)
  unfolding iterate body construct
  iterate-cut =
      let g = h.node.descriptors in
      let e =
        search-here (construct buffer size) g refl
          (sbf-at_header (construct buffer size) g fresh-sbf) in
      let some_left : (size == 0) ≡ false = ground arith in
      rw (iterate, e)
        (rw (some_left, found-again here g refl) (rw (body, here-sbf, here-short) refl))

  -- `readCallback` throws the position 0, and has changed nothing but the message that it reads.
  pub read_callback-cut :
      read_callback env settings buffer size h ≡ threw 0 (stopped_at_start buffer size h)
  unfolding read_callback walk
  read_callback-cut =
      let e : size + 2 ≡ suc (size + 1) = omega arith in
      rw (read_callback, e) (rw (walk, iterate-cut) refl)
