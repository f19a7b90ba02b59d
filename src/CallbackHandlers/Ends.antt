-- ===== src/CallbackHandlers/Ends.antt =====
-- The end of the loop of `CallbackHandlers::readCallback`.
use rosaic.Prelude.{
  ℕ, zero, suc, ◌+◌, ◌^◌, ◌<◌, ◌≤◌, ◌≡◌, ◌⊎◌, inl, inr, refl, arith, List, get_or, ◌*◌,
}
use rosaic.RxMessage.{RxMessage, construct}
use rosaic.Read.State.{Env}
use rosaic.CallbackHandlers.State.{Settings, Handlers}
use rosaic.CallbackHandlers.{
  Walk, running, finished, threw, undefined, aborted, iterate, walk, read_callback,
}
use rosaic.CallbackHandlers.Progress.{Ready, rank, Aborts, Steps, iterate-Steps}
use rosaic.Read.Safety.{ShortDate}

module _ (env : Env) (settings : Settings) (buffer : List ℕ) (size : ℕ) where
  -- How the whole loop ends: at the end of the buffer, or by a throw at a position inside it.
  unfoldable pub Ended : Walk → Type 0
  Ended (running h) = ⊥
  Ended (finished h) = h.node.rx.pos ≡ size
  Ended (threw at h) = at < size
  Ended undefined = ⊥
  Ended aborted = Aborts buffer size

  -- The rest of the loop behind an iteration.
  walk_on :
      (fuel left : ℕ) (w : Walk)
      → left < fuel
      → Steps buffer size left w
      → ((h : Handlers)
          → Ready buffer size h
          → rank h.node.rx < fuel
          → Ended (walk env settings fuel h))
      → Ended (elim w [
        | running h' ↦ walk env settings fuel h'
        | finished h' ↦ finished h'
        | threw at h' ↦ threw at h'
        | undefined ↦ undefined
        | aborted ↦ aborted
      ])
  unfolding Steps Ended rank
  walk_on fuel left (running h') less (s, e) rest =
      let enough : rank h'.node.rx < fuel = ground (arith, s.old, e) in rest h' (inr s) enough
  walk_on fuel left (finished h') less s rest = s
  walk_on fuel left (threw at h') less s rest = s
  walk_on fuel left undefined less s rest = s
  walk_on fuel left aborted less s rest = s

  walk-Ended :
      (fuel : ℕ) (h : Handlers)
      → size < 2 ^ 64
      → Ready buffer size h
      → rank h.node.rx < fuel
      → Ended (walk env settings fuel h)
  unfolding walk
  walk-Ended zero h small ready enough = absurd (omega (arith, enough))
  walk-Ended (suc fuel) h small ready enough =
      let (left, less, s) = iterate-Steps env settings buffer size h small ready in
      walk_on fuel left (iterate env settings h) (omega (arith, less, enough)) s
        (λ h' ready' enough'. walk-Ended fuel h' small ready' enough')

  read_callback-Ended :
      (h : Handlers) → size < 2 ^ 64 → Ended (read_callback env settings buffer size h)
  unfolding read_callback construct rank
  read_callback-Ended h small =
      let h' = record h { node = record h.node { rx = construct buffer size } } in
      walk-Ended (size + 2) h' small (inl (refl, refl, omega arith)) (omega arith)

  -- The three ways in which a walk over `size` bytes may end.
  Ended-cases :
      (w : Walk)
      → Ended w
      → ((h' : Handlers) × (w ≡ finished h') × (h'.node.rx.pos ≡ size))
        ⊎ (((at : ℕ) × (h' : Handlers) × (w ≡ threw at h') × (at < size))
            ⊎ ((w ≡ aborted) × Aborts buffer size))
  unfolding Ended
  Ended-cases (running _) e = absurd e
  Ended-cases undefined e = absurd e
  Ended-cases (finished h') e = inl (h', refl, e)
  Ended-cases (threw at h') e = inr (inl (at, h', refl, e))
  Ended-cases aborted e = inr (inr (refl, e))

-- The cases without a word on the bytes that are read behind the last one.
pub read_callback-cases :
    (env : Env) (settings : Settings) (buffer : List ℕ) (size : ℕ) (h : Handlers)
    → size < 2 ^ 64
    → ((h' : Handlers) × (read_callback env settings buffer size h ≡ finished h')
        × (h'.node.rx.pos ≡ size))
      ⊎ (((at : ℕ) × (h' : Handlers) × (read_callback env settings buffer size h ≡ threw at h')
            × (at < size))
          ⊎ ((read_callback env settings buffer size h ≡ aborted) × Aborts buffer size))
read_callback-cases env settings buffer size h small =
    Ended-cases env settings buffer size (read_callback env settings buffer size h)
      (read_callback-Ended env settings buffer size h small)

-- The length that an SBF header at a position names.
abbrev pub named_length : List ℕ → ℕ → ℕ
named_length buffer p = get_or buffer (p + 6) 0 + 2 ^ 8 * get_or buffer (p + 7) 0

-- Every SBF header of the buffer names a length that the format allows, at least that of the header.
abbrev pub AllLong : List ℕ → Type 0
AllLong buffer =
    (p : ℕ)
    → get_or buffer p 0 ≡ 0x24
    → get_or buffer (p + 1) 0 ≡ 0x40
    → (8 ≤ named_length buffer p) × (named_length buffer p < 2 ^ 16)

-- No message of the buffer is cut into a sentence with a date of one to three characters.
abbrev pub NoShortDate : List ℕ → Type 0
NoShortDate buffer = (m : RxMessage) → m.bytes ≡ buffer → ShortDate m → ⊥
