-- ===== src/CallbackHandlers/Progress.antt =====
-- The progress of the loop of `CallbackHandlers::readCallback` in one iteration.
use rosaic.Prelude.{
  ℕ, suc, ◌+◌, ◌^◌, ◌<◌, ◌≤◌, ◌≡◌, ◌⊎◌, inl, inr, refl, ap, arith, true, false, Bool-cases,
  if◌then◌else◌, ltb, ◌==◌, List,
}
use mathlib.Core.Path.{◌∙◌}
use rosaic.RxMessage.{
  found as has_header, RxMessage, Descriptors, at_header, is_sbf, get_block_length, is_response,
  is_connection_descriptor, stop_reading, message_id,
}
use rosaic.RxMessage.Frames.{
  IsWhole, header-count, jump_of_bounds, found-again, at_header-crc, crc-IsWhole,
}
use rosaic.RxMessage.Scan.{stopped, after, search-FirstHeader, search-after}
use rosaic.Read.State.{Node, Env}
use rosaic.Read.Safety.{Kept, Kept-refl, Uncheckable, ShortDate, ShortMemory}
use rosaic.CallbackHandlers.State.{Settings, Handlers, Result, ok, failed, fault}
use rosaic.CallbackHandlers.Handle.{handle}
use rosaic.CallbackHandlers.Kept.{Gives, handle-From}
use rosaic.CallbackHandlers.Triggers.{choose_triggers}
use rosaic.CallbackHandlers.{
  Walk, running, finished, threw, undefined, aborted, got_descriptor, handle_message, body, iterate,
}

-- A message of the buffer that `search` has found.
pub record Standing (buffer : List ℕ) (size : ℕ) (m : RxMessage) (g : Descriptors) : Type 0 where
  pub same : m.bytes ≡ buffer
  pub total : m.pos + m.count ≡ size
  pub old : m.found ≡ true
  pub header : at_header m g ≡ true
  pub whole : IsWhole m

-- The state of the loop: a new message, or one that was handled.
abbrev pub Ready : List ℕ → ℕ → Handlers → Type 0
Ready buffer size h =
    ((h.node.rx.found ≡ false)
      × (h.node.rx.bytes ≡ buffer)
      × (h.node.rx.pos + h.node.rx.count ≡ size))
    ⊎ Standing buffer size h.node.rx h.node.descriptors

-- The bytes that are left, and one more for a new message.
unfoldable pub rank : RxMessage → ℕ
rank m = if m.found then m.count else suc m.count

-- A message of the buffer that stops `readCallback`: an SBF block, with the length that it names inside
-- the buffer, that cannot be checked inside the memory; or a message with a date of one to three
-- characters in the place of that of an RMC sentence; or a good block with less memory from its
-- start on than the largest copy reads.
pub record Aborts (buffer : List ℕ) (size : ℕ) : Type 0 where
  pub at : RxMessage
  pub same : at.bytes ≡ buffer
  pub total : at.pos + at.count ≡ size
  pub reason : ((get_block_length at ≤ at.count) × Uncheckable at) ⊎ (ShortDate at ⊎ ShortMemory at)

-- How an iteration that stopped at a message with `left` bytes ends.
unfoldable pub Steps : List ℕ → ℕ → ℕ → Walk → Type 0
Steps buffer size left (running h) =
    Standing buffer size h.node.rx h.node.descriptors × (h.node.rx.count ≡ left)
Steps buffer size left (finished h) = h.node.rx.pos ≡ size
Steps buffer size left (threw at h) = at < size
Steps buffer size left undefined = ⊥
Steps buffer size left aborted = Aborts buffer size

Standing-Kept :
    {buffer : List ℕ} {size : ℕ} {a b : Node}
    → Standing buffer size a.rx a.descriptors
    → Kept a b
    → Standing buffer size b.rx b.descriptors
Standing-Kept {buffer} {size} {a} {b} s k = record {
  same = ap (λ (m : RxMessage). m.bytes) k.rx ∙ s.same;
  total = ap (λ (m : RxMessage). m.pos + m.count) k.rx ∙ s.total;
  old = ap (λ (m : RxMessage). m.found) k.rx ∙ s.old;
  header =
      rw (k.rx, k.descriptors)
        (at_header-crc a.rx a.descriptors k.crc a.descriptors.cd_count ∙ s.header);
  whole = rw k.rx (crc-IsWhole a.rx k.crc s.whole);
}

module _ (env : Env) (settings : Settings) (buffer : List ℕ) (size : ℕ) where
  handled :
      (h : Handlers) (r : Result)
      → Standing buffer size h.node.rx h.node.descriptors
      → Gives h r
      → Steps buffer size h.node.rx.count
          (elim r [ ok h' ↦ running h' | failed h' ↦ threw h'.node.rx.pos h' | fault ↦ aborted ])
  unfolding Steps Gives
  handled h (ok h') s k = (Standing-Kept s k, ap (λ (m : RxMessage). m.count) k.rx)
  handled h (failed h') s k =
      let s' = Standing-Kept s k in
      omega (arith, s'.total, header-count h'.node.rx h'.node.descriptors s'.header)
  handled h fault s (inl u) = record {
    at = h.node.rx;
    same = s.same;
    total = s.total;
    reason = inl (s.whole u.sbf, u);
  }
  handled h fault s (inr d) = record {
    at = h.node.rx;
    same = s.same;
    total = s.total;
    reason = inr d;
  }

  handle_message-Steps :
      (h : Handlers)
      → Standing buffer size h.node.rx h.node.descriptors
      → Steps buffer size h.node.rx.count (handle_message env settings h)
  unfolding handle_message
  handle_message-Steps h s =
      handled h (handle env settings h) s (handle-From env h s.old settings h (Kept-refl h.node))

  -- The body at a message that `search` has just found, whose length is not known yet.
  body-Steps :
      (h : Handlers)
      → h.node.rx.bytes ≡ buffer
      → h.node.rx.pos + h.node.rx.count ≡ size
      → h.node.rx.found ≡ true
      → at_header h.node.rx h.node.descriptors ≡ true
      → Steps buffer size h.node.rx.count (body env settings h)
  unfolding body choose_triggers Steps got_descriptor
  body-Steps h same total old header = elim (Bool-cases (is_sbf h.node.rx)) [
    | inl sbf ↦ elim (Bool-cases (ltb h.node.rx.count (get_block_length h.node.rx))) [
      | inl short ↦
          rw (sbf, short) (omega (arith, header-count h.node.rx h.node.descriptors header))
      | inr enough ↦
          rw (sbf, enough)
            (handle_message-Steps (choose_triggers settings (message_id h.node.rx) h) (record {
              same = same;
              total = total;
              old = old;
              header = header;
              whole = λ _. ground arith;
            }))
    ]
    | inr other ↦
        (let s : Standing buffer size h.node.rx h.node.descriptors = record {
          same = same;
          total = total;
          old = old;
          header = header;
          whole = λ sbf. ground arith;
        } in
          elim (Bool-cases (is_response h.node.rx)) [
            | inl response ↦ rw (other, response) (s, refl)
            | inr r ↦ elim (Bool-cases (is_connection_descriptor h.node.rx)) [
              | inl cd ↦
                  rw (other, r, cd)
                    (
                      record {
                        same = same;
                        total = total;
                        old = old;
                        header =
                            at_header-crc h.node.rx h.node.descriptors h.node.rx.crc_check _
                            ∙ header;
                        whole = s.whole;
                      },
                      refl,
                    )
              | inr none_of ↦ rw (other, r, none_of) (handle_message-Steps h s)
            ]
          ])
  ]

  -- Behind `search`: the end of the buffer, or the body at a message.
  landed-Steps :
      (h : Handlers)
      → h.node.rx.bytes ≡ buffer
      → h.node.rx.pos + h.node.rx.count ≡ size
      → h.node.rx.found ≡ true
      → (h.node.rx.count ≡ 0) ⊎ (at_header h.node.rx h.node.descriptors ≡ true)
      → Steps buffer size h.node.rx.count (
          if h.node.rx.count == 0
          then finished h
          else if (has_header h.node.rx h.node.descriptors).0
          then body env settings h
          else finished h)
  unfolding Steps
  landed-Steps h same total old (inl empty) = rw empty (omega arith)
  landed-Steps h same total old (inr header) =
      let two = header-count h.node.rx h.node.descriptors header in
      let some_left : (h.node.rx.count == 0) ≡ false = ground arith in
      rw (some_left, found-again h.node.rx h.node.descriptors old)
        (body-Steps h same total old header)

  -- An iteration ends the loop in a defined way, or leaves a message that was found and fewer bytes.
  pub iterate-Steps :
      (h : Handlers)
      → size < 2 ^ 64
      → Ready buffer size h
      → (left : ℕ) × (left < rank h.node.rx) × Steps buffer size left (iterate env settings h)
  unfolding iterate rank
  iterate-Steps h small (inl (fresh, same, total)) =
      let (e, first) = search-FirstHeader h.node.rx h.node.descriptors fresh in
      let rx' = stopped h.node.rx h.node.descriptors in
      let h' = record h { node = record h.node { rx = rx' } } in
      (
        rx'.count,
        ground (arith, first.rest),
        rw (iterate, e)
            (landed-Steps h' (first.same.0 ∙ same)
              (omega (arith, first.position, first.rest, first.inside, total)) refl first.stops),
      )
  iterate-Steps h small (inr s) =
      let step =
        search-after h.node.rx h.node.descriptors s.old s.header s.whole (omega (arith, s.total)) in
      let g' = stop_reading h.node.rx h.node.descriptors in
      let rx' = stopped (after h.node.rx) g' in
      let h' = record h { node = record h.node { rx = rx'; descriptors = g' } } in
      let first = step.1 in
      let bounds =
        jump_of_bounds h.node.rx (header-count h.node.rx h.node.descriptors s.header) s.whole in
      (
        rx'.count,
        ground (arith, s.old, step.2),
        rw (iterate, step.0)
            (landed-Steps h' (first.same.0 ∙ s.same)
              (omega (arith, bounds.1, first.position, first.rest, first.inside, s.total)) refl
              first.stops),
      )
