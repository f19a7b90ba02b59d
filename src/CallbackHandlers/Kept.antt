-- ===== src/CallbackHandlers/Kept.antt =====
-- What the parts of `CallbackHandlers::handle` do to the message that is being handled.
use rosaic.Prelude.{
  ℕ, ◌≡◌, ap, Bool, true, false, Bool-cases, inl, inr, List, [], ◌∷◌, not, if◌then◌else◌,
}
use mathlib.Core.Path.{◌∙◌, sym}
use rosaic.RxMessage.Frames.{is_sbf-crc, message_id-IsBlock}
use rosaic.MessageKey.{
  Key, IsBlock, key_eq, text, block, nav_sat_fix_name, gps_fix_name, pose_name, gpst_name,
  diagnostic_array_name,
}
use rosaic.RxMessage.{RxMessage, is_sbf}
use rosaic.Read.{read}
use rosaic.Read.State as ReadState
use rosaic.Read.State.{Node, Env, Outcome, returned, thrown}
use rosaic.Read.Safety.{Kept, Kept-trans, Ends, Faulty, Kept-Faulty, read-Kept}
use rosaic.CallbackHandlers.State.{Settings, Handlers, Result, ok, failed, fault, ◌>>=◌}
use rosaic.CallbackHandlers.Handle.{
  is_one_of, call_each, callbacks, id_of, internal, handle_block, handle_navsatfix, handle_pose,
  handle_diagnostics, handle_gpst, handle_gpsfix, handle, handle_diagnostic_array, handle_gps_fix,
}

-- The message of `h` stands where that of `h₀` stood.
abbrev pub From : Handlers → Handlers → Type 0
From h₀ h = Kept h₀.node h.node

-- What holds of the state in which a handler ends that started at the message of `h₀`, and what a
-- fault implies.
unfoldable pub Gives : Handlers → Result → Type 0
Gives h₀ (ok h) = From h₀ h
Gives h₀ (failed h) = From h₀ h
Gives h₀ fault = Faulty h₀.node.rx

found-Kept : {a b : Node} → Kept a b → a.rx.found ≡ true → b.rx.found ≡ true
found-Kept k old = ap (λ (m : RxMessage). m.found) k.rx ∙ old

sbf-Kept : {a b : Node} → Kept a b → is_sbf a.rx ≡ true → is_sbf b.rx ≡ true
sbf-Kept {a} k sbf = ap is_sbf k.rx ∙ (is_sbf-crc a.rx k.crc ∙ sbf)

-- A part that keeps the message does so behind another part.
Gives->>= :
    (h₀ : Handlers) (r : Result) (f : Handlers → Result)
    → Gives h₀ r
    → ((h : Handlers) → From h₀ h → Gives h₀ (f h))
    → Gives h₀ (r >>= f)
unfolding Gives
Gives->>= h₀ (ok h) f k next = next h k
Gives->>= h₀ (failed h) f k next = k
Gives->>= h₀ fault f k next = k

Gives-if :
    (h₀ : Handlers) (x y : Result) (b : Bool)
    → Gives h₀ x
    → Gives h₀ y
    → Gives h₀ (if b then x else y)
Gives-if h₀ x y true p q = p
Gives-if h₀ x y false p q = q

module _ (env : Env) (h₀ : Handlers) (old : h₀.node.rx.found ≡ true) where
  go_on :
      (ks : List Key) (key : Key) (h : Handlers) (o : Outcome)
      → ((h' : Handlers) → From h₀ h' → Gives h₀ (call_each env ks key h'))
      → Ends (Kept h₀.node) (Faulty h₀.node.rx) o
      → Gives h₀ (elim o [
        | returned b node ↦
            (let after = call_each env ks key (record h { node = node }) in
              if b then after else failed (record h { node = node }))
        | thrown node ↦ failed (record h { node = node })
        | ReadState.fault ↦ fault
      ])
  unfolding Gives
  go_on ks key h (returned true node) rest k = rest (record h { node = node }) k
  go_on ks key h (returned false node) rest k = k
  go_on ks key h (thrown node) rest k = k
  go_on ks key h ReadState.fault rest k = k

  Ends-trans :
      (node : Node) (o : Outcome)
      → Kept h₀.node node
      → Ends (Kept node) (Faulty node.rx) o
      → Ends (Kept h₀.node) (Faulty h₀.node.rx) o
  Ends-trans node (returned b n) p q = Kept-trans p q
  Ends-trans node (thrown n) p q = Kept-trans p q
  Ends-trans node ReadState.fault p q = Kept-Faulty p q

  call_each-From :
      (ks : List Key) (key : Key) (h : Handlers)
      → (IsBlock key → is_sbf h₀.node.rx ≡ true)
      → From h₀ h
      → Gives h₀ (call_each env ks key h)
  unfolding call_each Gives
  call_each-From [] key h names k = k
  call_each-From (c ∷ ks) key h names k = elim (Bool-cases (key_eq c key)) [
    | inr e ↦ rw e (call_each-From ks key h names k)
    | inl e ↦ rw e (
        go_on ks key h (read env h.node key) (λ h'. call_each-From ks key h' names)
          (Ends-trans h.node (read env h.node key) k
            (read-Kept env h.node key (found-Kept k old) (λ b. sbf-Kept k (names b)))))
  ]

  named_by : (h : Handlers) → From h₀ h → IsBlock (id_of h) → is_sbf h₀.node.rx ≡ true
  named_by h k b =
      sym (ap is_sbf k.rx ∙ is_sbf-crc h₀.node.rx k.crc) ∙ message_id-IsBlock h.node.rx b

  -- The callbacks of the message, and those of a name.
  callbacks-From : (h : Handlers) → From h₀ h → Gives h₀ (callbacks env (id_of h) h)
  callbacks-From h k = call_each-From h.callbackmap (id_of h) h (named_by h k) k

  name-From : (t : List ℕ) (h : Handlers) → From h₀ h → Gives h₀ (callbacks env (text t) h)
  name-From t h k = call_each-From h.callbackmap (text t) h (λ b. absurd b) k

  -- A part of `handle` that runs the callbacks of a name and then clears its `do_` string.
  named-From :
      (t : List ℕ) (clear : Handlers → Handlers) (h : Handlers)
      → ((h' : Handlers) → From h₀ h' → From h₀ (clear h'))
      → From h₀ h
      → Gives h₀ (callbacks env (text t) h >>= λ h'. ok (clear h'))
  unfolding Gives
  named-From t clear h clears k =
      Gives->>= h₀ (callbacks env (text t) h) (λ h'. ok (clear h')) (name-From t h k) clears

  module _ (settings : Settings) where
    handle_block-From : (h : Handlers) → From h₀ h → Gives h₀ (handle_block env settings h)
    unfolding handle_block Gives
    handle_block-From h k =
        Gives-if h₀ _ _ (not (is_one_of (id_of h) internal)) (callbacks-From h k) k

    handle_navsatfix-From : (h : Handlers) → From h₀ h → Gives h₀ (handle_navsatfix env settings h)
    unfolding handle_navsatfix Gives
    handle_navsatfix-From h k =
        Gives-if h₀ _ _ settings.publish_navsatfix
          (Gives-if h₀ _ _ (key_eq (id_of h) h.do_navsatfix)
            (named-From nav_sat_fix_name (λ h'. record h' { do_navsatfix = text [] }) h
              (λ h' k'. k') k)
            k)
          k

    handle_pose-From : (h : Handlers) → From h₀ h → Gives h₀ (handle_pose env settings h)
    unfolding handle_pose Gives
    handle_pose-From h k =
        Gives-if h₀ _ _ settings.publish_pose
          (Gives-if h₀ _ _ (key_eq (id_of h) h.do_pose)
            (named-From pose_name (λ h'. record h' { do_pose = text [] }) h (λ h' k'. k') k) k)
          k

    handle_diagnostics-From :
        (h : Handlers) → From h₀ h → Gives h₀ (handle_diagnostics env settings h)
    unfolding handle_diagnostics Gives
    handle_diagnostics-From h k =
        Gives-if h₀ _ _ settings.publish_diagnostics
          (Gives->>= h₀
            (if is_one_of (id_of h) (4014 ∷ 4082 ∷ 5902 ∷ [])
              then callbacks env (id_of h) h
              else ok h)
            (handle_diagnostic_array env settings (id_of h))
            (Gives-if h₀ _ _ (is_one_of (id_of h) (4014 ∷ 4082 ∷ 5902 ∷ [])) (callbacks-From h k) k)
            (λ h₁ k₁.
              Gives-if h₀ _ _ (key_eq (id_of h) h₁.do_diagnostics)
                (named-From diagnostic_array_name (λ h'. record h' { do_diagnostics = text [] }) h₁
                  (λ h' k'. k') k₁)
                k₁))
          k

    handle_gpst-From : (h : Handlers) → From h₀ h → Gives h₀ (handle_gpst env settings h)
    unfolding handle_gpst Gives
    handle_gpst-From h k =
        Gives-if h₀ _ _ settings.publish_gpst
          (Gives-if h₀ _ _ (key_eq (id_of h) (block 4007)) (name-From gpst_name h k) k) k

    handle_gpsfix-From : (h : Handlers) → From h₀ h → Gives h₀ (handle_gpsfix env settings h)
    unfolding handle_gpsfix Gives
    handle_gpsfix-From h k =
        Gives-if h₀ _ _ settings.publish_gpsfix
          (Gives->>= h₀
            (if is_one_of (id_of h) (4013 ∷ 4027 ∷ 4001 ∷ 5908 ∷ [])
              then callbacks env (id_of h) h
              else ok h)
            (handle_gps_fix env settings (id_of h))
            (Gives-if h₀ _ _ (is_one_of (id_of h) (4013 ∷ 4027 ∷ 4001 ∷ 5908 ∷ []))
              (callbacks-From h k) k)
            (λ h₁ k₁.
              Gives-if h₀ _ _ (key_eq (id_of h) h₁.do_gpsfix)
                (named-From gps_fix_name (λ h'. record h' { do_gpsfix = text [] }) h₁ (λ h' k'. k')
                  k₁)
                k₁))
          k

    pub handle-From : (h : Handlers) → From h₀ h → Gives h₀ (handle env settings h)
    unfolding handle
    handle-From h k = Gives->>= h₀ (handle_block env settings h) _ (handle_block-From h k) (λ h₁ k₁.
        Gives->>= h₀ (handle_navsatfix env settings h₁) _ (handle_navsatfix-From h₁ k₁) (λ h₂ k₂.
          Gives->>= h₀ (handle_pose env settings h₂) _ (handle_pose-From h₂ k₂) (λ h₃ k₃.
            Gives->>= h₀ (handle_diagnostics env settings h₃) _ (handle_diagnostics-From h₃ k₃)
              (λ h₄ k₄.
                Gives->>= h₀ (handle_gpst env settings h₄) _ (handle_gpst-From h₄ k₄)
                  (handle_gpsfix-From)))))
