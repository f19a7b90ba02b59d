-- ===== src/RosNode/Configure/Outputs.antt =====
-- Which messages `configureRx` asks the receiver for, against the handlers that `defineMessages` sets up,
-- and on which streams.
use rosaic.Prelude.{
  ℕ, suc, ◌+◌, ◌≡◌, sym, ap, ◌∙◌, arith, Bool, true, false, not, ◌&&◌, if◌then◌else◌, List, [], ◌∷◌,
  ◌++◌, length, append_assoc, length-append,
}
use rosaic.RosNode.Text.{Text, codes}
use rosaic.RosNode.Configure.{
  Config, Request, output, other, Script, done, send, await_response, await_cd, OutputGroup,
  output_groups, request_all, request_groups, corrections, offsets_on, logged_in, opening,
  configure_rx,
}

abbrev pub Output : Type 0
Output = ℕ × Request

-- The outputs that a script asks for, in order, with their streams; `port` is what the connection
-- descriptor gives.
unfoldable pub outputs : Text → Script → List Output
outputs port done = []
outputs port (send (output stream p r end) later) = (stream, r) ∷ outputs port later
outputs port (send (other t) later) = outputs port later
outputs port (await_response later) = outputs port later
outputs port (await_cd later) = outputs port (later port)

-- The requests of the groups whose test holds.
unfoldable pub active : List OutputGroup → List Request
active [] = []
active ((test, rs) ∷ groups) = if test then rs ++ active groups else active groups

-- Requests on the streams from `stream` on.
unfoldable pub numbered : ℕ → List Request → List Output
numbered stream [] = []
numbered stream (r ∷ rs) = (stream, r) ∷ numbered (stream + 1) rs

module _ (port : Text) (later : ℕ → Script) where
  outputs_moved : (m n : ℕ) → m ≡ n → outputs port (later m) ≡ outputs port (later n)
  outputs_moved m n e = ap (λ t. outputs port (later t)) e

  outputs-request_all :
      (p : Text) (rs : List Request) (stream : ℕ)
      → outputs port (request_all p rs stream later)
        ≡ numbered stream rs ++ outputs port (later (stream + length rs))
  unfolding outputs request_all numbered
  outputs-request_all p [] stream = outputs_moved stream (stream + 0) (omega arith)
  outputs-request_all p (r ∷ rs) stream =
      ap (λ t. (stream, r) ∷ t)
        (outputs-request_all p rs (stream + 1)
          ∙ ap (λ t. numbered (stream + 1) rs ++ t)
              (outputs_moved (stream + 1 + length rs) (stream + suc (length rs)) (omega arith)))

numbered-append :
    (stream : ℕ) (rs qs : List Request)
    → numbered stream (rs ++ qs) ≡ numbered stream rs ++ numbered (stream + length rs) qs
unfolding numbered
numbered-append stream [] qs =
    let e : stream ≡ stream + 0 = omega arith in ap (λ t. numbered t qs) e
numbered-append stream (r ∷ rs) qs =
    let e : stream + 1 + length rs ≡ stream + suc (length rs) = omega arith in
    ap (λ t. (stream, r) ∷ t)
      (numbered-append (stream + 1) rs qs ∙ ap (λ t. numbered (stream + 1) rs ++ numbered t qs) e)

-- `rest` is what the requests leave the stream at.
outputs-request_groups :
    (port p : Text) (groups : List OutputGroup) (stream : ℕ) (later : ℕ → Script)
    → outputs port (request_groups p groups stream later)
      ≡ numbered stream (active groups) ++ outputs port (later (stream + length (active groups)))
unfolding request_groups active numbered
outputs-request_groups port p [] stream later =
    outputs_moved port later stream (stream + 0) (omega arith)
outputs-request_groups port p ((false, rs) ∷ groups) stream later =
    outputs-request_groups port p groups stream later
outputs-request_groups port p ((true, rs) ∷ groups) stream later =
    let next = λ (n : ℕ). request_groups p groups n later in
    let behind = stream + length rs in
    let qs = active groups in
    let all : behind + length qs ≡ stream + length (rs ++ qs) =
      omega (arith, length-append rs qs) in
    outputs-request_all port next p rs stream
    ∙ ap (λ t. numbered stream rs ++ t)
        (outputs-request_groups port p groups behind later
          ∙ ap (λ t. numbered behind qs ++ t) (outputs_moved port later _ _ all))
    ∙ sym (append_assoc (numbered stream rs) (numbered behind qs) _)
    ∙ ap (λ t. t ++ outputs port (later (stream + length (rs ++ qs))))
        (sym (numbered-append stream rs qs))

-- The sentence with the position that is sent to a caster by way of the driver.
abbrev pub relayed : Config → List Request
relayed c =
    if not c.rx_has_internet && c.tcp
    then record { is_nmea = true; name = codes "GGA"; is_pvt = true } ∷ []
    else []

outputs-offsets_on :
    (port : Text) (c : Config) (stream : ℕ)
    → outputs port (offsets_on c stream) ≡ numbered stream (relayed c)
unfolding outputs corrections numbered
outputs-offsets_on port c stream = ground arith

outputs-logged_in :
    (port p : Text) (c : Config)
    → outputs port (logged_in c p)
      ≡ numbered 1 (active (output_groups c.publish c.settings) ++ relayed c)
unfolding outputs logged_in
outputs-logged_in port p c =
    let rs = active (output_groups c.publish c.settings) in
    outputs-request_groups port p (output_groups c.publish c.settings) 1 (offsets_on c)
    ∙ ap (λ t. numbered 1 rs ++ t) (outputs-offsets_on port c (1 + length rs))
    ∙ sym (numbered-append 1 rs (relayed c))

outputs-opening :
    (port p : Text) (later : Text → Script) (all : List Output) (tcp : Bool)
    → ((q : Text) → outputs port (later q) ≡ all)
    → outputs port (opening tcp later p) ≡ all
unfolding outputs
outputs-opening port p later all true e = e port
outputs-opening port p later all false e = e p

-- Whatever is published and however the receiver is connected, `configureRx` asks for the messages whose
-- tests hold, then for the position that is relayed to a caster, on streams counted from 1.
pub outputs-numbered :
    (c : Config) (port : Text)
    → outputs port (configure_rx c)
      ≡ numbered 1 (active (output_groups c.publish c.settings) ++ relayed c)
unfolding configure_rx
outputs-numbered c port =
    outputs-opening port c.rx_serial_port (logged_in c) _ c.tcp (λ p. outputs-logged_in port p c)
