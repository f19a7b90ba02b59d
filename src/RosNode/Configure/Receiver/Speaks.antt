-- ===== src/RosNode/Configure/Receiver/Speaks.antt =====
-- Each command of `configureRx` is followed by the wait for its answer, but for the last.
use rosaic.Prelude.{
  ℕ, ◌+◌, ◌≡◌, refl, Bool, true, false, Bool-cases, inl, inr, if◌then◌else◌, List, [], ◌∷◌,
}
use rosaic.MessageKey.{list_eq}
use rosaic.RosNode.Text.{Text, codes}
use rosaic.RosNode.Configure.{
  Config, Request, Command, Script, done, send, await_response, OutputGroup, output_groups,
  request_all, request_groups, from_caster, by_tcp, by_serial, corrections, offsets_on, logged_in,
}
use rosaic.RosNode.Configure.Receiver.{is_escape}

-- A script that speaks next: each command is answered before the next one, but for the last.
pub data Speaks : Script → Type 0 where
  silent : Speaks done
  last : (command : Command) → is_escape command ≡ false → Speaks (send command done)
  says :
      (command : Command) {later : Script}
      → is_escape command ≡ false
      → Speaks later
      → Speaks (send command (await_response later))

request_all-Speaks :
    (port : Text) (rs : List Request) (stream : ℕ) (later : ℕ → Script)
    → ((n : ℕ) → Speaks (later n))
    → Speaks (request_all port rs stream later)
unfolding request_all
request_all-Speaks port [] stream later speaks = speaks stream
request_all-Speaks port (r ∷ rs) stream later speaks =
    says _ refl (request_all-Speaks port rs (stream + 1) later speaks)

request_groups-Speaks :
    (port : Text) (groups : List OutputGroup) (stream : ℕ) (later : ℕ → Script)
    → ((n : ℕ) → Speaks (later n))
    → Speaks (request_groups port groups stream later)
unfolding request_groups
request_groups-Speaks port [] stream later speaks = speaks stream
request_groups-Speaks port ((true, rs) ∷ groups) stream later speaks =
    request_all-Speaks port rs stream _ (λ n. request_groups-Speaks port groups n later speaks)
request_groups-Speaks port ((false, rs) ∷ groups) stream later speaks =
    request_groups-Speaks port groups stream later speaks

if-Speaks : (test : Bool) (a b : Script) → Speaks a → Speaks b → Speaks (if test then a else b)
if-Speaks true a b x y = x
if-Speaks false a b x y = y

from_caster-Speaks : (c : Config) → Speaks (from_caster c)
from_caster-Speaks c = elim (Bool-cases (list_eq c.mode (codes "off"))) [
  | inl e ↦ simp e silent
  | inr e ↦ elim (Bool-cases (list_eq c.mode (codes "Client"))) [
    | inl e' ↦ simp (e, e') (says _ refl silent)
    | inr e' ↦ elim (Bool-cases (list_eq c.mode (codes "Client-Sapcorda"))) [
      | inl e'' ↦ simp (e, e', e'') (says _ refl silent)
      | inr e'' ↦ simp (e, e', e'') silent
    ]
  ]
]

corrections-Speaks : (c : Config) (stream : ℕ) → Speaks (corrections c stream)
unfolding corrections
corrections-Speaks c stream = if-Speaks c.rx_has_internet (from_caster c) _ (from_caster-Speaks c) (
    if-Speaks c.tcp (by_tcp c stream) (by_serial c) (says _ refl (says _ refl (last _ refl)))
      (last _ refl))

pub logged_in-Speaks : (c : Config) (port : Text) → Speaks (logged_in c port)
unfolding logged_in
logged_in-Speaks c port = says _ refl (
    says _ refl (
      says _ refl (
        says _ refl (
          request_groups-Speaks port (output_groups c.publish c.settings) 1 (offsets_on c)
            (λ n. says _ refl (says _ refl (corrections-Speaks c n)))))))
