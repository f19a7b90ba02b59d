-- ===== src/CallbackHandlers/Once.antt =====
-- The NavSatFix message: when `handle` publishes it, and what must arrive before the next one.
use rosaic.Prelude.{
  ℕ, suc, ◌≡◌, inl, inr, refl, arith, true, false, if◌then◌else◌, Bool-cases, List, [], ◌∷◌, some,
}
use mathlib.Core.Path.{◌∙◌}
use rosaic.MessageKey.{Key, block, text, key_eq, list_eq, nav_sat_fix_name}
use rosaic.Crc.{is_valid}
use rosaic.RxMessage.{is_sbf}
use rosaic.Read.{read}
use rosaic.Read.State.{nav_sat_fix, Event, published, Node, Env, returned}
use rosaic.Read.Keys.{rx_id}
use rosaic.Read.Branches.{branch, read_nav_sat_fix}
use rosaic.Read.Safety.{memory}
use rosaic.Read.Checks.{checked, read_checks}
use rosaic.CallbackHandlers.State.{Settings, Handlers, ok}
use rosaic.Read.Blocks.{publish, tow_at}
use rosaic.CallbackHandlers.Triggers.{
  choose_triggers, others_arrived, navsatfix_blocks, navsatfix_vec,
}
use rosaic.CallbackHandlers.Completion.{choose_fires}
use rosaic.CallbackHandlers.Handle.{is_one_of, call_each, handle_navsatfix, id_of}

-- How many callbacks are registered under a key.
unfoldable pub entries : Key → List Key → ℕ
entries key [] = 0
entries key (k ∷ ks) = if key_eq k key then suc (entries key ks) else entries key ks

call_each-none :
    (env : Env) (ks : List Key) (key : Key) (h : Handlers)
    → entries key ks ≡ 0
    → call_each env ks key h ≡ ok h
unfolding entries call_each
call_each-none env [] key h e = refl
call_each-none env (k ∷ ks) key h e = elim (Bool-cases (key_eq k key)) [
  | inl hit ↦ absurd (ground arith)
  | inr miss ↦ rw miss (call_each-none env ks key h (ground arith))
]

-- One callback reads the message once, and the handlers are as before but for the node.
call_each-once :
    (env : Env) (ks : List Key) (key : Key) (h : Handlers) (node : Node)
    → entries key ks ≡ 1
    → read env h.node key ≡ returned true node
    → call_each env ks key h ≡ ok (record h { node = node })
unfolding entries call_each
call_each-once env [] key h node e r = absurd (omega (arith, e))
call_each-once env (k ∷ ks) key h node e r = elim (Bool-cases (key_eq k key)) [
  | inl hit ↦ rw (hit, r) (call_each-none env ks key (record h { node = node }) (ground arith))
  | inr miss ↦ rw miss (call_each-once env ks key h node (ground arith) r)
]

handle_navsatfix_reads :
    (env : Env) (settings : Settings) (h : Handlers)
    → settings.publish_navsatfix ≡ true
    → h.node.rx.found ≡ true
    → is_sbf h.node.rx ≡ true
    → is_valid (memory h.node.rx) ≡ some true
    → key_eq (id_of h) h.do_navsatfix ≡ true
    → entries (text nav_sat_fix_name) h.callbackmap ≡ 1
    → handle_navsatfix env settings h
      ≡ ok (record h { node = read_nav_sat_fix env (checked h.node true); do_navsatfix = text [] })
unfolding handle_navsatfix branch rx_id key_eq list_eq
handle_navsatfix_reads env settings h on old sbf good named once =
    let r = (read_checks env h.node (text nav_sat_fix_name) old sbf).0 good in
    let call = call_each-once env h.callbackmap (text nav_sat_fix_name) h _ once r in
    simp (on, named, call)

-- With both flags down and no block named, no block completes a NavSatFix.
unnamed :
    (settings : Settings) (h : Handlers) (n : ℕ)
    → h.node.arrived.pvtgeodetic_navsatfix ≡ false
    → h.node.arrived.poscovgeodetic_navsatfix ≡ false
    → h.do_navsatfix ≡ text []
    → key_eq (block n) (choose_triggers settings (block n) h).do_navsatfix ≡ false
unfolding choose_triggers is_one_of others_arrived key_eq
unnamed settings h n p q e =
    choose_fires settings.publish_navsatfix n navsatfix_blocks (navsatfix_vec h.node.arrived)
      h.do_navsatfix
    ∙ ground (arith, p, q, e)

-- A good SBF block that `do_navsatfix_` names makes the NavSatFix part of `handle` publish a
-- NavSatFix with the stamp of the block as its last act, if the message is asked for and one
-- callback is registered for it. In the state behind it no block completes another NavSatFix:
-- `readCallback` would not name the next block, whichever it is.
pub handle_navsatfix_publishes :
    (env : Env) (settings : Settings) (h : Handlers)
    → settings.publish_navsatfix ≡ true
    → h.node.rx.found ≡ true
    → is_sbf h.node.rx ≡ true
    → is_valid (memory h.node.rx) ≡ some true
    → key_eq (id_of h) h.do_navsatfix ≡ true
    → entries (text nav_sat_fix_name) h.callbackmap ≡ 1
    → (h' : Handlers) × (handle_navsatfix env settings h ≡ ok h')
      × ((rest : List Event) × (h'.node.events
            ≡ published nav_sat_fix (env.timestamp_sbf (tow_at h.node.rx) env.use_gnss_time)
              ∷ rest))
      × ((n : ℕ) → key_eq (block n) (choose_triggers settings (block n) h').do_navsatfix ≡ false)
unfolding read_nav_sat_fix publish
handle_navsatfix_publishes env settings h on old sbf good named once =
    let node = read_nav_sat_fix env (checked h.node true) in
    let h' = record h { node = node; do_navsatfix = text [] } in
    (
      h',
      handle_navsatfix_reads env settings h on old sbf good named once,
      (_, refl),
      λ n. unnamed settings h' n (ground arith) (ground arith) refl,
    )

-- The first block after the start: `do_navsatfix_` names PVTGeodetic (4007) from the start, so that
-- `readCallback` leaves it named at the first PVTGeodetic, although no PosCovGeodetic has arrived.
pub first_block_named :
    (settings : Settings) (h : Handlers)
    → h.do_navsatfix ≡ block 4007
    → h.node.arrived.poscovgeodetic_navsatfix ≡ false
    → (others_arrived (block 4007) navsatfix_blocks (navsatfix_vec h.node.arrived) ≡ false)
      × (key_eq (block 4007) (choose_triggers settings (block 4007) h).do_navsatfix ≡ true)
unfolding choose_triggers others_arrived key_eq
first_block_named settings h e none_yet = (
  ground (arith, none_yet),
  choose_fires settings.publish_navsatfix 4007 navsatfix_blocks (navsatfix_vec h.node.arrived)
        h.do_navsatfix
      ∙ ground (arith, e),
)
