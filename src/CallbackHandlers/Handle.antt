-- ===== src/CallbackHandlers/Handle.antt =====
-- `CallbackHandlers::handle`: which callbacks a message sets off, and in which order.
use rosaic.Prelude.{ℕ, Bool, false, not, ◌||◌, if◌then◌else◌, List, [], ◌∷◌}
use rosaic.MessageKey.{
  Key, block, text, key_eq, nav_sat_fix_name, gps_fix_name, pose_name, gpst_name,
  diagnostic_array_name,
}
use rosaic.RxMessage.{message_id}
use rosaic.Read.{read}
use rosaic.Read.State as ReadState
use rosaic.Read.State.{Node, Env, Outcome, returned, thrown}
use rosaic.CallbackHandlers.State.{Settings, Handlers, Result, ok, failed, fault, ◌>>=◌}

-- `ID_temp == "4013" || ...`
unfoldable pub is_one_of : Key → List ℕ → Bool
unfolding key_eq
is_one_of id [] = false
is_one_of id (n ∷ ns) = key_eq id (block n) || is_one_of id ns

-- The loop from `lower_bound(key)` to `upper_bound(key)`: `CallbackHandler::handle` for each entry
-- of that key, which reads the message under the key and throws where the read fails.
unfoldable pub call_each : Env → List Key → Key → Handlers → Result
call_each env [] key h = ok h
call_each env (k ∷ ks) key h =
    let rest = call_each env ks key h in
    let called : Result = elim (read env h.node key) [
      | returned b node ↦
          (let after = call_each env ks key (record h { node = node }) in
            if b then after else failed (record h { node = node }))
      | thrown node ↦ failed (record h { node = node })
      | ReadState.fault ↦ fault
    ] in
    if key_eq k key then called else rest

abbrev pub callbacks : Env → Key → Handlers → Result
callbacks env key h = call_each env h.callbackmap key h

abbrev pub id_of : Handlers → Key
id_of h = message_id h.node.rx

-- The blocks that are only kept for others.
abbrev pub internal : List ℕ
internal = 4013 ∷ 4027 ∷ 4001 ∷ 5908 ∷ 4014 ∷ 4082 ∷ 5902 ∷ []

module _ (env : Env) (settings : Settings) where
  unfoldable pub handle_block : Handlers → Result
  handle_block h = if not (is_one_of (id_of h) internal) then callbacks env (id_of h) h else ok h

  unfoldable pub handle_navsatfix : Handlers → Result
  handle_navsatfix h =
      if settings.publish_navsatfix
      then (if key_eq (id_of h) h.do_navsatfix
          then (callbacks env (text nav_sat_fix_name) h >>= λ h'.
              ok (record h' { do_navsatfix = text [] }))
          else ok h)
      else ok h

  unfoldable pub handle_pose : Handlers → Result
  handle_pose h =
      if settings.publish_pose
      then (if key_eq (id_of h) h.do_pose
          then (callbacks env (text pose_name) h >>= λ h'. ok (record h' { do_pose = text [] }))
          else ok h)
      else ok h

  unfoldable pub handle_diagnostic_array : Key → Handlers → Result
  handle_diagnostic_array id h =
      if key_eq id h.do_diagnostics
      then (callbacks env (text diagnostic_array_name) h >>= λ h'.
          ok (record h' { do_diagnostics = text [] }))
      else ok h

  unfoldable pub handle_diagnostics : Handlers → Result
  unfolding handle_diagnostic_array
  handle_diagnostics h =
      if settings.publish_diagnostics
      then ((if is_one_of (id_of h) (4014 ∷ 4082 ∷ 5902 ∷ [])
            then callbacks env (id_of h) h
            else ok h)
          >>= handle_diagnostic_array (id_of h))
      else ok h

  unfoldable pub handle_gpst : Handlers → Result
  handle_gpst h =
      if settings.publish_gpst
      then (if key_eq (id_of h) (block 4007) then callbacks env (text gpst_name) h else ok h)
      else ok h

  unfoldable pub handle_gps_fix : Key → Handlers → Result
  handle_gps_fix id h =
      if key_eq id h.do_gpsfix
      then (callbacks env (text gps_fix_name) h >>= λ h'. ok (record h' { do_gpsfix = text [] }))
      else ok h

  unfoldable pub handle_gpsfix : Handlers → Result
  unfolding handle_gps_fix
  handle_gpsfix h =
      if settings.publish_gpsfix
      then ((if is_one_of (id_of h) (4013 ∷ 4027 ∷ 4001 ∷ 5908 ∷ [])
            then callbacks env (id_of h) h
            else ok h)
          >>= handle_gps_fix (id_of h))
      else ok h

  -- `handle`: the six parts, until one of them throws.
  unfoldable pub handle : Handlers → Result
  unfolding handle_block handle_navsatfix handle_pose handle_diagnostics handle_gpst handle_gpsfix
  handle h = do
    h₁ ← handle_block h
    h₂ ← handle_navsatfix h₁
    h₃ ← handle_pose h₂
    h₄ ← handle_diagnostics h₃
    h₅ ← handle_gpst h₄
    handle_gpsfix h₅
