-- ===== src/CallbackHandlers/Tests.antt =====
-- The walk over a buffer with one block, and what that block sets off.
use rosaic.Prelude.{
  ℕ, ◌≡◌, refl, arith, ap, Bool, List, [], ◌∷◌, true, false, zero, suc, ◌++◌, length,
}
use rosaic.MessageKey.{block, text, key_eq, list_eq, nav_sat_fix_name}
use rosaic.RxMessage.Tests.{good_block, good_message-id}
use rosaic.Read.State.{nav_sat_fix, Event, published}
use rosaic.Read.Tests.{node_at, env, good_block-sbf, good_block-valid}
use rosaic.CallbackHandlers.State.{Settings, Handlers, ok}
use rosaic.CallbackHandlers.Handle.{handle_navsatfix, id_of}
use rosaic.CallbackHandlers.Triggers.{choose_triggers}
use rosaic.CallbackHandlers.Once.{entries, handle_navsatfix_publishes}

abbrev pub settings : Settings
settings = record {
  publish_navsatfix = true;
  publish_pose = false;
  publish_diagnostics = false;
  publish_gpst = false;
  publish_gpsfix = false;
}

-- The handlers as they start, at a good PVTGeodetic block.
abbrev pub handlers : Handlers
handlers = record {
  node = node_at good_block;
  callbackmap = block 4007 ∷ text nav_sat_fix_name ∷ [];
  do_gpsfix = block 4007;
  do_navsatfix = block 4007;
  do_pose = block 4007;
  do_diagnostics = block 4014;
  response_received = false;
  cd_received = false;
  rx_tcp_port = [];
}

-- All blocks of a GPSFix but the last and PVTGeodetic itself.
abbrev flags : List Bool
flags = true ∷ true ∷ true ∷ false ∷ true ∷ true ∷ true ∷ false ∷ []

unfoldable pub zeros : ℕ → List ℕ
zeros zero = []
zeros (suc n) = 0 ∷ zeros n

pub length-zeros : (n : ℕ) → length (zeros n) ≡ n
unfolding zeros
length-zeros zero = omega arith
length-zeros (suc n) = omega (arith, length-zeros n)

-- The good block, and zeros behind it.
abbrev padded : ℕ → List ℕ
padded n = good_block ++ zeros n

named : key_eq (id_of handlers) handlers.do_navsatfix ≡ true
unfolding key_eq
named = ap (λ key. key_eq key (block 4007)) good_message-id

once : entries (text nav_sat_fix_name) handlers.callbackmap ≡ 1
unfolding entries key_eq list_eq
once = refl

handle_navsatfix_publishes_example :
    (h' : Handlers) × (handle_navsatfix env settings handlers ≡ ok h')
    × ((rest : List Event) × (h'.node.events
          ≡ published nav_sat_fix (record { sec = 1600000000; nsec = 5 }) ∷ rest))
    × ((n : ℕ) → key_eq (block n) (choose_triggers settings (block n) h').do_navsatfix ≡ false)
handle_navsatfix_publishes_example =
    handle_navsatfix_publishes env settings handlers refl refl good_block-sbf good_block-valid named
      once
