-- ===== src/CallbackHandlers/Triggers.antt =====
-- The part of `CallbackHandlers::readCallback` that chooses, when an SBF block comes in, whether it
-- completes a message that is made of several blocks.
use rosaic.Prelude.{ℕ, zero, suc, Bool, true, ◌&&◌, if◌then◌else◌, List, [], ◌∷◌}
use rosaic.MessageKey.{Key, block, key_eq}
use rosaic.Read.State.{Arrived}
use rosaic.CallbackHandlers.State.{Settings, Handlers}
use rosaic.CallbackHandlers.Handle.{is_one_of}

-- `vec.erase(vec.begin() + n)`
unfoldable pub erase_at : ℕ → List Bool → List Bool
erase_at n [] = []
erase_at zero (b ∷ bs) = bs
erase_at (suc n) (b ∷ bs) = b ∷ erase_at n bs

-- `std::all_of`
unfoldable pub all_true : List Bool → Bool
all_true [] = true
all_true (b ∷ bs) = b && all_true bs

-- `map[id]` for one of the four maps; a key that is missing gives 0.
unfoldable pub position : Key → List ℕ → ℕ → ℕ
unfolding key_eq
position id [] i = 0
position id (n ∷ ns) i = if key_eq id (block n) then i else position id ns (suc i)

-- Are all the other blocks there?
unfoldable pub others_arrived : Key → List ℕ → List Bool → Bool
unfolding erase_at all_true position
others_arrived id blocks flags = all_true (erase_at (position id blocks 0) flags)

abbrev pub gpsfix_blocks : List ℕ
gpsfix_blocks = 4013 ∷ 4027 ∷ 4001 ∷ 4007 ∷ 5906 ∷ 5908 ∷ 5938 ∷ 5939 ∷ []

abbrev pub gpsfix_vec : Arrived → List Bool
gpsfix_vec a =
    a.channelstatus_gpsfix ∷ a.measepoch_gpsfix ∷ a.dop_gpsfix ∷ a.pvtgeodetic_gpsfix
    ∷ a.poscovgeodetic_gpsfix ∷ a.velcovgeodetic_gpsfix ∷ a.atteuler_gpsfix ∷ a.attcoveuler_gpsfix
    ∷ []

abbrev pub navsatfix_blocks : List ℕ
navsatfix_blocks = 4007 ∷ 5906 ∷ []

abbrev pub navsatfix_vec : Arrived → List Bool
navsatfix_vec a = a.pvtgeodetic_navsatfix ∷ a.poscovgeodetic_navsatfix ∷ []

abbrev pub pose_blocks : List ℕ
pose_blocks = 4007 ∷ 5906 ∷ 5938 ∷ 5939 ∷ []

abbrev pub pose_vec : Arrived → List Bool
pose_vec a = a.pvtgeodetic_pose ∷ a.poscovgeodetic_pose ∷ a.atteuler_pose ∷ a.attcoveuler_pose ∷ []

abbrev pub diagnostics_blocks : List ℕ
diagnostics_blocks = 4014 ∷ 4082 ∷ []

abbrev pub diagnostics_vec : Arrived → List Bool
diagnostics_vec a = a.receiverstatus_diagnostics ∷ a.qualityind_diagnostics ∷ []

-- The new value of a `do_` string.
unfoldable pub choose : Bool → Key → List ℕ → List Bool → Key → Key
unfolding others_arrived is_one_of
choose publish id blocks flags old =
    if publish && is_one_of id blocks
    then (if others_arrived id blocks flags then id else old)
    else old

-- The four choices, in the order of the source.
unfoldable pub choose_triggers : Settings → Key → Handlers → Handlers
unfolding choose
choose_triggers settings id h =
    let a = h.node.arrived in
    record h {
      do_gpsfix = choose settings.publish_gpsfix id gpsfix_blocks (gpsfix_vec a) h.do_gpsfix;
      do_navsatfix =
          choose settings.publish_navsatfix id navsatfix_blocks (navsatfix_vec a) h.do_navsatfix;
      do_pose = choose settings.publish_pose id pose_blocks (pose_vec a) h.do_pose;
      do_diagnostics =
          choose settings.publish_diagnostics id diagnostics_blocks (diagnostics_vec a)
            h.do_diagnostics;
    }
