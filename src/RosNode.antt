-- ===== src/RosNode.antt =====
-- node/rosaic_node.cpp: `defineMessages`, which registers a handler for each message that is to be
-- published.
pub mod Registered
pub mod Text
pub mod Period
pub mod Configure
pub mod Connect
pub mod Params
mod Tests
use rosaic.Prelude.{ℕ, Bool, true, false, not, ◌&&◌, ◌||◌, if◌then◌else◌, List, [], ◌∷◌, ◌++◌}
use rosaic.MessageKey.{
  Key, block, text, nav_sat_fix_name, gps_fix_name, pose_name, gpst_name, diagnostic_array_name,
}
use rosaic.CallbackHandlers.State.{Settings}

-- The members `publish_...` of the node; `g_publish_...` are in the settings of the handlers.
pub record Publish : Type 0 where
  pub gpgga : Bool
  pub gprmc : Bool
  pub gpgsa : Bool
  pub gpgsv : Bool
  pub pvtcartesian : Bool
  pub pvtgeodetic : Bool
  pub poscovcartesian : Bool
  pub poscovgeodetic : Bool
  pub atteuler : Bool
  pub attcoveuler : Bool

-- Five letters behind a dollar sign.
abbrev pub sentence_key : ℕ → ℕ → ℕ → ℕ → ℕ → Key
sentence_key a b c d e = text (0x24 ∷ a ∷ b ∷ c ∷ d ∷ e ∷ [])

-- A test of `defineMessages` and the keys that are inserted where it holds, in order.
abbrev pub Group : Type 0
Group = Bool × List Key

-- `CallbackHandlers::insert` for the keys of a group.
unfoldable pub insert_if : Bool → List Key → List Key → List Key
insert_if test keys callbackmap = if test then callbackmap ++ keys else callbackmap

unfoldable pub insert_groups : List Group → List Key → List Key
insert_groups [] callbackmap = callbackmap
insert_groups ((test, keys) ∷ groups) callbackmap =
    insert_groups groups (insert_if test keys callbackmap)

abbrev pub groups : Publish → Settings → List Group
groups p s =
    (p.gpgga, sentence_key b'G' b'P' b'G' b'G' b'A' ∷ [])
    ∷ (p.gprmc, sentence_key b'G' b'P' b'R' b'M' b'C' ∷ [])
    ∷ (p.gpgsa, sentence_key b'G' b'P' b'G' b'S' b'A' ∷ [])
    ∷ (
      p.gpgsv,
      sentence_key b'G' b'P' b'G' b'S' b'V'
          ∷ sentence_key b'G' b'L' b'G' b'S' b'V'
          ∷ sentence_key b'G' b'A' b'G' b'S' b'V'
          ∷ sentence_key b'G' b'B' b'G' b'S' b'V'
          ∷ [],
    )
    ∷ (p.pvtcartesian, block 4006 ∷ [])
    ∷ (p.pvtgeodetic, block 4007 ∷ [])
    ∷ (p.poscovcartesian, block 5905 ∷ [])
    ∷ (p.poscovgeodetic, block 5906 ∷ [])
    ∷ (p.atteuler, block 5938 ∷ [])
    ∷ (p.attcoveuler, block 5939 ∷ [])
    ∷ (s.publish_gpst, text gpst_name ∷ [])
    ∷ (s.publish_navsatfix, text nav_sat_fix_name ∷ [])
    ∷ (s.publish_gpsfix, text gps_fix_name ∷ block 4013 ∷ block 4027 ∷ block 4001 ∷ block 5908 ∷ [])
    ∷ (s.publish_pose, text pose_name ∷ [])
    ∷ (
      s.publish_diagnostics,
      text diagnostic_array_name ∷ block 4014 ∷ block 4082 ∷ block 5902 ∷ [],
    )
    ∷ []

-- `defineMessages` on the map of the handlers.
unfoldable pub define_messages : Publish → Settings → List Key → List Key
define_messages p s callbackmap = insert_groups (groups p s) callbackmap

-- Whether `defineMessages` says, for each of the three messages, that a parameter is not set that
-- the message needs.
abbrev pub warns_navsatfix : Publish → Settings → Bool
warns_navsatfix p s = s.publish_navsatfix && (not p.pvtgeodetic || not p.poscovgeodetic)

abbrev pub warns_gpsfix : Publish → Settings → Bool
warns_gpsfix p s = s.publish_gpsfix && (not p.pvtgeodetic || not p.poscovgeodetic)

abbrev pub warns_pose : Publish → Settings → Bool
warns_pose p s =
    s.publish_pose
    && (not p.pvtgeodetic || not p.poscovgeodetic || not p.atteuler || not p.attcoveuler)
