-- ===== src/RosNode/Registered.antt =====
-- Which blocks have a handler, against those that the messages made of several blocks wait for.
use rosaic.Prelude.{
  ℕ, ◌≡◌, refl, ◌∙◌, arith, Bool, true, false, not, ◌&&◌, ◌||◌, List, [], ◌∷◌, ◌++◌,
}
use rosaic.MessageKey.{Key, block, key_eq}
use rosaic.CallbackHandlers.State.{Settings}
use rosaic.CallbackHandlers.Triggers.{
  gpsfix_blocks, navsatfix_blocks, pose_blocks, diagnostics_blocks,
}
use rosaic.RosNode.{
  Publish, Group, insert_if, insert_groups, groups, define_messages, warns_navsatfix, warns_gpsfix,
  warns_pose,
}

-- A handler is registered for a key.
unfoldable pub has_handler : Key → List Key → Bool
has_handler key [] = false
has_handler key (k ∷ ks) = key_eq k key || has_handler key ks

abbrev pub all_handled : List ℕ → List Key → Bool
all_handled [] callbackmap = true
all_handled (n ∷ ns) callbackmap = has_handler (block n) callbackmap && all_handled ns callbackmap

has_handler-append :
    (key : Key) (xs ys : List Key)
    → has_handler key (xs ++ ys) ≡ (has_handler key xs || has_handler key ys)
unfolding has_handler
has_handler-append key [] ys = refl
has_handler-append key (x ∷ xs) ys = ground (arith, has_handler-append key xs ys)

has_handler-insert_if :
    (key : Key) (test : Bool) (keys callbackmap : List Key)
    → has_handler key (insert_if test keys callbackmap)
      ≡ (has_handler key callbackmap || (test && has_handler key keys))
unfolding insert_if
has_handler-insert_if key true keys m = has_handler-append key m keys
has_handler-insert_if key false keys m = ground arith

-- A group that is inserted has the key.
abbrev in_groups : Key → List Group → Bool
in_groups key [] = false
in_groups key ((test, keys) ∷ groups) = has_handler key keys && test || in_groups key groups

has_handler-insert_groups :
    (key : Key) (groups : List Group) (callbackmap : List Key)
    → has_handler key (insert_groups groups callbackmap)
      ≡ (has_handler key callbackmap || in_groups key groups)
unfolding insert_groups
has_handler-insert_groups key [] m = ground arith
has_handler-insert_groups key ((test, keys) ∷ groups) m = ground (
  arith,
  has_handler-insert_groups key groups (insert_if test keys m),
  has_handler-insert_if key test keys m,
)

or_false : (b : Bool) → (b || false) ≡ b
or_false true = refl
or_false false = refl

module _ (p : Publish) (s : Settings) where
  abbrev callbackmap : List Key
  callbackmap = define_messages p s []

  handled : (key : Key) → has_handler key callbackmap ≡ in_groups key (groups p s)
  unfolding define_messages has_handler
  handled key = has_handler-insert_groups key (groups p s) []

  handled-4007 : has_handler (block 4007) callbackmap ≡ p.pvtgeodetic
  unfolding has_handler key_eq
  handled-4007 = handled (block 4007) ∙ or_false p.pvtgeodetic

  handled-5906 : has_handler (block 5906) callbackmap ≡ p.poscovgeodetic
  unfolding has_handler key_eq
  handled-5906 = handled (block 5906) ∙ or_false p.poscovgeodetic

  handled-5938 : has_handler (block 5938) callbackmap ≡ p.atteuler
  unfolding has_handler key_eq
  handled-5938 = handled (block 5938) ∙ or_false p.atteuler

  handled-5939 : has_handler (block 5939) callbackmap ≡ p.attcoveuler
  unfolding has_handler key_eq
  handled-5939 = handled (block 5939) ∙ or_false p.attcoveuler

  handled-4013 : has_handler (block 4013) callbackmap ≡ s.publish_gpsfix
  unfolding has_handler key_eq
  handled-4013 = handled (block 4013) ∙ or_false s.publish_gpsfix

  handled-4027 : has_handler (block 4027) callbackmap ≡ s.publish_gpsfix
  unfolding has_handler key_eq
  handled-4027 = handled (block 4027) ∙ or_false s.publish_gpsfix

  handled-4001 : has_handler (block 4001) callbackmap ≡ s.publish_gpsfix
  unfolding has_handler key_eq
  handled-4001 = handled (block 4001) ∙ or_false s.publish_gpsfix

  handled-5908 : has_handler (block 5908) callbackmap ≡ s.publish_gpsfix
  unfolding has_handler key_eq
  handled-5908 = handled (block 5908) ∙ or_false s.publish_gpsfix

  handled-4014 : has_handler (block 4014) callbackmap ≡ s.publish_diagnostics
  unfolding has_handler key_eq
  handled-4014 = handled (block 4014) ∙ or_false s.publish_diagnostics

  handled-4082 : has_handler (block 4082) callbackmap ≡ s.publish_diagnostics
  unfolding has_handler key_eq
  handled-4082 = handled (block 4082) ∙ or_false s.publish_diagnostics

-- With a NavSatFix or a pose to publish, `defineMessages` reports an error exactly if some block that
-- the message is made of has no handler; with the diagnostics to publish, all their blocks have one.
pub warned_exactly :
    (p : Publish) (s : Settings)
    → let callbackmap = define_messages p s [] in
      (s.publish_navsatfix ≡ true
        → warns_navsatfix p s ≡ not (all_handled navsatfix_blocks callbackmap))
      × (s.publish_pose ≡ true → warns_pose p s ≡ not (all_handled pose_blocks callbackmap))
      × (s.publish_diagnostics ≡ true → all_handled diagnostics_blocks callbackmap ≡ true)
warned_exactly p s =
    let a = handled-4007 p s in
    let b = handled-5906 p s in
    let c = handled-5938 p s in
    let d = handled-5939 p s in
    let e = handled-4014 p s in
    let f = handled-4082 p s in (λ h. ground arith, λ h. ground arith, λ h. ground arith)

-- With a GPSFix to publish, and the blocks PVTGeodetic and PosCovGeodetic, but not both AttEuler and
-- AttCovEuler, some block that the GPSFix is made of has no handler, and `defineMessages` does not
-- report it.
pub gpsfix_unwarned :
    (p : Publish) (s : Settings)
    → s.publish_gpsfix ≡ true
    → p.pvtgeodetic ≡ true
    → p.poscovgeodetic ≡ true
    → (p.atteuler && p.attcoveuler) ≡ false
    → (all_handled gpsfix_blocks (define_messages p s []) ≡ false) × (warns_gpsfix p s ≡ false)
gpsfix_unwarned p s publish a b missing =
    let c = handled-5938 p s in let d = handled-5939 p s in (ground arith, ground arith)
