-- ===== src/RosNode/Configure/Handled.antt =====
-- The messages that `configureRx` asks for, against the handlers that `defineMessages` sets up.
use rosaic.Prelude.{
  ◌≡◌, refl, sym, ap, ◌∙◌, arith, Bool, true, false, if◌then◌else◌, ◌==◌, List, [], ◌∷◌, ◌++◌,
  append-nil, append_assoc,
}
use rosaic.MessageKey.{Key, block, text, list_eq}
use rosaic.CallbackHandlers.State.{Settings}
use rosaic.RosNode.{Group, Publish, sentence_key, insert_if, insert_groups, groups, define_messages}
use rosaic.RosNode.Text.{Text, codes}
use rosaic.RosNode.Configure.{Request, OutputGroup, output_groups}
use rosaic.RosNode.Configure.Outputs.{active}

-- The blocks and sentences that the receiver sends under a name.
abbrev pub names : List (Text × List Key)
names =
    (codes "GGA", sentence_key b'G' b'P' b'G' b'G' b'A' ∷ [])
    ∷ (codes "RMC", sentence_key b'G' b'P' b'R' b'M' b'C' ∷ [])
    ∷ (codes "GSA", sentence_key b'G' b'P' b'G' b'S' b'A' ∷ [])
    ∷ (
      codes "GSV",
      sentence_key b'G' b'P' b'G' b'S' b'V'
          ∷ sentence_key b'G' b'L' b'G' b'S' b'V'
          ∷ sentence_key b'G' b'A' b'G' b'S' b'V'
          ∷ sentence_key b'G' b'B' b'G' b'S' b'V'
          ∷ [],
    )
    ∷ (codes "PVTCartesian", block 4006 ∷ [])
    ∷ (codes "PVTGeodetic", block 4007 ∷ [])
    ∷ (codes "PosCovCartesian", block 5905 ∷ [])
    ∷ (codes "PosCovGeodetic", block 5906 ∷ [])
    ∷ (codes "AttEuler", block 5938 ∷ [])
    ∷ (codes "AttCovEuler", block 5939 ∷ [])
    ∷ (codes "ChannelStatus", block 4013 ∷ [])
    ∷ (codes "MeasEpoch", block 4027 ∷ [])
    ∷ (codes "DOP", block 4001 ∷ [])
    ∷ (codes "VelCovGeodetic", block 5908 ∷ [])
    ∷ (codes "ReceiverStatus", block 4014 ∷ [])
    ∷ (codes "QualityInd", block 4082 ∷ [])
    ∷ (codes "ReceiverSetup", block 5902 ∷ [])
    ∷ []

unfoldable pub keys_named : Text → List (Text × List Key) → List Key
keys_named name [] = []
keys_named name ((n, keys) ∷ rest) =
    let further = keys_named name rest in if list_eq n name then keys else further

-- The keys of requests, in order.
unfoldable pub requested_keys : List Request → List Key
requested_keys [] = []
requested_keys (r ∷ rs) = keys_named r.name names ++ requested_keys rs

-- The keys of blocks and sentences among others; those of messages made of several blocks are names.
unfoldable pub received_keys : List Key → List Key
received_keys [] = []
received_keys (block n ∷ keys) = block n ∷ received_keys keys
received_keys (text [] ∷ keys) = received_keys keys
received_keys (text (c ∷ cs) ∷ keys) =
    let rest = received_keys keys in if c == b'$' then text (c ∷ cs) ∷ rest else rest

received_keys-append :
    (xs ys : List Key) → received_keys (xs ++ ys) ≡ received_keys xs ++ received_keys ys
unfolding received_keys
received_keys-append [] ys = refl
received_keys-append (block n ∷ xs) ys = ap (λ t. block n ∷ t) (received_keys-append xs ys)
received_keys-append (text [] ∷ xs) ys = received_keys-append xs ys
received_keys-append (text (c ∷ cs) ∷ xs) ys = ground (arith, received_keys-append xs ys)

requested_keys-append :
    (rs qs : List Request) → requested_keys (rs ++ qs) ≡ requested_keys rs ++ requested_keys qs
unfolding requested_keys
requested_keys-append [] qs = refl
requested_keys-append (r ∷ rs) qs =
    ap (λ t. keys_named r.name names ++ t) (requested_keys-append rs qs)
    ∙ sym (append_assoc (keys_named r.name names) (requested_keys rs) (requested_keys qs))

-- Both sides group by group.
abbrev if_keys : Bool → List Key → List Key → List Key
if_keys test keys rest = if test then keys ++ rest else rest

inserted : List Group → List Key
inserted [] = []
inserted ((test, keys) ∷ groups) = if_keys test (received_keys keys) (inserted groups)

asked : List OutputGroup → List Key
asked [] = []
asked ((test, rs) ∷ groups) = if_keys test (requested_keys rs) (asked groups)

requested_keys-active : (groups : List OutputGroup) → requested_keys (active groups) ≡ asked groups
unfolding active asked requested_keys
requested_keys-active [] = refl
requested_keys-active ((true, rs) ∷ groups) =
    requested_keys-append rs (active groups)
    ∙ ap (λ t. requested_keys rs ++ t) (requested_keys-active groups)
requested_keys-active ((false, rs) ∷ groups) = requested_keys-active groups

received_keys-insert_groups :
    (groups : List Group) (m : List Key)
    → received_keys (insert_groups groups m) ≡ received_keys m ++ inserted groups
unfolding insert_groups insert_if inserted
received_keys-insert_groups [] m = sym (append-nil (received_keys m))
received_keys-insert_groups ((true, keys) ∷ groups) m =
    received_keys-insert_groups groups (m ++ keys)
    ∙ ap (λ t. t ++ inserted groups) (received_keys-append m keys)
    ∙ append_assoc (received_keys m) (received_keys keys) (inserted groups)
received_keys-insert_groups ((false, keys) ∷ groups) m = received_keys-insert_groups groups m

if_same : (test : Bool) (keys : List Key) → (if test then keys else keys) ≡ keys
if_same true keys = refl
if_same false keys = refl

inserted-asked : (p : Publish) (s : Settings) → inserted (groups p s) ≡ asked (output_groups p s)
unfolding inserted asked received_keys requested_keys keys_named list_eq
inserted-asked p s = simp if_same refl

-- Whatever is published, the blocks and sentences that have a handler are, in the same order, those
-- that the receiver is asked for.
pub requested_handled :
    (p : Publish) (s : Settings)
    → received_keys (define_messages p s []) ≡ requested_keys (active (output_groups p s))
unfolding define_messages received_keys
requested_handled p s =
    received_keys-insert_groups (groups p s) []
    ∙ inserted-asked p s
    ∙ sym (requested_keys-active (output_groups p s))
