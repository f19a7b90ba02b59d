-- ===== src/Read/Checks.antt =====
-- The check sum and the message key in `RxMessage::read`.
use rosaic.Prelude.{
  ◌≡◌, refl, sym, arith, Bool, true, false, Option, none, some, List, [], ◌∷◌, ◌||◌,
}
use mathlib.Core.Path.{◌∙◌, subst}
use rosaic.MessageKey.{Key, key_eq}
use rosaic.Crc.{is_valid}
use rosaic.RxMessage.{is_sbf}
use rosaic.Read.{read, read_found}
use rosaic.Read.State.{RxId, nav_sat_fix, Node, Env, returned, thrown, fault}
use rosaic.Read.Keys.{rx_id, rx_id_pairs, lookup_id}
use rosaic.Read.Branches.{branch, read_nav_sat_fix}
use rosaic.Read.Safety.{FaultOf, memory, Ends, Untouched, read-again, branch-Untouched}

abbrev pub checked : Node → Bool → Node
checked node valid = record node { rx = record node.rx { crc_check = valid } }

-- What `read` does with an SBF block is decided by its check sum, whatever key it is read under: a
-- good block goes to the branch of the key with `crc_check_` set, a bad one is thrown away without
-- any other change, and a block that cannot be read to its end is a fault.
pub read_checks :
    (env : Env) (node : Node) (key : Key)
    → node.rx.found ≡ true
    → is_sbf node.rx ≡ true
    → (is_valid (memory node.rx) ≡ some true
        → read env node key ≡ branch env (rx_id key) (checked node true))
      × (is_valid (memory node.rx) ≡ some false → read env node key ≡ thrown (checked node false))
      × (is_valid (memory node.rx) ≡ none → read env node key ≡ fault)
unfolding read_found
read_checks env node key old sbf =
    let first = read-again env node key old in
    (
      λ good. first ∙ simp (sbf, good),
      λ bad. first ∙ simp (sbf, bad),
      λ short. first ∙ simp (sbf, short),
    )

-- An SBF block that was found, and for which `read` returns, has the check sum that its header names;
-- afterwards `crc_check_` is set, and the message is otherwise as before.
pub read_returns_valid :
    (env : Env) (node node' : Node) (key : Key) (b : Bool)
    → node.rx.found ≡ true
    → is_sbf node.rx ≡ true
    → read env node key ≡ returned b node'
    → (is_valid (memory node.rx) ≡ some true) × (node'.rx ≡ record node.rx { crc_check = true })
read_returns_valid env node node' key b old sbf e =
    let (good, bad, short) = read_checks env node key old sbf in
    go (is_valid (memory node.rx)) refl good bad short
  where
    go :
        (v : Option Bool)
        → v ≡ is_valid (memory node.rx)
        → (is_valid (memory node.rx) ≡ some true
            → read env node key ≡ branch env (rx_id key) (checked node true))
        → (is_valid (memory node.rx) ≡ some false → read env node key ≡ thrown (checked node false))
        → (is_valid (memory node.rx) ≡ none → read env node key ≡ fault)
        → (is_valid (memory node.rx) ≡ some true) × (node'.rx ≡ record node.rx { crc_check = true })
    go (some true) v good bad short =
        let ran : branch env (rx_id key) (checked node true) ≡ returned b node' =
          sym (good (sym v)) ∙ e in
        (
          sym v,
          (subst
              (λ o.
                Ends (Untouched (checked node true)) (FaultOf (rx_id key) (checked node true)) o)
              ran (branch-Untouched env (rx_id key) (checked node true))).0,
        )
    go (some false) v good bad short = absurd (cc (e, bad (sym v)))
    go none v good bad short = absurd (cc (e, short (sym v)))

-- Does the table list the key?
unfoldable pub is_listed : Key → List (Key × RxId) → Bool
is_listed key [] = false
is_listed key ((k, id) ∷ pairs) = key_eq k key || is_listed key pairs

lookup_id-unlisted :
    (key : Key) (pairs : List (Key × RxId))
    → is_listed key pairs ≡ false
    → lookup_id key pairs ≡ nav_sat_fix
unfolding is_listed lookup_id
lookup_id-unlisted key [] h = refl
lookup_id-unlisted key ((k, id) ∷ pairs) h =
    let here : key_eq k key ≡ false = ground arith in
    let there : is_listed key pairs ≡ false = ground arith in
    rw here (lookup_id-unlisted key pairs there)

-- A key that is not in `rx_id_map` does not make `read` fail: any message that is not an SBF block
-- is then taken for a NavSatFix, which is published, and the flags of its two blocks are cleared.
pub read_unlisted :
    (env : Env) (node : Node) (key : Key)
    → node.rx.found ≡ true
    → is_sbf node.rx ≡ false
    → is_listed key rx_id_pairs ≡ false
    → read env node key ≡ returned true (read_nav_sat_fix env node)
unfolding read_found rx_id branch
read_unlisted env node key old other unlisted =
    read-again env node key old ∙ simp (other, lookup_id-unlisted key rx_id_pairs unlisted)
