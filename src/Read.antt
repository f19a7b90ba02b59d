-- ===== src/Read.antt =====
-- `RxMessage::read` of communication/rx_message.cpp: the check sum of an SBF block, the branch that
-- the message key selects, and the flags, stamps and messages of each branch. What a message holds
-- besides its stamp is left to Parsers and Contents.
pub mod State
pub mod Keys
pub mod Blocks
pub mod Branches
pub mod Safety
pub mod Separators
pub mod RmcDates
pub mod Checks
pub mod Copies
pub mod Tests
use rosaic.Prelude.{
  ℕ, ◌+◌, Bool, true, false, not, if◌then◌else◌, Option, none, some, List, [], ◌∷◌, drop,
}
use rosaic.MessageKey.{Key, block, text, key_eq}
use rosaic.Crc.{is_valid}
use rosaic.RxMessage.{RxMessage, is_sbf, found as has_header}
use rosaic.Read.State.{RxId, Node, Env, Outcome, returned, thrown, fault}
use rosaic.Read.Keys.{rx_id}
use rosaic.Read.Branches.{branch}

module _ (env : Env) where
  -- After the header was found: the check sum of an SBF block, then the branch of the key.
  pub read_found : Node → Key → Outcome
  read_found node key =
      if is_sbf node.rx
      then elim (is_valid (drop node.rx.pos node.rx.bytes)) [
        | none ↦ fault
        | some valid ↦
            (let checked = record node { rx = record node.rx { crc_check = valid } } in
              if valid then branch env (rx_id key) checked else thrown checked)
      ]
      else branch env (rx_id key) node

  -- `read(message_key)`, with `search` at its default.
  pub read : Node → Key → Outcome
  read node key =
      let (header, rx) = has_header node.rx node.descriptors in
      let found_node = record node { rx = rx } in
      if header then read_found found_node key else returned false found_node
