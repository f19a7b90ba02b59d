-- ===== src/CallbackHandlers/State.antt =====
-- The state of `CallbackHandlers` and the global settings that it reads.
use rosaic.Prelude.{ℕ, Bool, List}
use rosaic.MessageKey.{Key}
use rosaic.Read.State.{Node}

-- `g_publish_...`
pub record Settings : Type 0 where
  pub publish_navsatfix : Bool
  pub publish_pose : Bool
  pub publish_diagnostics : Bool
  pub publish_gpst : Bool
  pub publish_gpsfix : Bool

-- `callbackmap` lists the keys of the multimap: all its values behave alike. The `do_` strings name
-- the block that is to set off a message made of several blocks.
pub record Handlers : Type 0 where
  pub node : Node
  pub callbackmap : List Key
  pub do_gpsfix : Key
  pub do_navsatfix : Key
  pub do_pose : Key
  pub do_diagnostics : Key
  pub response_received : Bool
  pub cd_received : Bool
  pub rx_tcp_port : List ℕ

-- A handler returns, throws a `std::runtime_error`, or ends in a fault, as `read` does.
pub data Result : Type 0 where
  ok : Handlers → Result
  failed : Handlers → Result
  fault : Result

infixl 5 ◌>>=◌
abbrev pub ◌>>=◌ : Result → (Handlers → Result) → Result
ok h >>= f = f h
failed h >>= f = failed h
fault >>= f = fault
