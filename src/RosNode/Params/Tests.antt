-- ===== src/RosNode/Params/Tests.antt =====
-- A server that holds nothing but the negative baud rate.
use rosaic.Prelude.{none, some}
use rosaic.Parsers.{negsuc}
use rosaic.RosNode.Params.{Server}

abbrev pub bare_server : Server
bare_server = record {
  strings = λ key. none;
  bools = λ key. none;
  ints = λ key. some (negsuc 0);
  floats = λ key. none;
}
