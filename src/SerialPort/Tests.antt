-- ===== src/SerialPort/Tests.antt =====
-- A port that takes every rate, set to a rate of the table and to one that is not in it.
use rosaic.Prelude.{refl, true, some}
use mathlib.Core.List.{Memᴰ}
use rosaic.SerialPort.{Port, baudrates, AcceptsAll}

abbrev good_port : Port
good_port = record { opens = true; get_option = some 115200; set_option = λ rate. some rate }

good_port-AcceptsAll : AcceptsAll good_port
good_port-AcceptsAll rate = refl

third : Memᴰ 4800 baudrates
third = Memᴰ.tail (Memᴰ.tail (Memᴰ.head refl))
