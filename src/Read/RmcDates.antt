-- ===== src/Read/RmcDates.antt =====
-- `RxMessage::read` at an RMC sentence: the dates at which an exception of the parser leaves it.
use rosaic.Prelude.{ℕ, ◌≡◌, ◌↔◌, refl, arith, Bool, true, false, ◌&&◌, get_or, List, []}
use rosaic.MessageKey.{Key}
use rosaic.Nmea.{Field}
use rosaic.Parsers.{Parsed, parsed, refused, out_of_range}
use rosaic.Parsers.Rmc.{Gprmc}
use rosaic.Parsers.Rmc.Dates.{Agrees, fits, has_time, is_short, parse_ascii_ends}
use rosaic.RxMessage.{is_sbf}
use rosaic.Read.{read, read_found}
use rosaic.Read.Branches.{branch, sentence, parsed_rmc, read_gprmc, header_stamp}
use rosaic.Read.Blocks.{publish}
use rosaic.Read.Keys.{rx_id}
use rosaic.Read.Safety.{read-again}
use rosaic.Read.State.{Node, Env, host_of, Outcome, returned, thrown, fault, gprmc}

module _ (env : Env) where
  -- A sentence of 13 or 14 fields with a time that is missing, "0" or a number, and a date of one to
  -- three characters.
  abbrev pub is_fatal : List Field → Bool
  is_fatal body =
      fits env.doubles (host_of env) env.strtof env.float_in_mps body
      && (has_time env.doubles (host_of env) env.strtof env.float_in_mps (get_or body 1 [])
          && is_short (get_or body 9 []))

  ended-fatal :
      (node : Node) (body : List Field) (r : Parsed (Gprmc env.Double ℕ × Bool))
      → Agrees env.doubles (host_of env) env.strtof env.float_in_mps body r
      → ((elim r as (λ r. Outcome) [
        | parsed (message, was_valid) ↦
            returned true (publish env gprmc (header_stamp env message.stamp) node)
        | refused ↦ thrown node
        | out_of_range ↦ fault
      ])
          ≡ fault)
        ↔ (is_fatal body ≡ true)
  ended-fatal node body out_of_range a = (λ e. a, λ e. refl)
  ended-fatal node body refused a = (λ e. ground arith, λ f. ground arith)
  ended-fatal node body (parsed (message, was_valid)) a = (λ e. ground arith, λ f. ground arith)

  -- `read` at an RMC sentence that was found is left by a `std::out_of_range`, which nobody catches,
  -- exactly if the sentence has 13 or 14 fields, a time that is missing, "0" or a number, and a date of
  -- one to three characters.
  pub read_rmc_fault :
      (node : Node) (key : Key)
      → node.rx.found ≡ true
      → is_sbf node.rx ≡ false
      → rx_id key ≡ gprmc
      → (read env node key ≡ fault) ↔ (is_fatal (sentence env node).body ≡ true)
  unfolding read_found branch read_gprmc
  read_rmc_fault node key old other is_rmc =
      rw (read-again env node key old, other, is_rmc)
        (ended-fatal node (sentence env node).body (parsed_rmc env node) (
          parse_ascii_ends env.doubles (host_of env) env.strtof env.float_in_mps
            (sentence env node).body))
