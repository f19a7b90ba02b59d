-- ===== src/Read/Tests.antt =====
-- `read` at an SBF block and at an NMEA sentence.
use rosaic.Prelude.{◌/◌, ℕ, ◌≡◌, refl, List, [], true, false, some, ◌↔◌, ◌∷◌, length}
use rosaic.Parsers.Gga.Tests.{doubles, days}
use rosaic.MessageKey.{text, key_eq, list_eq, Key, first_token, up_to}
use rosaic.Crc.{is_valid}
use rosaic.Crc.Tests.{header_accepted}
use rosaic.Read.RmcDates.{is_fatal, read_rmc_fault}
use rosaic.Read.Branches.{sentence, branch}
use rosaic.Read.State.{gprmc, fault, Arrived, Node, Env}
use rosaic.Nmea.{sentence_of, split_fields}
use rosaic.Parsers.Doubles.{to_double}
use rosaic.RxMessage.Tests.{
  short_rmc, short_rmc-sbf, good_block, gbgsv, found_at, good_message-sbf, gbgsv_message-sbf,
}
use rosaic.RxMessage.{is_sbf}
use rosaic.Parsers.{pos}
use rosaic.Read.{read}
use rosaic.Read.Keys.{rx_id, rx_id_pairs}
use rosaic.Read.Safety.{memory}
use rosaic.MessageKey.{gpst_name}
use rosaic.Read.Checks.{checked, read_checks, read_returns_valid, is_listed}

abbrev nothing_arrived : Arrived
nothing_arrived = record {
  channelstatus_gpsfix = false;
  measepoch_gpsfix = false;
  dop_gpsfix = false;
  pvtgeodetic_gpsfix = false;
  pvtgeodetic_navsatfix = false;
  pvtgeodetic_pose = false;
  poscovgeodetic_gpsfix = false;
  poscovgeodetic_navsatfix = false;
  poscovgeodetic_pose = false;
  velcovgeodetic_gpsfix = false;
  atteuler_gpsfix = false;
  atteuler_pose = false;
  attcoveuler_gpsfix = false;
  attcoveuler_pose = false;
  receiverstatus_diagnostics = false;
  qualityind_diagnostics = false;
}

abbrev pub node_at : List ℕ → Node
node_at bytes = record {
  rx = found_at bytes;
  descriptors = record { read_cd = true; cd_count = 0 };
  arrived = nothing_arrived;
  unix_time = record { sec = 0; nsec = 0 };
  last_tow = 0;
  count_gpsfix = 0;
  events = [];
}

-- The stamps are the host's, and no parser complains.
abbrev pub env : Env
env = record {
  use_gnss_time = false;
  read_from_file = false;
  timestamp_sbf = λ tow use_gnss. record { sec = 1600000000; nsec = 5 };
  now = record { sec = 1600000000; nsec = 5 };
  calendar = days;
  Double = ℕ;
  doubles = doubles;
  float_in_mps = λ f. f / 2;
  strtol = λ s. record { value = pos 1; errno = false; end = length s };
  strtof = λ s. record { value = 1; errno = false; end = length s };
}

pub good_block-sbf : is_sbf (node_at good_block).rx ≡ true
good_block-sbf = good_message-sbf

gbgsv-sbf : is_sbf (node_at gbgsv).rx ≡ false
gbgsv-sbf = gbgsv_message-sbf

pub good_block-valid : is_valid (memory (node_at good_block).rx) ≡ some true
good_block-valid = header_accepted

gbgsv-unlisted : is_listed (text gbgsv) rx_id_pairs ≡ false
unfolding is_listed key_eq list_eq
gbgsv-unlisted = refl

-- A good block that is read for the time of the receiver.
read_returned :
    read env (node_at good_block) (text gpst_name)
    ≡ branch env (rx_id (text gpst_name)) (checked (node_at good_block) true)
read_returned =
    (read_checks env (node_at good_block) (text gpst_name) refl good_block-sbf).0 good_block-valid

read_returns_valid_example :
    (is_valid good_block ≡ some true)
    × ((checked (node_at good_block) true).rx ≡ record (node_at good_block).rx { crc_check = true })
unfolding branch rx_id key_eq list_eq
read_returns_valid_example =
    read_returns_valid env (node_at good_block) _ (text gpst_name) true refl good_block-sbf
      read_returned

abbrev rmc_key : Key
rmc_key = text (0x24 ∷ b'G' ∷ b'P' ∷ b'R' ∷ b'M' ∷ b'C' ∷ [])

rmc_key-gprmc : rx_id rmc_key ≡ gprmc
unfolding rx_id key_eq list_eq
rmc_key-gprmc = refl

short_rmc_fatal : is_fatal env (sentence_of [] short_rmc).body ≡ true
unfolding sentence_of split_fields first_token up_to to_double list_eq
short_rmc_fatal = refl

read_rmc_fault_example :
    (read env (node_at short_rmc) rmc_key ≡ fault)
    ↔ (is_fatal env (sentence env (node_at short_rmc)).body ≡ true)
read_rmc_fault_example =
    read_rmc_fault env (node_at short_rmc) rmc_key refl short_rmc-sbf rmc_key-gprmc
