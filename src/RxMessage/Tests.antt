-- ===== src/RxMessage/Tests.antt =====
-- A small buffer with an SBF block and an NMEA sentence, and the theorems on `RxMessage` there.
use rosaic.Prelude.{ℕ, ◌≡◌, ◌<◌, refl, arith, List, [], ◌∷◌, ◌++◌, length, true, false, some}
use rosaic.MessageKey.{block}
use rosaic.RxMessage.{
  RxMessage, Descriptors, construct, is_sbf, is_nmea, is_response, is_connection_descriptor,
  at_header, get_block_length, stop_reading, scan, search, message_size, size_loop, goes_on,
  message_text, message_id,
}
use rosaic.RxMessage.Scan.{FirstHeader, stopped, after, search-FirstHeader, search-after}

-- Two bytes of noise, a block of number 4007 and twelve bytes, and "$GPXYZ,1" with its line end.
abbrev sentence : List ℕ
sentence = 0x24 ∷ 0x47 ∷ 0x50 ∷ 0x58 ∷ 0x59 ∷ 0x5a ∷ 0x2c ∷ 0x31 ∷ 0x0d ∷ 0x0a ∷ []

abbrev sbf : List ℕ
sbf = 0x24 ∷ 0x40 ∷ 0xf8 ∷ 0xcd ∷ 0xa7 ∷ 0x0f ∷ 12 ∷ 0 ∷ 1 ∷ 2 ∷ 3 ∷ 4 ∷ []

abbrev buffer : List ℕ
buffer = 7 ∷ 0x24 ∷ sbf ++ sentence

abbrev connected : Descriptors
connected = record { read_cd = true; cd_count = 0 }

-- At the block, with its check sum found good, and at the sentence.
abbrev at_block : RxMessage
at_block = record {
  bytes = buffer;
  pos = 2;
  count = 22;
  found = true;
  crc_check = true;
  message_size = 0;
}

abbrev at_sentence : RxMessage
at_sentence = record {
  bytes = buffer;
  pos = 14;
  count = 10;
  found = true;
  crc_check = true;
  message_size = 0;
}

at_block-header : (at_header at_block connected ≡ true) × (is_sbf at_block ≡ true)
unfolding at_header is_sbf
at_block-header = (refl, refl)

at_sentence-nmea : is_nmea at_sentence ≡ true
unfolding is_nmea
at_sentence-nmea = refl

names :
    (message_id at_block ≡ block 4007)
    × (message_text at_sentence ≡ 0x24 ∷ 0x47 ∷ 0x50 ∷ 0x58 ∷ 0x59 ∷ 0x5a ∷ 0x2c ∷ 0x31 ∷ [])
unfolding message_id message_text message_size size_loop goes_on is_sbf is_response
names = (refl, refl)

-- The search in the new buffer stops at the block, behind two bytes.
stopped-position : (stopped (construct buffer 24) connected).pos ≡ 2
unfolding scan at_header is_sbf is_nmea is_response is_connection_descriptor construct
stopped-position = refl

search-FirstHeader_example :
    (search (construct buffer 24) connected
      ≡ some (stopped (construct buffer 24) connected, connected))
    × FirstHeader (construct buffer 24) connected (stopped (construct buffer 24) connected)
unfolding construct
search-FirstHeader_example = search-FirstHeader (construct buffer 24) connected refl

search-after_example :
    (search at_block connected
      ≡ some (
        stopped (after at_block) (stop_reading at_block connected),
        stop_reading at_block connected,
      ))
    × FirstHeader
        (after at_block)
        (stop_reading at_block connected)
        (stopped (after at_block) (stop_reading at_block connected))
    × ((stopped (after at_block) (stop_reading at_block connected)).count < 22)
unfolding get_block_length is_sbf
search-after_example =
    search-after at_block connected refl at_block-header.0 (λ _. omega arith) (omega arith)

-- A good block of number 4007, and the name of a sentence, each found at the start of its buffer.
abbrev pub good_block : List ℕ
good_block = sbf

abbrev pub gbgsv : List ℕ
gbgsv = 0x24 ∷ b'G' ∷ b'B' ∷ b'G' ∷ b'S' ∷ b'V' ∷ []

abbrev pub found_at : List ℕ → RxMessage
found_at bytes = record {
  bytes = bytes;
  pos = 0;
  count = length bytes;
  found = true;
  crc_check = false;
  message_size = 0;
}

pub good_message-sbf : is_sbf (found_at good_block) ≡ true
unfolding is_sbf
good_message-sbf = refl

pub good_message-id : message_id (found_at good_block) ≡ block 4007
unfolding message_id is_sbf
good_message-id = refl

pub gbgsv_message-sbf : is_sbf (found_at gbgsv) ≡ false
unfolding is_sbf
gbgsv_message-sbf = refl

-- "$GPRMC,1,A,1,N,1,E,1,1,12,1,E*00": the date has two characters.
abbrev pub short_rmc : List ℕ
short_rmc =
    0x24 ∷ b'G' ∷ b'P' ∷ b'R' ∷ b'M' ∷ b'C' ∷ 0x2c ∷ b'1' ∷ 0x2c ∷ b'A' ∷ 0x2c ∷ b'1' ∷ 0x2c ∷ b'N'
    ∷ 0x2c ∷ b'1' ∷ 0x2c ∷ b'E' ∷ 0x2c ∷ b'1' ∷ 0x2c ∷ b'1' ∷ 0x2c ∷ b'1' ∷ b'2' ∷ 0x2c ∷ b'1'
    ∷ 0x2c ∷ b'E' ∷ 0x2a ∷ b'0' ∷ b'0' ∷ 0x0d ∷ []

pub short_rmc-sbf : is_sbf (found_at short_rmc) ≡ false
unfolding is_sbf
short_rmc-sbf = refl
