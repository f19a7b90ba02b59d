-- ===== src/RxMessage.antt =====
-- communication/rx_message.hpp and .cpp, the part of `RxMessage` that finds messages in a buffer:
-- the predicates on the header bytes, `found`, `next`, `search`, `messageSize`, `messageID` and
-- `getBlockLength`. `read` is in Read.antt.
pub mod Frames
pub mod Scan
pub mod Size
pub mod Identify
pub mod Tests
use Prim.Native.Nat.{bit_and}
use mathlib.Core.Option
use rosaic.Prelude.{
  ℕ, zero, suc, ◌+◌, ◌-◌, ◌*◌, ◌%◌, ◌^◌, Bool, true, false, not, ◌&&◌, ◌||◌, if◌then◌else◌, leb,
  ◌==◌, Option, none, some, List, [], ◌∷◌, get_or, take, drop,
}
use rosaic.MessageKey.{Key, block, text, list_eq, first_token}

-- `bytes` is the memory from the pointer that the constructor was handed, and `pos` how far `data_`
-- has moved from it. A byte past the end of that memory reads as 0.
pub record RxMessage : Type 0 where
  pub bytes : List ℕ
  pub pos : ℕ
  pub count : ℕ
  pub found : Bool
  pub crc_check : Bool
  pub message_size : ℕ

-- `g_read_cd` and `g_cd_count`: the connection descriptors that are read after connecting.
pub record Descriptors : Type 0 where
  pub read_cd : Bool
  pub cd_count : ℕ

-- The constructor.
unfoldable pub construct : List ℕ → ℕ → RxMessage
construct buffer size = record {
  bytes = buffer;
  pos = 0;
  count = size;
  found = false;
  crc_check = false;
  message_size = 0;
}

-- `data_[i]`
abbrev pub byte : RxMessage → ℕ → ℕ
byte m i = get_or m.bytes (m.pos + i) 0

-- The two bytes at `data_ + i` as a `uint16_t` of a little-endian machine.
abbrev pub word : RxMessage → ℕ → ℕ
word m i = byte m i + 2 ^ 8 * byte m (i + 1)

pub is_sbf : RxMessage → Bool
is_sbf m = if leb 2 m.count then byte m 0 == 0x24 && byte m 1 == 0x40 else false

pub is_nmea : RxMessage → Bool
is_nmea m =
    if leb 2 m.count
    then byte m 0 == 0x24 && byte m 1 == 0x47 || byte m 0 == 0x24 && byte m 1 == 0x50
    else false

pub is_response : RxMessage → Bool
is_response m = if leb 2 m.count then byte m 0 == 0x24 && byte m 1 == 0x52 else false

pub is_connection_descriptor : RxMessage → Bool
is_connection_descriptor m = if leb 2 m.count then byte m 0 == 0x49 && byte m 1 == 0x50 else false

pub is_error_message : RxMessage → Bool
is_error_message m =
    if leb 3 m.count then byte m 0 == 0x24 && byte m 1 == 0x52 && byte m 2 == 0x3f else false

-- The test that `found` and `search` make: a header of any of the four kinds.
pub at_header : RxMessage → Descriptors → Bool
at_header m g = is_sbf m || is_nmea m || is_response m || (g.read_cd && is_connection_descriptor m)

pub found : RxMessage → Descriptors → Bool × RxMessage
found m g =
    if m.found
    then (true, m)
    else if not (at_header m g)
    then (false, m)
    else (true, record m { found = true })

pub get_block_length : RxMessage → ℕ
get_block_length m = if is_sbf m then word m 6 else 0

-- The jump of `next`: the second `if` overrides the first. `none` is the `jump_size` that no branch
-- has set.
pub jump_size : RxMessage → Descriptors → Option ℕ
jump_size m g =
    if is_sbf m
    then (if m.crc_check
        then (if get_block_length m == 0 then some 1 else some (get_block_length m))
        else some 1)
    else if is_nmea m || is_response m || (g.read_cd && is_connection_descriptor m)
    then some 1
    else none

-- `g_read_cd = false` after the second descriptor.
pub stop_reading : RxMessage → Descriptors → Descriptors
stop_reading m g =
    if g.read_cd && is_connection_descriptor m && g.cd_count == 2
    then record g { read_cd = false }
    else g

-- `data_ += jump_size; count_ -= jump_size`, the latter in `size_t`.
abbrev pub advance : RxMessage → ℕ → RxMessage
advance m jump = record m {
  found = false;
  pos = m.pos + jump;
  count = (m.count + 2 ^ 64 - jump) % 2 ^ 64;
}

pub next : RxMessage → Descriptors → Option (RxMessage × Descriptors)
next m g =
    if (found m g).0
    then Option.map (λ jump. (advance m jump, stop_reading m g)) (jump_size m g)
    else none

-- The loop of `search`, with `left` the value of `count_`.
pub scan : ℕ → RxMessage → Descriptors → RxMessage
scan zero m g = m
scan (suc left) m g =
    let rest = scan left (record m { pos = m.pos + 1; count = left }) g in
    if at_header m g then m else rest

-- `search`; its result, the pointer `data_`, is the `pos` of the new state.
pub search : RxMessage → Descriptors → Option (RxMessage × Descriptors)
search m g =
    let start = if m.found then next m g else some (m, g) in
    Option.map
      (λ (s : RxMessage × Descriptors). (record (scan s.0.count s.0 s.1) { found = true }, s.1))
      start

-- The four bytes after a line end that continue a response: two blanks and `N`, `S` or `R`.
pub is_continued : RxMessage → ℕ → Bool
is_continued m pos =
    byte m (pos + 2) == 0x20
    && byte m (pos + 3) == 0x20
    && (byte m (pos + 4) == 0x4e || byte m (pos + 4) == 0x53 || byte m (pos + 4) == 0x52)

abbrev pub is_line_end : RxMessage → ℕ → Bool
is_line_end m pos = byte m pos == 0x0d && byte m (pos + 1) == 0x0a

-- The condition under which the `do` loop of `messageSize` goes on at `pos`.
pub goes_on : Bool → RxMessage → ℕ → Bool
goes_on true m pos = not (is_line_end m pos) || (is_line_end m pos && is_continued m pos)
goes_on false m pos = not (is_line_end m pos || byte m pos == 0x0d || byte m pos == 0x0a)

-- The `do` loop with `count_copy` bytes left. `pos` is a `uint16_t`. At `count_copy == 0` the
-- source would wrap; every call stands behind a test for a header, which needs two bytes.
pub size_loop : ℕ → Bool → RxMessage → ℕ → ℕ → ℕ
size_loop zero response m size pos = size
size_loop (suc left) response m size pos =
    let pos' = (pos + 1) % 2 ^ 16 in
    let rest = size_loop left response m (size + 1) pos' in
    if left == 0 then size + 1 else if goes_on response m pos' then rest else size + 1

pub message_size : RxMessage → ℕ × RxMessage
message_size m =
    let size = size_loop m.count (is_response m) m 0 0 in (size, record m { message_size = size })

-- The bytes of the message, as `block_in_string`.
pub message_text : RxMessage → List ℕ
message_text m = take (message_size m).0 (drop m.pos m.bytes)

-- `messageID`: the block number of an SBF block, the first field of an NMEA sentence, and the
-- empty string for all else.
pub message_id : RxMessage → Key
message_id m =
    if is_sbf m
    then block (bit_and (word m 4) 8191)
    else if is_nmea m
    then text (first_token 0x2c (message_text m))
    else text []

-- `isMessage(const uint16_t id)` as C++ reads it: `==` binds tighter than `&`.
pub is_message_block : RxMessage → ℕ → Bool
is_message_block m id =
    if is_sbf m then not (bit_and (word m 4) (if 8191 == id then 1 else 0) == 0) else false

-- `isMessage(std::string id)`
pub is_message_text : RxMessage → List ℕ → Bool
is_message_text m id = if is_nmea m then list_eq (first_token 0x2c (message_text m)) id else false
