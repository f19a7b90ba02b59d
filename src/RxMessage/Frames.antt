-- ===== src/RxMessage/Frames.antt =====
-- The headers of the four kinds, and what `next` does at each.
use rosaic.Prelude.{
  ℕ, ◌+◌, ◌-◌, ◌%◌, ◌^◌, ◌≤◌, ◌<◌, ◌≡◌, refl, arith, Bool, true, false, ◌&&◌, ◌==◌, not,
  if◌then◌else◌, some, [], get_or, ◌*◌, take, drop,
}
use Prim.Native.Nat.{bit_and}
use rosaic.MessageKey.{block, text, IsBlock, first_token}
use rosaic.RxMessage.{
  RxMessage, Descriptors, is_sbf, is_nmea, is_response, is_connection_descriptor, at_header, found,
  word, message_id, get_block_length, jump_size, stop_reading, next, message_size, message_text,
}

-- No position has headers of two kinds.
pub header_kinds :
    (m : RxMessage)
    → (is_sbf m ≡ true → (is_nmea m ≡ false) × (is_response m ≡ false))
      × (is_sbf m ≡ true → is_connection_descriptor m ≡ false)
      × (is_nmea m ≡ true → (is_response m ≡ false) × (is_connection_descriptor m ≡ false))
      × (is_response m ≡ true → is_connection_descriptor m ≡ false)
unfolding is_sbf is_nmea is_response is_connection_descriptor
header_kinds m = (λ h. ground arith, λ h. ground arith, λ h. ground arith, λ h. ground arith)

pub header-count : (m : RxMessage) (g : Descriptors) → at_header m g ≡ true → 2 ≤ m.count
unfolding at_header is_sbf is_nmea is_response is_connection_descriptor
header-count m g h = ground arith

-- A block whose length is known to be inside the buffer, or any other message.
abbrev pub IsWhole : RxMessage → Type 0
IsWhole m = is_sbf m ≡ true → get_block_length m ≤ m.count

-- How far `next` goes at a header.
unfoldable pub jump_of : RxMessage → ℕ
jump_of m =
    if is_sbf m && m.crc_check && not (get_block_length m == 0) then get_block_length m else 1

jump_size-at_header :
    (m : RxMessage) (g : Descriptors) → at_header m g ≡ true → jump_size m g ≡ some (jump_of m)
unfolding jump_size jump_of at_header
jump_size-at_header m g header = ground arith

pub jump_of_bounds :
    (m : RxMessage) → 2 ≤ m.count → IsWhole m → (0 < jump_of m) × (jump_of m ≤ m.count)
unfolding jump_of
jump_of_bounds m two whole = ground arith

found-at_header : (m : RxMessage) (g : Descriptors) → at_header m g ≡ true → (found m g).0 ≡ true
unfolding found
found-at_header m g header = ground arith

-- Neither the check sum nor the number of descriptors has a part in what stands at a position.
pub at_header-crc :
    (m : RxMessage) (g : Descriptors) (c : Bool) (n : ℕ)
    → at_header (record m { crc_check = c }) (record g { cd_count = n }) ≡ at_header m g
unfolding at_header is_sbf is_nmea is_response is_connection_descriptor
at_header-crc m g c n = refl

-- What the bytes are where an SBF block begins, and where its length stands.
pub sbf-bytes :
    (m : RxMessage)
    → is_sbf m ≡ true
    → (get_or m.bytes m.pos 0 ≡ 0x24)
      × (get_or m.bytes (m.pos + 1) 0 ≡ 0x40)
      × (get_block_length m ≡ get_or m.bytes (m.pos + 6) 0 + 2 ^ 8 * get_or m.bytes (m.pos + 7) 0)
unfolding is_sbf get_block_length
sbf-bytes m sbf = (ground arith, ground arith, simp sbf)

pub is_sbf-crc : (m : RxMessage) (c : Bool) → is_sbf (record m { crc_check = c }) ≡ is_sbf m
unfolding is_sbf
is_sbf-crc m c = refl

pub crc-IsWhole : (m : RxMessage) (c : Bool) → IsWhole m → IsWhole (record m { crc_check = c })
unfolding is_sbf get_block_length
crc-IsWhole m c whole = whole

-- `found` asks nothing once `found_` is set.
pub found-again :
    (m : RxMessage) (g : Descriptors)
    → m.found ≡ true
    → ◌≡◌ {A = Bool × RxMessage} (found m g) (true, m)
unfolding found
found-again m g old = simp old

-- At a message whose block has arrived whole, `next` moves by at least one byte and stays inside
-- the buffer; it clears `found_`.
pub next_advances :
    (m : RxMessage) (g : Descriptors)
    → at_header m g ≡ true
    → IsWhole m
    → m.count < 2 ^ 64
    → (0 < jump_of m)
      × (jump_of m ≤ m.count)
      × (next m g
          ≡ some (
            record m { found = false; pos = m.pos + jump_of m; count = m.count - jump_of m },
            stop_reading m g,
          ))
unfolding next
next_advances m g header whole small =
    let bounds = jump_of_bounds m (header-count m g header) whole in
    let wrapped : (m.count + 2 ^ 64 - jump_of m) % 2 ^ 64 ≡ m.count - jump_of m =
      omega (arith, bounds) in
    (
      bounds.0,
      bounds.1,
      rw (found-at_header m g header, jump_size-at_header m g header, wrapped) refl,
    )

-- The converse: what the bytes have to be for an SBF block to begin.
pub bytes-sbf :
    (m : RxMessage)
    → 2 ≤ m.count
    → get_or m.bytes (m.pos + 0) 0 ≡ 0x24
    → get_or m.bytes (m.pos + 1) 0 ≡ 0x40
    → is_sbf m ≡ true
unfolding is_sbf
bytes-sbf m two a b = ground arith

pub sbf-at_header : (m : RxMessage) (g : Descriptors) → is_sbf m ≡ true → at_header m g ≡ true
unfolding at_header
sbf-at_header m g sbf = ground arith

pub message_text-take :
    (m : RxMessage) → message_text m ≡ take (message_size m).0 (drop m.pos m.bytes)
unfolding message_text
message_text-take m = refl

-- Only a message with an SBF header has a block number for its key.
pub message_id-IsBlock : (m : RxMessage) → IsBlock (message_id m) → is_sbf m ≡ true
unfolding message_id
message_id-IsBlock m b = go (is_sbf m) (is_nmea m) refl b
  where
    go :
        (sbf nmea : Bool)
        → is_sbf m ≡ sbf
        → IsBlock (
            if sbf
            then block (bit_and (word m 4) 8191)
            else if nmea
            then text (first_token 0x2c (message_text m))
            else text [])
        → is_sbf m ≡ true
    go true nmea e b = e
    go false true e b = absurd b
    go false false e b = absurd b
