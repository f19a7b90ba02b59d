-- ===== src/Contents.antt =====
-- communication/rx_message.cpp: what the callbacks of the messages that are made of several blocks put
-- into them. A block is the memory behind its first byte, at the offsets of packed_structs/sbf_structs.hpp.
pub mod Satellites
pub mod Fields
pub mod Fix
pub mod Pose
pub mod Diagnostics
pub mod FixStatus
pub mod Service
pub mod Tests
use rosaic.Prelude.{
  ℕ, zero, suc, ◌+◌, ◌-◌, ◌*◌, ◌/◌, ◌%◌, ◌^◌, Bool, true, false, ◌||◌, if◌then◌else◌, ltb, ◌==◌,
  List, [], ◌∷◌, ◌++◌, length, get_elem?, Option, none, some,
}
use rosaic.Parsers.{ℤ, pos, negsuc}

abbrev pub Memory : Type 0
Memory = ℕ → ℕ

abbrev pub u16 : Memory → ℕ → ℕ
u16 byte i = byte i + 256 * byte (i + 1)

abbrev pub i8 : Memory → ℕ → ℤ
i8 byte i = if ltb (byte i) 128 then pos (byte i) else negsuc (255 - byte i)

-- `n`, `sb1_size`, `sb2_size` and the offset of `data`, the same in MeasEpoch and ChannelStatus.
abbrev pub n_of : Memory → ℕ
n_of byte = byte 14

abbrev pub sb1_size : Memory → ℕ
sb1_size byte = byte 15

abbrev pub sb2_size : Memory → ℕ
sb2_size byte = byte 16

abbrev pub data_start : ℕ
data_start = 20

-- The vectors that are filled from MeasEpoch.
pub record Tracked : Type 0 where
  pub svid_in_sync : List ℕ
  pub cno_tracked : List ℕ

-- The signal-to-noise ratio of the sub-block MeasEpochChannelType1 at `index`.
unfoldable pub cno : Memory → ℕ → ℕ
cno byte index =
    let type = byte (index + 1) % 16 in
    if type == 1 || type == 2 then byte (index + 15) / 4 else byte (index + 15) / 4 + 10

-- The loop over the sub-blocks of MeasEpoch, with so many rounds to go.
unfoldable pub track_channels : Memory → ℕ → ℕ → Tracked
track_channels byte zero index = record { svid_in_sync = []; cno_tracked = [] }
track_channels byte (suc rounds) index =
    let rest =
      track_channels byte rounds (index + sb1_size byte + byte (index + 19) * sb2_size byte) in
    record {
      svid_in_sync = byte (index + 2) ∷ rest.svid_in_sync;
      cno_tracked = cno byte index ∷ rest.cno_tracked;
    }

-- The loop that looks a satellite up among those in sync, from position `j`.
unfoldable pub position_in_sync : ℕ → List ℕ → ℕ → Option ℕ
position_in_sync svid [] j = none
position_in_sync svid (s ∷ in_sync) j =
    if s == svid then some j else position_in_sync svid in_sync (j + 1)

-- The loop over the pairs of bits of `pvt_status`, with so many pairs to go.
unfoldable pub pvt_status : ℕ → ℕ → Bool
pvt_status word zero = false
pvt_status word (suc pairs) = word / 4 ^ pairs % 4 == 2 || pvt_status word pairs

-- The loop over the sub-blocks ChannelStateInfo of a satellite: what it pushes to `svid_pvt`.
unfoldable pub used : Memory → ℕ → ℕ → ℕ → List ℕ
used byte svid zero index = []
used byte svid (suc rounds) index =
    let rest = used byte svid rounds (index + sb2_size byte) in
    if pvt_status (u16 byte (index + 4)) 8 then svid ∷ rest else rest

-- The vectors that are filled from ChannelStatus.
pub record Visible : Type 0 where
  pub ordering : List ℕ
  pub svid_in_sync_2 : List ℕ
  pub elevation_tracked : List ℤ
  pub azimuth_tracked : List ℕ
  pub svid_pvt : List ℕ

-- What a round pushes, before what the later ones push.
unfoldable pub push_satellite : Memory → ℕ → Option ℕ → Visible → Visible
push_satellite byte index none rest = rest
push_satellite byte index (some j) rest = record {
  ordering = j ∷ rest.ordering;
  svid_in_sync_2 = byte index ∷ rest.svid_in_sync_2;
  elevation_tracked = i8 byte (index + 8) ∷ rest.elevation_tracked;
  azimuth_tracked = u16 byte (index + 4) % 512 ∷ rest.azimuth_tracked;
  svid_pvt = rest.svid_pvt;
}

-- The loop over the sub-blocks ChannelSatInfo, with so many rounds to go.
unfoldable pub visible : Memory → List ℕ → ℕ → ℕ → Visible
visible byte in_sync zero index = record {
  ordering = [];
  svid_in_sync_2 = [];
  elevation_tracked = [];
  azimuth_tracked = [];
  svid_pvt = [];
}
visible byte in_sync (suc rounds) index =
    let states = index + sb1_size byte in
    let n2 = byte (index + 9) in
    let rest = visible byte in_sync rounds (states + n2 * sb2_size byte) in
    let pushed = push_satellite byte index (position_in_sync (byte index) in_sync 0) rest in
    record {
      ordering = pushed.ordering;
      svid_in_sync_2 = pushed.svid_in_sync_2;
      elevation_tracked = pushed.elevation_tracked;
      azimuth_tracked = pushed.azimuth_tracked;
      svid_pvt = used byte (byte index) n2 states ++ pushed.svid_pvt;
    }

-- What follows a read, unless that was out of range.
infixl 10 ◌>>=◌
abbrev pub ◌>>=◌ : {A : Type 0} {B : Type 0} → Option A → (A → Option B) → Option B
none >>= next = none
some a >>= next = next a

-- The loop over `ordering`; `none` is a read behind the end of `cno_tracked`.
unfoldable pub reorder : List ℕ → List ℕ → Option (List ℕ)
reorder cno_tracked [] = some []
reorder cno_tracked (j ∷ ordering) = do
  c ← get_elem? cno_tracked j
  rest ← reorder cno_tracked ordering
  some (c ∷ rest)

-- The fields about satellites in the status of a GPSFix.
pub record Status : Type 0 where
  pub satellite_used_prn : List ℕ
  pub satellites_visible : ℕ
  pub satellite_visible_prn : List ℕ
  pub satellite_visible_z : List ℤ
  pub satellite_visible_azimuth : List ℕ
  pub satellite_visible_snr : List ℕ

abbrev pub tracked : Memory → Tracked
tracked measepoch = track_channels measepoch (n_of measepoch) data_start

abbrev pub status_of : Tracked → Visible → List ℕ → Status
status_of t v snr = record {
  satellite_used_prn = v.svid_pvt;
  satellites_visible = length t.svid_in_sync % 2 ^ 16;
  satellite_visible_prn = v.svid_in_sync_2;
  satellite_visible_z = v.elevation_tracked;
  satellite_visible_azimuth = v.azimuth_tracked;
  satellite_visible_snr = snr;
}

-- The part of `GPSFixCallback` that fills them from MeasEpoch and ChannelStatus.
unfoldable pub satellite_fields : Memory → Memory → Option Status
satellite_fields measepoch channelstatus =
    let t = tracked measepoch in
    let v = visible channelstatus t.svid_in_sync (n_of channelstatus) data_start in
    do
      snr ← if n_of channelstatus == 0 then some [] else reorder t.cno_tracked v.ordering
      some (status_of t v snr)
