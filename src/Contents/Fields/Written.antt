-- ===== src/Contents/Fields/Written.antt =====
-- The copies of one block against the message definitions of msg/ and the bytes of the block.
use Prim.Native.String.{String}
use rosaic.Prelude.{ℕ, ◌≡◌, refl, List, [], ◌∷◌, ◌++◌, length}
use rosaic.Contents.{Memory}
use rosaic.Contents.Fields.{
  Value, Message, bytes_at, member_from, copy_block_header, pvt_geodetic_callback,
  pvt_cartesian_callback, pos_cov_cartesian_callback, pos_cov_geodetic_callback, att_euler_callback,
  att_cov_euler_callback,
}
use rosaic.Structs.{sizeof, end_of, align_of}

-- The type of a field: ROS's `Header`, or a number of so many bytes. `BlockHeader` stands for its fields.
pub data FieldType : Type 0 where
  ros_header : FieldType
  number_of : ℕ → FieldType

abbrev pub MessageField : Type 0
MessageField = String × FieldType

-- `BlockHeader.msg`
abbrev pub block_header_fields : List MessageField
block_header_fields =
    ("sync_1", number_of 1)
    ∷ ("sync_2", number_of 1)
    ∷ ("crc", number_of 2)
    ∷ ("id", number_of 2)
    ∷ ("length", number_of 2)
    ∷ ("tow", number_of 4)
    ∷ ("wnc", number_of 2)
    ∷ []

-- `PVTGeodetic.msg`
abbrev pub pvt_geodetic_fields : List MessageField
pvt_geodetic_fields =
    ("header", ros_header) ∷ block_header_fields
    ++ ("mode", number_of 1)
      ∷ ("error", number_of 1)
      ∷ ("latitude", number_of 8)
      ∷ ("longitude", number_of 8)
      ∷ ("height", number_of 8)
      ∷ ("undulation", number_of 4)
      ∷ ("vn", number_of 4)
      ∷ ("ve", number_of 4)
      ∷ ("vu", number_of 4)
      ∷ ("cog", number_of 4)
      ∷ ("rx_clk_bias", number_of 8)
      ∷ ("rx_clk_drift", number_of 4)
      ∷ ("time_system", number_of 1)
      ∷ ("datum", number_of 1)
      ∷ ("nr_sv", number_of 1)
      ∷ ("wa_corr_info", number_of 1)
      ∷ ("reference_id", number_of 2)
      ∷ ("mean_corr_age", number_of 2)
      ∷ ("signal_info", number_of 4)
      ∷ ("alert_flag", number_of 1)
      ∷ ("nr_bases", number_of 1)
      ∷ ("ppp_info", number_of 2)
      ∷ ("latency", number_of 2)
      ∷ ("h_accuracy", number_of 2)
      ∷ ("v_accuracy", number_of 2)
      ∷ ("misc", number_of 1)
      ∷ []

-- `PVTCartesian.msg`
abbrev pub pvt_cartesian_fields : List MessageField
pvt_cartesian_fields =
    ("header", ros_header) ∷ block_header_fields
    ++ ("mode", number_of 1)
      ∷ ("error", number_of 1)
      ∷ ("x", number_of 8)
      ∷ ("y", number_of 8)
      ∷ ("z", number_of 8)
      ∷ ("undulation", number_of 4)
      ∷ ("vx", number_of 4)
      ∷ ("vy", number_of 4)
      ∷ ("vz", number_of 4)
      ∷ ("cog", number_of 4)
      ∷ ("rx_clk_bias", number_of 8)
      ∷ ("rx_clk_drift", number_of 4)
      ∷ ("time_system", number_of 1)
      ∷ ("datum", number_of 1)
      ∷ ("nr_sv", number_of 1)
      ∷ ("wa_corr_info", number_of 1)
      ∷ ("reference_id", number_of 2)
      ∷ ("mean_corr_age", number_of 2)
      ∷ ("signal_info", number_of 4)
      ∷ ("alert_flag", number_of 1)
      ∷ ("nr_bases", number_of 1)
      ∷ ("ppp_info", number_of 2)
      ∷ ("latency", number_of 2)
      ∷ ("h_accuracy", number_of 2)
      ∷ ("v_accuracy", number_of 2)
      ∷ ("misc", number_of 1)
      ∷ []

-- `PosCovCartesian.msg`
abbrev pub pos_cov_cartesian_fields : List MessageField
pos_cov_cartesian_fields =
    ("header", ros_header) ∷ block_header_fields
    ++ ("mode", number_of 1)
      ∷ ("error", number_of 1)
      ∷ ("cov_xx", number_of 4)
      ∷ ("cov_yy", number_of 4)
      ∷ ("cov_zz", number_of 4)
      ∷ ("cov_bb", number_of 4)
      ∷ ("cov_xy", number_of 4)
      ∷ ("cov_xz", number_of 4)
      ∷ ("cov_xb", number_of 4)
      ∷ ("cov_yz", number_of 4)
      ∷ ("cov_yb", number_of 4)
      ∷ ("cov_zb", number_of 4)
      ∷ []

-- `PosCovGeodetic.msg`
abbrev pub pos_cov_geodetic_fields : List MessageField
pos_cov_geodetic_fields =
    ("header", ros_header) ∷ block_header_fields
    ++ ("mode", number_of 1)
      ∷ ("error", number_of 1)
      ∷ ("cov_latlat", number_of 4)
      ∷ ("cov_lonlon", number_of 4)
      ∷ ("cov_hgthgt", number_of 4)
      ∷ ("cov_bb", number_of 4)
      ∷ ("cov_latlon", number_of 4)
      ∷ ("cov_lathgt", number_of 4)
      ∷ ("cov_latb", number_of 4)
      ∷ ("cov_lonhgt", number_of 4)
      ∷ ("cov_lonb", number_of 4)
      ∷ ("cov_hb", number_of 4)
      ∷ []

-- `AttEuler.msg`
abbrev pub att_euler_fields : List MessageField
att_euler_fields =
    ("header", ros_header) ∷ block_header_fields
    ++ ("nr_sv", number_of 1)
      ∷ ("error", number_of 1)
      ∷ ("mode", number_of 2)
      ∷ ("heading", number_of 4)
      ∷ ("pitch", number_of 4)
      ∷ ("roll", number_of 4)
      ∷ ("pitch_dot", number_of 4)
      ∷ ("roll_dot", number_of 4)
      ∷ ("heading_dot", number_of 4)
      ∷ []

-- `AttCovEuler.msg`
abbrev pub att_cov_euler_fields : List MessageField
att_cov_euler_fields =
    ("header", ros_header) ∷ block_header_fields
    ++ ("error", number_of 1)
      ∷ ("cov_headhead", number_of 4)
      ∷ ("cov_pitchpitch", number_of 4)
      ∷ ("cov_rollroll", number_of 4)
      ∷ ("cov_headpitch", number_of 4)
      ∷ ("cov_headroll", number_of 4)
      ∷ ("cov_pitchroll", number_of 4)
      ∷ []

-- The blocks that have a message of their own.
pub data Single : Type 0 where
  single_pvt_geodetic single_pvt_cartesian single_pos_cov_cartesian single_pos_cov_geodetic
        single_att_euler single_att_cov_euler :
      Single

abbrev pub callback_of : Single → Memory → Message
callback_of single_pvt_geodetic = pvt_geodetic_callback
callback_of single_pvt_cartesian = pvt_cartesian_callback
callback_of single_pos_cov_cartesian = pos_cov_cartesian_callback
callback_of single_pos_cov_geodetic = pos_cov_geodetic_callback
callback_of single_att_euler = att_euler_callback
callback_of single_att_cov_euler = att_cov_euler_callback

abbrev pub fields_of : Single → List MessageField
fields_of single_pvt_geodetic = pvt_geodetic_fields
fields_of single_pvt_cartesian = pvt_cartesian_fields
fields_of single_pos_cov_cartesian = pos_cov_cartesian_fields
fields_of single_pos_cov_geodetic = pos_cov_geodetic_fields
fields_of single_att_euler = att_euler_fields
fields_of single_att_cov_euler = att_cov_euler_fields

-- The bytes that the members of a block occupy, without its reserved ones.
abbrev pub visible_bytes : Single → Memory → Value
visible_bytes single_pvt_geodetic byte = bytes_at byte 0 95
visible_bytes single_pvt_cartesian byte = bytes_at byte 0 95
visible_bytes single_pos_cov_cartesian byte = bytes_at byte 0 56
visible_bytes single_pos_cov_geodetic byte = bytes_at byte 0 56
visible_bytes single_att_euler byte = bytes_at byte 0 18 ++ bytes_at byte 20 24
visible_bytes single_att_cov_euler byte = bytes_at byte 0 14 ++ bytes_at byte 15 25

-- The fields that a callback is to set: all but `header`, which `read` stamps.
unfoldable pub without_header : List MessageField → List MessageField
without_header [] = []
without_header ((name, ros_header) ∷ fields) = without_header fields
without_header ((name, number_of n) ∷ fields) = (name, number_of n) ∷ without_header fields

-- The fields of a message written one after another, and what a message definition says of them.
unfoldable pub written_out : Message → Value
written_out [] = []
written_out ((name, value) ∷ fields) = value ++ written_out fields

unfoldable pub shape : Message → List MessageField
shape [] = []
shape ((name, value) ∷ fields) = (name, number_of (length value)) ∷ shape fields

-- Each copy of a block sets all fields of its message but ROS's `header`, each once and in the order of
-- the message definition, to a value of the width that the definition gives; and the fields written one
-- after another are the bytes of the block, in order and without a byte lost, but for the reserved
-- members.
pub callback-block :
    (s : Single) (byte : Memory)
    → (shape (callback_of s byte) ≡ without_header (fields_of s))
      × (written_out (callback_of s byte) ≡ visible_bytes s byte)
unfolding pvt_geodetic_callback pvt_cartesian_callback pos_cov_cartesian_callback
    pos_cov_geodetic_callback att_euler_callback att_cov_euler_callback copy_block_header
    member_from bytes_at sizeof end_of align_of written_out shape without_header
callback-block single_pvt_geodetic byte = (refl, refl)
callback-block single_pvt_cartesian byte = (refl, refl)
callback-block single_pos_cov_cartesian byte = (refl, refl)
callback-block single_pos_cov_geodetic byte = (refl, refl)
callback-block single_att_euler byte = (refl, refl)
callback-block single_att_cov_euler byte = (refl, refl)
