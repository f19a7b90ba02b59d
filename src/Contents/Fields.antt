-- ===== src/Contents/Fields.antt =====
-- communication/rx_message.cpp: the callbacks that copy one block into the message of its own. A value is
-- the bytes of a member, which a message keeps in its field of the same width.
pub mod Written
mod Tests
use Prim.Native.String.{String}
use text.Mathlib.Text.{◌==◌}
use rosaic.Prelude.{ℕ, zero, suc, ◌+◌, if◌then◌else◌, List, [], ◌∷◌, ◌++◌}
use rosaic.Contents.{Memory}
use rosaic.Structs.{Member, packed_align, round_up}
use rosaic.Structs.Solutions.{
  block_header_members, pvt_cartesian_members, pvt_geodetic_members, att_euler_members,
  att_cov_euler_members, pos_cov_cartesian_members, pos_cov_geodetic_members,
}

abbrev pub Value : Type 0
Value = List ℕ

-- So many bytes of a memory from some place on.
unfoldable pub bytes_at : Memory → ℕ → ℕ → Value
bytes_at byte from zero = []
bytes_at byte from (suc count) = byte from ∷ bytes_at byte (from + 1) count

-- A member of a struct that stands at some place, without a byte if the struct has none of this name.
unfoldable pub member_from : Memory → ℕ → List Member → String → Value
member_from byte from [] name = []
member_from byte from ((n, t) ∷ members) name =
    let start = round_up from (packed_align t) in
    let rest = member_from byte (start + t.size) members name in
    if n == name then bytes_at byte start t.size else rest

-- `data.name` of a block.
abbrev pub member : Memory → List Member → String → Value
member byte members name = member_from byte 0 members name

abbrev pub Message : Type 0
Message = List (String × Value)

-- `msg->block_header`, with the time of the block.
unfoldable pub copy_block_header : Memory → List Member → Message
copy_block_header byte members =
    ("sync_1", member byte block_header_members "sync_1")
    ∷ ("sync_2", member byte block_header_members "sync_2")
    ∷ ("crc", member byte block_header_members "crc")
    ∷ ("id", member byte block_header_members "id")
    ∷ ("length", member byte block_header_members "length")
    ∷ ("tow", member byte members "tow")
    ∷ ("wnc", member byte members "wnc")
    ∷ []

-- `PVTGeodeticCallback`
unfoldable pub pvt_geodetic_callback : Memory → Message
pvt_geodetic_callback byte =
    let block = member byte pvt_geodetic_members in
    copy_block_header byte pvt_geodetic_members
    ++ ("mode", block "mode")
      ∷ ("error", block "error")
      ∷ ("latitude", block "latitude")
      ∷ ("longitude", block "longitude")
      ∷ ("height", block "height")
      ∷ ("undulation", block "undulation")
      ∷ ("vn", block "vn")
      ∷ ("ve", block "ve")
      ∷ ("vu", block "vu")
      ∷ ("cog", block "cog")
      ∷ ("rx_clk_bias", block "rx_clk_bias")
      ∷ ("rx_clk_drift", block "rx_clk_drift")
      ∷ ("time_system", block "time_system")
      ∷ ("datum", block "datum")
      ∷ ("nr_sv", block "nr_sv")
      ∷ ("wa_corr_info", block "wa_corr_info")
      ∷ ("reference_id", block "reference_id")
      ∷ ("mean_corr_age", block "mean_corr_age")
      ∷ ("signal_info", block "signal_info")
      ∷ ("alert_flag", block "alert_flag")
      ∷ ("nr_bases", block "nr_bases")
      ∷ ("ppp_info", block "ppp_info")
      ∷ ("latency", block "latency")
      ∷ ("h_accuracy", block "h_accuracy")
      ∷ ("v_accuracy", block "v_accuracy")
      ∷ ("misc", block "misc")
      ∷ []

-- `PVTCartesianCallback`
unfoldable pub pvt_cartesian_callback : Memory → Message
pvt_cartesian_callback byte =
    let block = member byte pvt_cartesian_members in
    copy_block_header byte pvt_cartesian_members
    ++ ("mode", block "mode")
      ∷ ("error", block "error")
      ∷ ("x", block "x")
      ∷ ("y", block "y")
      ∷ ("z", block "z")
      ∷ ("undulation", block "undulation")
      ∷ ("vx", block "vx")
      ∷ ("vy", block "vy")
      ∷ ("vz", block "vz")
      ∷ ("cog", block "cog")
      ∷ ("rx_clk_bias", block "rx_clk_bias")
      ∷ ("rx_clk_drift", block "rx_clk_drift")
      ∷ ("time_system", block "time_system")
      ∷ ("datum", block "datum")
      ∷ ("nr_sv", block "nr_sv")
      ∷ ("wa_corr_info", block "wa_corr_info")
      ∷ ("reference_id", block "reference_id")
      ∷ ("mean_corr_age", block "mean_corr_age")
      ∷ ("signal_info", block "signal_info")
      ∷ ("alert_flag", block "alert_flag")
      ∷ ("nr_bases", block "nr_bases")
      ∷ ("ppp_info", block "ppp_info")
      ∷ ("latency", block "latency")
      ∷ ("h_accuracy", block "h_accuracy")
      ∷ ("v_accuracy", block "v_accuracy")
      ∷ ("misc", block "misc")
      ∷ []

-- `PosCovCartesianCallback`
unfoldable pub pos_cov_cartesian_callback : Memory → Message
pos_cov_cartesian_callback byte =
    let block = member byte pos_cov_cartesian_members in
    copy_block_header byte pos_cov_cartesian_members
    ++ ("mode", block "mode")
      ∷ ("error", block "error")
      ∷ ("cov_xx", block "cov_xx")
      ∷ ("cov_yy", block "cov_yy")
      ∷ ("cov_zz", block "cov_zz")
      ∷ ("cov_bb", block "cov_bb")
      ∷ ("cov_xy", block "cov_xy")
      ∷ ("cov_xz", block "cov_xz")
      ∷ ("cov_xb", block "cov_xb")
      ∷ ("cov_yz", block "cov_yz")
      ∷ ("cov_yb", block "cov_yb")
      ∷ ("cov_zb", block "cov_zb")
      ∷ []

-- `PosCovGeodeticCallback`
unfoldable pub pos_cov_geodetic_callback : Memory → Message
pos_cov_geodetic_callback byte =
    let block = member byte pos_cov_geodetic_members in
    copy_block_header byte pos_cov_geodetic_members
    ++ ("mode", block "mode")
      ∷ ("error", block "error")
      ∷ ("cov_latlat", block "cov_latlat")
      ∷ ("cov_lonlon", block "cov_lonlon")
      ∷ ("cov_hgthgt", block "cov_hgthgt")
      ∷ ("cov_bb", block "cov_bb")
      ∷ ("cov_latlon", block "cov_latlon")
      ∷ ("cov_lathgt", block "cov_lathgt")
      ∷ ("cov_latb", block "cov_latb")
      ∷ ("cov_lonhgt", block "cov_lonhgt")
      ∷ ("cov_lonb", block "cov_lonb")
      ∷ ("cov_hb", block "cov_hb")
      ∷ []

-- `AttEulerCallback`
unfoldable pub att_euler_callback : Memory → Message
att_euler_callback byte =
    let block = member byte att_euler_members in
    copy_block_header byte att_euler_members
    ++ ("nr_sv", block "nr_sv")
      ∷ ("error", block "error")
      ∷ ("mode", block "mode")
      ∷ ("heading", block "heading")
      ∷ ("pitch", block "pitch")
      ∷ ("roll", block "roll")
      ∷ ("pitch_dot", block "pitch_dot")
      ∷ ("roll_dot", block "roll_dot")
      ∷ ("heading_dot", block "heading_dot")
      ∷ []

-- `AttCovEulerCallback`
unfoldable pub att_cov_euler_callback : Memory → Message
att_cov_euler_callback byte =
    let block = member byte att_cov_euler_members in
    copy_block_header byte att_cov_euler_members
    ++ ("error", block "error")
      ∷ ("cov_headhead", block "cov_headhead")
      ∷ ("cov_pitchpitch", block "cov_pitchpitch")
      ∷ ("cov_rollroll", block "cov_rollroll")
      ∷ ("cov_headpitch", block "cov_headpitch")
      ∷ ("cov_headroll", block "cov_headroll")
      ∷ ("cov_pitchroll", block "cov_pitchroll")
      ∷ []
