-- ===== src/Structs/Solutions.antt =====
-- packed_structs/sbf_structs.hpp: the header of a block, and the blocks with positions, velocities and
-- attitudes.
use rosaic.Prelude.{List, [], ◌∷◌}
use rosaic.Structs.{Member, uint8, uint16, uint32, f32, sbf_double, struct}

-- `BlockHeader_t`
abbrev pub block_header_members : List Member
block_header_members =
    ("sync_1", uint8)
    ∷ ("sync_2", uint8)
    ∷ ("crc", uint16)
    ∷ ("id", uint16)
    ∷ ("length", uint16)
    ∷ []

-- `PVTCartesian`
abbrev pub pvt_cartesian_members : List Member
pvt_cartesian_members =
    ("block_header", struct block_header_members)
    ∷ ("tow", uint32)
    ∷ ("wnc", uint16)
    ∷ ("mode", uint8)
    ∷ ("error", uint8)
    ∷ ("x", sbf_double)
    ∷ ("y", sbf_double)
    ∷ ("z", sbf_double)
    ∷ ("undulation", f32)
    ∷ ("vx", f32)
    ∷ ("vy", f32)
    ∷ ("vz", f32)
    ∷ ("cog", f32)
    ∷ ("rx_clk_bias", sbf_double)
    ∷ ("rx_clk_drift", f32)
    ∷ ("time_system", uint8)
    ∷ ("datum", uint8)
    ∷ ("nr_sv", uint8)
    ∷ ("wa_corr_info", uint8)
    ∷ ("reference_id", uint16)
    ∷ ("mean_corr_age", uint16)
    ∷ ("signal_info", uint32)
    ∷ ("alert_flag", uint8)
    ∷ ("nr_bases", uint8)
    ∷ ("ppp_info", uint16)
    ∷ ("latency", uint16)
    ∷ ("h_accuracy", uint16)
    ∷ ("v_accuracy", uint16)
    ∷ ("misc", uint8)
    ∷ []

-- `PVTGeodetic`
abbrev pub pvt_geodetic_members : List Member
pvt_geodetic_members =
    ("block_header", struct block_header_members)
    ∷ ("tow", uint32)
    ∷ ("wnc", uint16)
    ∷ ("mode", uint8)
    ∷ ("error", uint8)
    ∷ ("latitude", sbf_double)
    ∷ ("longitude", sbf_double)
    ∷ ("height", sbf_double)
    ∷ ("undulation", f32)
    ∷ ("vn", f32)
    ∷ ("ve", f32)
    ∷ ("vu", f32)
    ∷ ("cog", f32)
    ∷ ("rx_clk_bias", sbf_double)
    ∷ ("rx_clk_drift", f32)
    ∷ ("time_system", uint8)
    ∷ ("datum", uint8)
    ∷ ("nr_sv", uint8)
    ∷ ("wa_corr_info", uint8)
    ∷ ("reference_id", uint16)
    ∷ ("mean_corr_age", uint16)
    ∷ ("signal_info", uint32)
    ∷ ("alert_flag", uint8)
    ∷ ("nr_bases", uint8)
    ∷ ("ppp_info", uint16)
    ∷ ("latency", uint16)
    ∷ ("h_accuracy", uint16)
    ∷ ("v_accuracy", uint16)
    ∷ ("misc", uint8)
    ∷ []

-- `AttEuler`
abbrev pub att_euler_members : List Member
att_euler_members =
    ("block_header", struct block_header_members)
    ∷ ("tow", uint32)
    ∷ ("wnc", uint16)
    ∷ ("nr_sv", uint8)
    ∷ ("error", uint8)
    ∷ ("mode", uint16)
    ∷ ("reserved", uint16)
    ∷ ("heading", f32)
    ∷ ("pitch", f32)
    ∷ ("roll", f32)
    ∷ ("pitch_dot", f32)
    ∷ ("roll_dot", f32)
    ∷ ("heading_dot", f32)
    ∷ []

-- `AttCovEuler`
abbrev pub att_cov_euler_members : List Member
att_cov_euler_members =
    ("block_header", struct block_header_members)
    ∷ ("tow", uint32)
    ∷ ("wnc", uint16)
    ∷ ("reserved", uint8)
    ∷ ("error", uint8)
    ∷ ("cov_headhead", f32)
    ∷ ("cov_pitchpitch", f32)
    ∷ ("cov_rollroll", f32)
    ∷ ("cov_headpitch", f32)
    ∷ ("cov_headroll", f32)
    ∷ ("cov_pitchroll", f32)
    ∷ []

-- `DOP`
abbrev pub dop_members : List Member
dop_members =
    ("block_header", struct block_header_members)
    ∷ ("tow", uint32)
    ∷ ("wnc", uint16)
    ∷ ("nr_sv", uint8)
    ∷ ("reserved", uint8)
    ∷ ("pdop", uint16)
    ∷ ("tdop", uint16)
    ∷ ("hdop", uint16)
    ∷ ("vdop", uint16)
    ∷ ("hpl", f32)
    ∷ ("vpl", f32)
    ∷ []

-- `PosCovCartesian`
abbrev pub pos_cov_cartesian_members : List Member
pos_cov_cartesian_members =
    ("block_header", struct block_header_members)
    ∷ ("tow", uint32)
    ∷ ("wnc", uint16)
    ∷ ("mode", uint8)
    ∷ ("error", uint8)
    ∷ ("cov_xx", f32)
    ∷ ("cov_yy", f32)
    ∷ ("cov_zz", f32)
    ∷ ("cov_bb", f32)
    ∷ ("cov_xy", f32)
    ∷ ("cov_xz", f32)
    ∷ ("cov_xb", f32)
    ∷ ("cov_yz", f32)
    ∷ ("cov_yb", f32)
    ∷ ("cov_zb", f32)
    ∷ []

-- `PosCovGeodetic`
abbrev pub pos_cov_geodetic_members : List Member
pos_cov_geodetic_members =
    ("block_header", struct block_header_members)
    ∷ ("tow", uint32)
    ∷ ("wnc", uint16)
    ∷ ("mode", uint8)
    ∷ ("error", uint8)
    ∷ ("cov_latlat", f32)
    ∷ ("cov_lonlon", f32)
    ∷ ("cov_hgthgt", f32)
    ∷ ("cov_bb", f32)
    ∷ ("cov_latlon", f32)
    ∷ ("cov_lathgt", f32)
    ∷ ("cov_latb", f32)
    ∷ ("cov_lonhgt", f32)
    ∷ ("cov_lonb", f32)
    ∷ ("cov_hb", f32)
    ∷ []

-- `VelCovCartesian`
abbrev pub vel_cov_cartesian_members : List Member
vel_cov_cartesian_members =
    ("block_header", struct block_header_members)
    ∷ ("tow", uint32)
    ∷ ("wnc", uint16)
    ∷ ("mode", uint8)
    ∷ ("error", uint8)
    ∷ ("cov_vxvx", f32)
    ∷ ("cov_vyvy", f32)
    ∷ ("cov_vzvz", f32)
    ∷ ("cov_dtdt", f32)
    ∷ ("cov_vxvy", f32)
    ∷ ("cov_vxvz", f32)
    ∷ ("cov_vxdt", f32)
    ∷ ("cov_vyvz", f32)
    ∷ ("cov_vydt", f32)
    ∷ ("cov_vzdt", f32)
    ∷ []

-- `VelCovGeodetic`
abbrev pub vel_cov_geodetic_members : List Member
vel_cov_geodetic_members =
    ("block_header", struct block_header_members)
    ∷ ("tow", uint32)
    ∷ ("wnc", uint16)
    ∷ ("mode", uint8)
    ∷ ("error", uint8)
    ∷ ("cov_vnvn", f32)
    ∷ ("cov_veve", f32)
    ∷ ("cov_vuvu", f32)
    ∷ ("cov_dtdt", f32)
    ∷ ("cov_vnve", f32)
    ∷ ("cov_vnvu", f32)
    ∷ ("cov_vndt", f32)
    ∷ ("cov_vevu", f32)
    ∷ ("cov_vedt", f32)
    ∷ ("cov_vudt", f32)
    ∷ []
