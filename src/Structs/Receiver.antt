-- ===== src/Structs/Receiver.antt =====
-- packed_structs/sbf_structs.hpp: the blocks about the receiver and its channels.
use rosaic.Prelude.{ℕ, ◌+◌, ◌-◌, ◌*◌, List, [], ◌∷◌}
use rosaic.Structs.{Member, uint8, int8, char, uint16, uint32, int32, f32, array, struct, sizeof}
use rosaic.Structs.Solutions.{block_header_members}

-- `MAXSB_CHANNELSATINFO` and `MAXSB_MEASEPOCH_T1`, of 80 channels and one for Inmarsat.
abbrev maxsb_channels : ℕ
maxsb_channels = 80 + 1

-- `ChannelStateInfo`
abbrev pub channel_state_info_members : List Member
channel_state_info_members =
    ("antenna", uint8)
    ∷ ("reserved", uint8)
    ∷ ("tracking_status", uint16)
    ∷ ("pvt_status", uint16)
    ∷ ("pvt_info", uint16)
    ∷ []

-- `ChannelSatInfo`
abbrev pub channel_sat_info_members : List Member
channel_sat_info_members =
    ("sv_id", uint8)
    ∷ ("freq_nr", uint8)
    ∷ ("reserved1", array uint8 2)
    ∷ ("az_rise_set", uint16)
    ∷ ("health_status", uint16)
    ∷ ("elev", int8)
    ∷ ("n2", uint8)
    ∷ ("channel", uint8)
    ∷ ("reserved2", uint8)
    ∷ []

-- `SBF_CHANNELSTATUS_DATA_LENGTH`, for four antennas
abbrev channelstatus_data_length : ℕ
channelstatus_data_length =
    maxsb_channels * sizeof channel_sat_info_members
    + maxsb_channels * 4 * sizeof channel_state_info_members

-- `ChannelStatus`
abbrev pub channel_status_members : List Member
channel_status_members =
    ("block_header", struct block_header_members)
    ∷ ("tow", uint32)
    ∷ ("wnc", uint16)
    ∷ ("n", uint8)
    ∷ ("sb1_size", uint8)
    ∷ ("sb2_size", uint8)
    ∷ ("reserved", array uint8 3)
    ∷ ("data", array uint8 channelstatus_data_length)
    ∷ []

-- `MeasEpochChannelType2`
abbrev pub meas_epoch_channel_type2_members : List Member
meas_epoch_channel_type2_members =
    ("type", uint8)
    ∷ ("lock_time", uint8)
    ∷ ("cn0", uint8)
    ∷ ("offsets_msb", uint8)
    ∷ ("carrier_msb", int8)
    ∷ ("obs_info", uint8)
    ∷ ("code_offset_lsb", uint16)
    ∷ ("carrier_lsb", uint16)
    ∷ ("doppler_offset_lsb", uint16)
    ∷ []

-- `MeasEpochChannelType1`
abbrev pub meas_epoch_channel_type1_members : List Member
meas_epoch_channel_type1_members =
    ("rx_channel", uint8)
    ∷ ("type", uint8)
    ∷ ("sv_id", uint8)
    ∷ ("misc", uint8)
    ∷ ("code_lsb", uint32)
    ∷ ("doppler", int32)
    ∷ ("carrier_lsb", uint16)
    ∷ ("carrier_msb", int8)
    ∷ ("cn0", uint8)
    ∷ ("lock_time", uint16)
    ∷ ("obs_info", uint8)
    ∷ ("n_type2", uint8)
    ∷ []

-- `MEASEPOCH_DATA_LENGTH`, for seven signals of each satellite at three antennas
abbrev measepoch_data_length : ℕ
measepoch_data_length =
    maxsb_channels * sizeof meas_epoch_channel_type1_members
    + maxsb_channels * (7 * 3 - 1) * sizeof meas_epoch_channel_type2_members

-- `MeasEpoch`
abbrev pub meas_epoch_members : List Member
meas_epoch_members =
    ("block_header", struct block_header_members)
    ∷ ("tow", uint32)
    ∷ ("wnc", uint16)
    ∷ ("n", uint8)
    ∷ ("sb1_size", uint8)
    ∷ ("sb2_size", uint8)
    ∷ ("common_flags", uint8)
    ∷ ("cum_clk_jumps", uint8)
    ∷ ("reserved", uint8)
    ∷ ("data", array uint8 measepoch_data_length)
    ∷ []

-- `ReceiverSetup`
abbrev pub receiver_setup_members : List Member
receiver_setup_members =
    ("block_header", struct block_header_members)
    ∷ ("tow", uint32)
    ∷ ("wnc", uint16)
    ∷ ("reserved", array uint8 2)
    ∷ ("marker_name", array char 60)
    ∷ ("marker_number", array char 20)
    ∷ ("observer", array char 20)
    ∷ ("agency", array char 40)
    ∷ ("rx_serial_number", array char 20)
    ∷ ("rx_name", array char 20)
    ∷ ("rx_version", array char 20)
    ∷ ("ant_serial_nbr", array char 20)
    ∷ ("ant_type", array char 20)
    ∷ ("delta_h", f32)
    ∷ ("delta_e", f32)
    ∷ ("delta_n", f32)
    ∷ ("marker_type", array char 20)
    ∷ ("gnss_fw_version", array char 40)
    ∷ []

-- `QualityInd`
abbrev pub quality_ind_members : List Member
quality_ind_members =
    ("block_header", struct block_header_members)
    ∷ ("tow", uint32)
    ∷ ("wnc", uint16)
    ∷ ("n", uint8)
    ∷ ("reserved", uint8)
    ∷ ("indicators", array uint16 40)
    ∷ []

-- `AGCState_t`
abbrev pub agc_state_members : List Member
agc_state_members =
    ("frontend_id", uint8) ∷ ("gain", int8) ∷ ("sample_var", uint8) ∷ ("blanking_stat", uint8) ∷ []

-- `ReceiverStatus`
abbrev pub receiver_status_members : List Member
receiver_status_members =
    ("block_header", struct block_header_members)
    ∷ ("tow", uint32)
    ∷ ("wnc", uint16)
    ∷ ("cpu_load", uint8)
    ∷ ("ext_error", uint8)
    ∷ ("up_time", uint32)
    ∷ ("rx_status", uint32)
    ∷ ("rx_error", uint32)
    ∷ ("n", uint8)
    ∷ ("sb_lngth", uint8)
    ∷ ("cmd_count", uint8)
    ∷ ("temperature", uint8)
    ∷ ("agc_state", array (struct agc_state_members) 18)
    ∷ []
