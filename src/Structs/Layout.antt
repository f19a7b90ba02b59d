-- ===== src/Structs/Layout.antt =====
-- The structs of packed_structs/sbf_structs.hpp with their members.
use rosaic.Prelude.{List}
use rosaic.Structs.{Member}
use rosaic.Structs.Solutions.{
  block_header_members, pvt_cartesian_members, pvt_geodetic_members, att_euler_members,
  att_cov_euler_members, dop_members, pos_cov_cartesian_members, pos_cov_geodetic_members,
  vel_cov_cartesian_members, vel_cov_geodetic_members,
}
use rosaic.Structs.Receiver.{
  channel_state_info_members, channel_sat_info_members, channel_status_members,
  meas_epoch_channel_type2_members, meas_epoch_channel_type1_members, meas_epoch_members,
  receiver_setup_members, quality_ind_members, agc_state_members, receiver_status_members,
}

-- The structs of the file.
pub data Struct : Type 0 where
  block_header_struct pvt_cartesian_struct pvt_geodetic_struct att_euler_struct att_cov_euler_struct
        channel_state_info_struct channel_sat_info_struct channel_status_struct
        meas_epoch_channel_type2_struct meas_epoch_channel_type1_struct meas_epoch_struct dop_struct
        receiver_setup_struct quality_ind_struct agc_state_struct receiver_status_struct
        pos_cov_cartesian_struct pos_cov_geodetic_struct vel_cov_cartesian_struct
        vel_cov_geodetic_struct :
      Struct

abbrev pub members_of : Struct → List Member
members_of block_header_struct = block_header_members
members_of pvt_cartesian_struct = pvt_cartesian_members
members_of pvt_geodetic_struct = pvt_geodetic_members
members_of att_euler_struct = att_euler_members
members_of att_cov_euler_struct = att_cov_euler_members
members_of channel_state_info_struct = channel_state_info_members
members_of channel_sat_info_struct = channel_sat_info_members
members_of channel_status_struct = channel_status_members
members_of meas_epoch_channel_type2_struct = meas_epoch_channel_type2_members
members_of meas_epoch_channel_type1_struct = meas_epoch_channel_type1_members
members_of meas_epoch_struct = meas_epoch_members
members_of dop_struct = dop_members
members_of receiver_setup_struct = receiver_setup_members
members_of quality_ind_struct = quality_ind_members
members_of agc_state_struct = agc_state_members
members_of receiver_status_struct = receiver_status_members
members_of pos_cov_cartesian_struct = pos_cov_cartesian_members
members_of pos_cov_geodetic_struct = pos_cov_geodetic_members
members_of vel_cov_cartesian_struct = vel_cov_cartesian_members
members_of vel_cov_geodetic_struct = vel_cov_geodetic_members
