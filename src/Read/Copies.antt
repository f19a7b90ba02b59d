-- ===== src/Read/Copies.antt =====
-- communication/rx_message.cpp: which memory the cases of `read` need that copy a block into a struct.
use rosaic.Structs.Copies.{
  Copied, copied_pvt_cartesian, copied_pvt_geodetic, copied_pos_cov_cartesian,
  copied_pos_cov_geodetic, copied_att_euler, copied_att_cov_euler, copied_channel_status,
  copied_meas_epoch, copied_dop, copied_vel_cov_geodetic, copied_receiver_status,
  copied_quality_ind, copied_receiver_setup,
}
use rosaic.Read.State.{
  RxId, pvt_cartesian, pvt_geodetic, pos_cov_cartesian, pos_cov_geodetic, att_euler, att_cov_euler,
  channel_status, meas_epoch, dop, vel_cov_geodetic, receiver_status, quality_ind, receiver_setup,
}

-- The case of the `switch` that copies into a struct.
abbrev pub id_copied : Copied → RxId
id_copied copied_pvt_cartesian = pvt_cartesian
id_copied copied_pvt_geodetic = pvt_geodetic
id_copied copied_pos_cov_cartesian = pos_cov_cartesian
id_copied copied_pos_cov_geodetic = pos_cov_geodetic
id_copied copied_att_euler = att_euler
id_copied copied_att_cov_euler = att_cov_euler
id_copied copied_channel_status = channel_status
id_copied copied_meas_epoch = meas_epoch
id_copied copied_dop = dop
id_copied copied_vel_cov_geodetic = vel_cov_geodetic
id_copied copied_receiver_status = receiver_status
id_copied copied_quality_ind = quality_ind
id_copied copied_receiver_setup = receiver_setup
