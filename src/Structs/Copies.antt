-- ===== src/Structs/Copies.antt =====
-- communication/rx_message.cpp: `read` copies as many bytes as a struct has, however long the block is,
-- from the memory that it was handed.
use rosaic.Prelude.{ℕ, ◌≤◌, ◌≡◌, refl, arith, true, leb}
use rosaic.Structs.{sizeof, end_of, align_of}
use rosaic.Structs.Layout.{
  Struct, members_of, pvt_cartesian_struct, pvt_geodetic_struct, pos_cov_cartesian_struct,
  pos_cov_geodetic_struct, att_euler_struct, att_cov_euler_struct, channel_status_struct,
  meas_epoch_struct, dop_struct, vel_cov_geodetic_struct, receiver_status_struct,
  quality_ind_struct, receiver_setup_struct,
}

-- The structs that `read` copies a block into.
pub data Copied : Type 0 where
  copied_pvt_cartesian copied_pvt_geodetic copied_pos_cov_cartesian copied_pos_cov_geodetic
        copied_att_euler copied_att_cov_euler copied_channel_status copied_meas_epoch copied_dop
        copied_vel_cov_geodetic copied_receiver_status copied_quality_ind copied_receiver_setup :
      Copied

abbrev pub copied_into : Copied → Struct
copied_into copied_pvt_cartesian = pvt_cartesian_struct
copied_into copied_pvt_geodetic = pvt_geodetic_struct
copied_into copied_pos_cov_cartesian = pos_cov_cartesian_struct
copied_into copied_pos_cov_geodetic = pos_cov_geodetic_struct
copied_into copied_att_euler = att_euler_struct
copied_into copied_att_cov_euler = att_cov_euler_struct
copied_into copied_channel_status = channel_status_struct
copied_into copied_meas_epoch = meas_epoch_struct
copied_into copied_dop = dop_struct
copied_into copied_vel_cov_geodetic = vel_cov_geodetic_struct
copied_into copied_receiver_status = receiver_status_struct
copied_into copied_quality_ind = quality_ind_struct
copied_into copied_receiver_setup = receiver_setup_struct

-- How many bytes `memcpy` reads.
abbrev pub copy_size : Copied → ℕ
copy_size c = sizeof (members_of (copied_into c))

-- The largest struct, MeasEpoch.
abbrev pub largest_copy : ℕ
largest_copy = 21080

small : (n : ℕ) → leb n largest_copy ≡ true → n ≤ largest_copy
small n e = ground (arith, e)

pub copy_size_small : (c : Copied) → copy_size c ≤ largest_copy
unfolding sizeof end_of align_of
copy_size_small copied_pvt_cartesian = small _ refl
copy_size_small copied_pvt_geodetic = small _ refl
copy_size_small copied_pos_cov_cartesian = small _ refl
copy_size_small copied_pos_cov_geodetic = small _ refl
copy_size_small copied_att_euler = small _ refl
copy_size_small copied_att_cov_euler = small _ refl
copy_size_small copied_channel_status = small _ refl
copy_size_small copied_meas_epoch = small _ refl
copy_size_small copied_dop = small _ refl
copy_size_small copied_vel_cov_geodetic = small _ refl
copy_size_small copied_receiver_status = small _ refl
copy_size_small copied_quality_ind = small _ refl
copy_size_small copied_receiver_setup = small _ refl

pub meas_epoch_largest : copy_size copied_meas_epoch ≡ largest_copy
unfolding sizeof end_of align_of
meas_epoch_largest = refl
