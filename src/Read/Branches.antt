-- ===== src/Read/Branches.antt =====
-- The branches of `RxMessage::read` for NMEA sentences and for messages made of several blocks, and
-- the `switch` over all branches.
use rosaic.Prelude.{
  ℕ, ◌+◌, ◌%◌, ◌^◌, Bool, true, false, Option, none, some, if◌then◌else◌, leb, length, drop,
}
use rosaic.MessageKey.{first_token}
use rosaic.Nmea.{Sentence, sentence_of}
use rosaic.RxMessage.{message_text}
use rosaic.Read.State.{
  RxId, nav_sat_fix, gps_fix, pose_with_covariance_stamped, gpgga, gprmc, gpgsa, gpgsv, glgsv,
  gagsv, pvt_cartesian, pvt_geodetic, pos_cov_cartesian, pos_cov_geodetic, att_euler, att_cov_euler,
  gpst, channel_status, meas_epoch, dop, vel_cov_geodetic, diagnostic_array, receiver_status,
  quality_ind, receiver_setup, Node, Env, host_of, Outcome, returned, thrown, fault,
}
use rosaic.Parsers.{Parsed, parsed, refused, out_of_range}
use rosaic.Parsers.Gga as Gga
use rosaic.Parsers.Rmc as Rmc
use rosaic.Parsers.Gsv as Gsv
use rosaic.Parsers.Gsa as Gsa
use rosaic.Time.{Stamp}
use rosaic.Structs.Copies.{
  Copied, copy_size, copied_pvt_cartesian, copied_pvt_geodetic, copied_pos_cov_cartesian,
  copied_pos_cov_geodetic, copied_att_euler, copied_att_cov_euler, copied_channel_status,
  copied_meas_epoch, copied_dop, copied_vel_cov_geodetic, copied_receiver_status,
  copied_quality_ind, copied_receiver_setup,
}
use rosaic.Read.Blocks.{
  publish, block_stamp, read_pvt_cartesian, read_pvt_geodetic, read_pos_cov_cartesian,
  read_pos_cov_geodetic, read_att_euler, read_att_cov_euler, read_gpst, read_channel_status,
  read_meas_epoch, read_dop, read_vel_cov_geodetic, read_receiver_status, read_quality_ind, stored,
}

-- `memcpy` reads as many bytes as the struct has, from the start of the message on: past the end of the
-- memory where it is shorter.
unfoldable pub copying : Copied → Node → Node → Outcome
copying c node node' =
    if leb (copy_size c) (length (drop node.rx.pos node.rx.bytes))
    then returned true node'
    else fault

module _ (env : Env) where
  -- `id` is what `messageID` returns for the sentence.
  abbrev pub sentence : Node → Sentence
  sentence node =
      let message = message_text node.rx in sentence_of (first_token 0x2c message) message

  -- `msg->header.stamp`, zero where the parser of GGA or RMC does not set it.
  abbrev pub header_stamp : Option Stamp → Stamp
  header_stamp none = record { sec = 0; nsec = 0 }
  header_stamp (some stamp) = stamp

  abbrev pub parsed_gga : Node → Parsed (Gga.Gpgga env.Double ℕ)
  parsed_gga node =
      Gga.parse_ascii env.doubles (host_of env) env.strtol env.strtof (sentence node).body

  abbrev pub parsed_rmc : Node → Parsed (Rmc.Gprmc env.Double ℕ × Bool)
  parsed_rmc node =
      Rmc.parse_ascii env.doubles (host_of env) env.strtof env.float_in_mps (sentence node).body

  unfoldable pub read_gpgga : Node → Outcome
  unfolding publish
  read_gpgga node = elim (parsed_gga node) [
    | parsed message ↦ returned true (publish env gpgga (header_stamp message.stamp) node)
    | refused ↦ thrown node
    | out_of_range ↦ fault
  ]

  unfoldable pub read_gprmc : Node → Outcome
  unfolding publish
  read_gprmc node = elim (parsed_rmc node) [
    | parsed (message, was_valid) ↦
        returned true (publish env gprmc (header_stamp message.stamp) node)
    | refused ↦ thrown node
    | out_of_range ↦ fault
  ]

  -- GSA and GSV carry no time: they are stamped by the last PVTGeodetic block.
  abbrev pub last_stamp : Node → Stamp
  last_stamp node = env.timestamp_sbf node.last_tow env.use_gnss_time

  unfoldable pub read_gpgsa : Node → Outcome
  unfolding publish
  read_gpgsa node = elim (Gsa.parse_ascii env.strtol env.strtof (sentence node).body) [
    | parsed message ↦ returned true (publish env gpgsa (last_stamp node) node)
    | refused ↦ thrown node
    | out_of_range ↦ fault
  ]

  unfoldable pub read_gpgsv : Node → Outcome
  unfolding publish
  read_gpgsv node = elim (Gsv.parse_ascii env.strtol env.strtof (sentence node).body) [
    | parsed message ↦ returned true (publish env gpgsv (last_stamp node) node)
    | refused ↦ thrown node
    | out_of_range ↦ fault
  ]

  unfoldable pub read_nav_sat_fix : Node → Node
  unfolding publish
  read_nav_sat_fix node = publish env nav_sat_fix (block_stamp env node) (record node {
    arrived = record node.arrived {
      pvtgeodetic_navsatfix = false;
      poscovgeodetic_navsatfix = false;
    };
  })

  unfoldable pub read_gps_fix : Node → Node
  unfolding publish
  read_gps_fix node = publish env gps_fix (block_stamp env node) (record node {
    count_gpsfix = (node.count_gpsfix + 1) % 2 ^ 32;
    arrived = record node.arrived {
      channelstatus_gpsfix = false;
      measepoch_gpsfix = false;
      dop_gpsfix = false;
      pvtgeodetic_gpsfix = false;
      poscovgeodetic_gpsfix = false;
      velcovgeodetic_gpsfix = false;
      atteuler_gpsfix = false;
      attcoveuler_gpsfix = false;
    };
  })

  unfoldable pub read_pose : Node → Node
  unfolding publish
  read_pose node = publish env pose_with_covariance_stamped (block_stamp env node) (record node {
    arrived = record node.arrived {
      pvtgeodetic_pose = false;
      poscovgeodetic_pose = false;
      atteuler_pose = false;
      attcoveuler_pose = false;
    };
  })

  unfoldable pub read_diagnostic_array : Node → Node
  unfolding publish
  read_diagnostic_array node = publish env diagnostic_array (block_stamp env node) (record node {
    arrived = record node.arrived {
      receiverstatus_diagnostics = false;
      qualityind_diagnostics = false;
    };
  })

  -- The `switch`.
  unfoldable pub branch : RxId → Node → Outcome
  unfolding read_pvt_cartesian read_pvt_geodetic read_pos_cov_cartesian read_pos_cov_geodetic
      read_att_euler read_att_cov_euler read_gpst read_gpgga read_gprmc read_gpgsa read_gpgsv
      read_nav_sat_fix read_gps_fix read_pose read_diagnostic_array read_channel_status
      read_meas_epoch read_dop read_vel_cov_geodetic read_receiver_status read_quality_ind
  branch pvt_cartesian node = copying copied_pvt_cartesian node (read_pvt_cartesian env node)
  branch pvt_geodetic node = copying copied_pvt_geodetic node (read_pvt_geodetic env node)
  branch pos_cov_cartesian node =
      copying copied_pos_cov_cartesian node (read_pos_cov_cartesian env node)
  branch pos_cov_geodetic node =
      copying copied_pos_cov_geodetic node (read_pos_cov_geodetic env node)
  branch att_euler node = copying copied_att_euler node (read_att_euler env node)
  branch att_cov_euler node = copying copied_att_cov_euler node (read_att_cov_euler env node)
  branch gpst node = returned true (read_gpst env node)
  branch gpgga node = read_gpgga node
  branch gprmc node = read_gprmc node
  branch gpgsa node = read_gpgsa node
  branch gpgsv node = read_gpgsv node
  branch glgsv node = read_gpgsv node
  branch gagsv node = read_gpgsv node
  branch nav_sat_fix node = returned true (read_nav_sat_fix node)
  branch gps_fix node = returned true (read_gps_fix node)
  branch pose_with_covariance_stamped node = returned true (read_pose node)
  branch channel_status node = copying copied_channel_status node (read_channel_status env node)
  branch meas_epoch node = copying copied_meas_epoch node (read_meas_epoch env node)
  branch dop node = copying copied_dop node (read_dop env node)
  branch vel_cov_geodetic node =
      copying copied_vel_cov_geodetic node (read_vel_cov_geodetic env node)
  branch diagnostic_array node = returned true (read_diagnostic_array node)
  branch receiver_status node = copying copied_receiver_status node (read_receiver_status env node)
  branch quality_ind node = copying copied_quality_ind node (read_quality_ind env node)
  branch receiver_setup node = copying copied_receiver_setup node (stored receiver_setup node)
