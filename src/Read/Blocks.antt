-- ===== src/Read/Blocks.antt =====
-- The branches of `RxMessage::read` for SBF blocks that are published or kept: stamps, waiting, flags.
use rosaic.Prelude.{ℕ, ◌+◌, ◌*◌, ◌^◌, true, if◌then◌else◌, ◌∷◌}
use rosaic.RxMessage.{RxMessage, byte}
use rosaic.Read.State.{
  RxId, pvt_cartesian, pvt_geodetic, pos_cov_cartesian, pos_cov_geodetic, att_euler, att_cov_euler,
  gpst, channel_status, meas_epoch, dop, vel_cov_geodetic, receiver_status, quality_ind, Event,
  store, slept, published, Node, Env,
}
use rosaic.Time.{Stamp, pause, waits}

-- `*(reinterpret_cast<const uint32_t*>(data_ + 8))`
abbrev pub tow_at : RxMessage → ℕ
tow_at m = byte m 8 + 2 ^ 8 * byte m 9 + 2 ^ 16 * byte m 10 + 2 ^ 24 * byte m 11

abbrev pub note : Event → Node → Node
note event node = record node { events = event ∷ node.events }

-- `memcpy(&last_..., data_, sizeof(last_...))`
abbrev pub stored : RxId → Node → Node
stored id node = note (store id) node

module _ (env : Env) where
  -- "Wait as long as necessary (only when reading from SBF/PCAP file)".
  unfoldable pub wait_until : Stamp → Node → Node
  wait_until stamp node =
      let old = node.unix_time in
      let kept = record node { unix_time = stamp } in
      if env.read_from_file
      then (if waits old stamp then note (slept (pause old stamp)) kept else kept)
      else node

  unfoldable pub publish : RxId → Stamp → Node → Node
  unfolding wait_until
  publish id stamp node = note (published id stamp) (wait_until stamp node)

  -- The stamp of the block at hand.
  abbrev pub block_stamp : Node → Stamp
  block_stamp node = env.timestamp_sbf (tow_at node.rx) env.use_gnss_time

  unfoldable pub read_pvt_cartesian : Node → Node
  unfolding publish
  read_pvt_cartesian node = publish pvt_cartesian (block_stamp node) node

  unfoldable pub read_pvt_geodetic : Node → Node
  unfolding publish
  read_pvt_geodetic node =
      publish pvt_geodetic (block_stamp node) (record (stored pvt_geodetic node) {
        last_tow = tow_at node.rx;
        arrived = record node.arrived {
          pvtgeodetic_gpsfix = true;
          pvtgeodetic_navsatfix = true;
          pvtgeodetic_pose = true;
        };
      })

  unfoldable pub read_pos_cov_cartesian : Node → Node
  unfolding publish
  read_pos_cov_cartesian node = publish pos_cov_cartesian (block_stamp node) node

  unfoldable pub read_pos_cov_geodetic : Node → Node
  unfolding publish
  read_pos_cov_geodetic node =
      publish pos_cov_geodetic (block_stamp node) (record (stored pos_cov_geodetic node) {
        arrived = record node.arrived {
          poscovgeodetic_gpsfix = true;
          poscovgeodetic_navsatfix = true;
          poscovgeodetic_pose = true;
        };
      })

  unfoldable pub read_att_euler : Node → Node
  unfolding publish
  read_att_euler node = publish att_euler (block_stamp node) (record (stored att_euler node) {
    arrived = record node.arrived { atteuler_gpsfix = true; atteuler_pose = true };
  })

  unfoldable pub read_att_cov_euler : Node → Node
  unfolding publish
  read_att_cov_euler node =
      publish att_cov_euler (block_stamp node) (record (stored att_cov_euler node) {
        arrived = record node.arrived { attcoveuler_gpsfix = true; attcoveuler_pose = true };
      })

  unfoldable pub read_gpst : Node → Node
  unfolding publish
  read_gpst node = publish gpst (env.timestamp_sbf (tow_at node.rx) true) node

  unfoldable pub read_channel_status : Node → Node
  read_channel_status node = record (stored channel_status node) {
    arrived = record node.arrived { channelstatus_gpsfix = true };
  }

  unfoldable pub read_meas_epoch : Node → Node
  read_meas_epoch node = record (stored meas_epoch node) {
    arrived = record node.arrived { measepoch_gpsfix = true };
  }

  unfoldable pub read_dop : Node → Node
  read_dop node = record (stored dop node) { arrived = record node.arrived { dop_gpsfix = true } }

  unfoldable pub read_vel_cov_geodetic : Node → Node
  read_vel_cov_geodetic node = record (stored vel_cov_geodetic node) {
    arrived = record node.arrived { velcovgeodetic_gpsfix = true };
  }

  unfoldable pub read_receiver_status : Node → Node
  read_receiver_status node = record (stored receiver_status node) {
    arrived = record node.arrived { receiverstatus_diagnostics = true };
  }

  unfoldable pub read_quality_ind : Node → Node
  read_quality_ind node = record (stored quality_ind node) {
    arrived = record node.arrived { qualityind_diagnostics = true };
  }
