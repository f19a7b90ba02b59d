-- ===== src/RosNode/Tests.antt =====
-- A node that publishes a GPSFix and no attitude.
use rosaic.Prelude.{true, false}
use rosaic.CallbackHandlers.State.{Settings}
use rosaic.RosNode.{Publish}

abbrev publish : Publish
publish = record {
  gpgga = true;
  gprmc = true;
  gpgsa = true;
  gpgsv = true;
  pvtcartesian = true;
  pvtgeodetic = true;
  poscovcartesian = true;
  poscovgeodetic = true;
  atteuler = true;
  attcoveuler = false;
}

abbrev all_on : Settings
all_on = record {
  publish_navsatfix = true;
  publish_pose = true;
  publish_diagnostics = true;
  publish_gpst = true;
  publish_gpsfix = true;
}
