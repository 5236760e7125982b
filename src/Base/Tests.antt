-- ===== src/Base/Tests.antt =====
-- Runs of the code under cpp/base.
use piscsi.Common.{true, false}
use piscsi.Base.Device.{Device, PbDeviceType}

-- A CD drive with a medium.
abbrev cd_drive : Device
cd_drive = record {
  type = PbDeviceType.sccd;
  lun = 0;
  ready = true;
  reset = false;
  attn = false;
  protectable = false;
  write_protected = false;
  read_only = true;
  stoppable = true;
  stopped = false;
  removable = true;
  removed = false;
  locked = true;
}
