-- ===== src/Base/Device.antt =====
-- cpp/base/device.h and device.cpp: the state flags that all devices share. The parameters and the
-- logger of a device are left out.
pub mod Laws
use piscsi.Common.{ℕ, Bool, true, false, ◌&&◌, ◌||◌, not, if◌then◌else◌}

-- `PbDeviceType` of proto/s2p_interface.proto
pub data PbDeviceType : Type 0 where
  undefined sahd schd scrm scmo sccd scdp schs sclp scsg sctp : PbDeviceType

pub record Device : Type 0 where
  pub type : PbDeviceType
  pub lun : ℕ
  pub ready : Bool
  pub reset : Bool
  pub attn : Bool
  pub protectable : Bool
  pub write_protected : Bool
  pub read_only : Bool
  pub stoppable : Bool
  pub stopped : Bool
  pub removable : Bool
  pub removed : Bool
  pub locked : Bool

-- The constructor: no flag is set.
unfoldable pub new_device : PbDeviceType → ℕ → Device
new_device t l = record {
  type = t;
  lun = l;
  ready = false;
  reset = false;
  attn = false;
  protectable = false;
  write_protected = false;
  read_only = false;
  stoppable = false;
  stopped = false;
  removable = false;
  removed = false;
  locked = false;
}

unfoldable pub set_protected : Bool → Device → Device
set_protected b d = if d.protectable && not d.read_only then record d { write_protected = b } else d

unfoldable pub start : Device → Bool × Device
start d = if not d.ready then (false, d) else (true, record d { stopped = false })

unfoldable pub stop : Device → Device
stop d = record d { ready = false; attn = false; stopped = true }

unfoldable pub eject : Bool → Device → Bool × Device
eject force d =
    if not d.ready || not d.removable
    then (false, d)
    else if not force && d.locked
    then (false, d)
    else (
      true,
      record d {
        ready = false;
        attn = false;
        removed = true;
        write_protected = false;
        locked = false;
        stopped = true;
      },
    )
