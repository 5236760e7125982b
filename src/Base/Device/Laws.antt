-- ===== src/Base/Device/Laws.antt =====
-- The medium of a removable device: cpp/base/device.cpp.
use piscsi.Common.{Bool, true, false, ◌≡◌, arith}
use piscsi.Base.Device.{Device, start, eject}

-- Once a medium has been ejected, it is marked as removed, and the device can neither be ejected
-- again, even by force, nor started.
pub eject-start :
    (d : Device) (force again : Bool)
    → (eject force d).0 ≡ true
    → ((eject force d).1.removed ≡ true)
      × ((eject again (eject force d).1).0 ≡ false)
      × ((start (eject force d).1).0 ≡ false)
unfolding eject start
eject-start d force again h = ground arith

-- A locked medium can only be ejected by force, and a refused eject changes nothing.
pub eject-locked :
    (d : Device) → d.locked ≡ true → ((eject false d).0 ≡ false) × ((eject false d).1 ≡ d)
unfolding eject
eject-locked d h = ground arith
