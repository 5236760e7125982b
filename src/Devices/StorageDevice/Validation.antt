-- ===== src/Devices/StorageDevice/Validation.antt =====
-- `ValidateFile` of cpp/devices/storage_device.cpp.
--
-- The size of the image file, none where it cannot be read, and whether the file is writable are
-- arguments. An `IoException` is the result false. The product data are left out.
use piscsi.Common.{ℕ, ◌*◌, ◌^◌, Bool, true, false, not, Option, none, some, if◌then◌else◌, ltb}
use piscsi.Base.Device.{Device, set_protected}
use piscsi.Controllers.State.{Controller, update_device}

-- The flags that `StorageDevice::ValidateFile` sets.
unfoldable pub validated : Bool → Device → Device
unfolding set_protected
validated writable d =
    let r = record d { read_only = true; protectable = false } in
    let e = if not writable then set_protected false r else d in
    record e { stopped = false; removed = false; locked = false; ready = true }

-- `StorageDevice::ValidateFile`: at most 2 TiB.
unfoldable pub validate_storage_file :
    {X : Type 0} → ℕ → Option ℕ → Bool → Controller X → Bool × Controller X
unfolding validated update_device
validate_storage_file lun none writable s = (false, s)
validate_storage_file lun (some size) writable s =
    if ltb (2 * 2 ^ 40) size
    then (false, s)
    else (true, update_device lun (λ d. record d { device = validated writable d.device }) s)
