-- ===== src/Devices/StorageDevice/Validated.antt =====
-- After `ValidateFile` of cpp/devices/storage_device.cpp a device is ready.
use piscsi.Common.{ℕ, ◌*◌, ◌^◌, ◌≡◌, refl, Bool, true, Option, none, some, ltb, arith, if_intro}
use piscsi.Controllers.State.{Controller, update_device, has_device, is_ready}
use piscsi.Devices.StorageDevice.Validation.{validated, validate_storage_file}

pub validate_storage_file-ready :
    {X : Type 0} (lun : ℕ) (size : Option ℕ) (writable : Bool) (s : Controller X)
    → (validate_storage_file lun size writable s).0 ≡ true
    → has_device lun (validate_storage_file lun size writable s).1 ≡ true
    → is_ready lun (validate_storage_file lun size writable s).1 ≡ true
unfolding validate_storage_file validated update_device
validate_storage_file-ready lun none writable s e h = cc e
validate_storage_file-ready lun (some size) writable s e h = ground arith

pub validate_storage_file-extra :
    {X : Type 0} (lun : ℕ) (size : Option ℕ) (writable : Bool) (s : Controller X)
    → (validate_storage_file lun size writable s).1.extra ≡ s.extra
unfolding validate_storage_file update_device
validate_storage_file-extra {X} lun none writable s = refl
validate_storage_file-extra {X} lun (some size) writable s =
    if_intro (λ (r : Bool × Controller X). r.1.extra ≡ s.extra) (ltb (2 * 2 ^ 40) size) refl refl
