-- ===== src/Devices/Disk/Media.antt =====
-- Write protection and eject of a disk: cpp/devices/disk.cpp and storage_device.cpp.
use piscsi.Common.{ℕ, ◌≡◌, refl, ap, ◌∙◌, Bool, true, false, Option, none, some, arith}
use piscsi.Scsi.{SenseKey, Asc}
use piscsi.Base.Device
use piscsi.Base.PrimaryDevice.{PrimaryDevice}
use piscsi.Controllers.State.{is_ready, Controller, throw, update_device}
use piscsi.Devices.Cache.{Cache, file}
use piscsi.Devices.StorageDevice.{update_storage, unreserve_file, check_write_preconditions}
use piscsi.Devices.StorageDevice.StartStop.{release_medium, eject_device}
use piscsi.Devices.StorageDevice.StartStop
use piscsi.Devices.Disk.{Disks, AccessMode, reset_cache, update_disk, flush_cache, file_of}
use piscsi.Devices.Disk.Access.{write}
use piscsi.Devices.Disk.Commands.{eject}

-- A write to a protected disk is rejected and changes nothing.
pub write-protected :
    (mode : AccessMode) (lun : ℕ) (s : Controller Disks) (d : PrimaryDevice)
    → s.luns lun ≡ some d
    → d.device.write_protected ≡ true
    → write mode lun s ≡ (throw SenseKey.data_protect Asc.write_protected, s)
unfolding write check_write_preconditions
write-protected mode lun s d e p = ground (arith, e, p)

flush_cache-not_ready :
    (lun : ℕ) (s : Controller Disks) → is_ready lun s ≡ false → flush_cache lun s ≡ s
unfolding flush_cache
flush_cache-not_ready lun s e = ground (arith, e)

release_medium-unit :
    (lun : ℕ) (s : Controller Disks)
    → is_ready lun s ≡ false
    → (release_medium flush_cache (λ l t. update_disk l reset_cache t) lun s).extra.unit lun
      ≡ s.extra.unit lun
unfolding release_medium update_storage unreserve_file
release_medium-unit lun s e = ap (λ t. t.extra.unit lun) (flush_cache-not_ready lun s e)

eject-NotReady :
    (force : Bool) (d : Device.Device)
    → (Device.eject force d).0 ≡ true
    → (Device.eject force d).1.ready ≡ false
unfolding Device.eject
eject-NotReady force d h = ground arith

-- The eject of a disk, in terms of its base classes.
abbrev disk_eject : ℕ → Bool → Option PrimaryDevice → Controller Disks → Bool × Controller Disks
disk_eject = eject_device flush_cache (λ l t. update_disk l reset_cache t)

eject_device-unit :
    (lun : ℕ) (force : Bool) (o : Option PrimaryDevice) (s : Controller Disks)
    → s.luns lun ≡ o
    → (disk_eject lun force o s).0 ≡ true
    → (disk_eject lun force o s).1.extra.unit lun ≡ reset_cache (s.extra.unit lun)
unfolding eject_device update_device update_disk
eject_device-unit lun force none s g h = cc h
eject_device-unit lun force (some d) s g h =
    let r = Device.eject force d.device in
    let s' = update_device lun (λ e. record e { device = r.1 }) s in
    let ejected : r.0 ≡ true = ground arith in
    let stopped : is_ready lun s' ≡ false =
      ground (arith, g, eject-NotReady force d.device ejected) in
    let unit = release_medium-unit lun s' stopped in ground (arith, unit, ejected)

-- An eject that succeeds leaves the image file as it is and drops the cache: what the cache has not
-- saved before is lost.
pub eject-image :
    (lun : ℕ) (force : Bool) (s : Controller Disks) (c : Cache)
    → (s.extra.unit lun).cache ≡ some c
    → (eject lun force s).0 ≡ true
    → (((eject lun force s).1.extra.unit lun).image ≡ file c)
      × (((eject lun force s).1.extra.unit lun).cache ≡ none)
unfolding eject StartStop.eject reset_cache
eject-image lun force s c e h =
    let unit = eject_device-unit lun force (s.luns lun) s refl h in
    (
      ap (λ d. d.image) unit ∙ ap (λ o. file_of o (s.extra.unit lun).image) e,
      ap (λ d. d.cache) unit,
    )
