-- ===== src/Devices/Disk/Opening.antt =====
-- How a disk is opened: `ValidateFile` of cpp/devices/disk.cpp, and `Open` of
-- scsi_hd.cpp, sasi_hd.cpp and optical_memory.cpp.
--
-- The size of the image file, none where it cannot be read, and whether the file is writable are
-- arguments. An `IoException` is the result false. The product data are left out.
use piscsi.Common.{
  ℕ, ◌*◌, ◌/◌, ◌%◌, ◌^◌, Bool, true, false, not, ◌&&◌, Option, none, some, if◌then◌else◌, ◌==◌,
}
use piscsi.Controllers.State.{Controller, update_device, is_ready}
use piscsi.Devices.StorageDevice.{set_block_size, update_storage}
use piscsi.Devices.StorageDevice.Validation.{validate_storage_file}
use piscsi.Devices.Disk.{Disks, set_up_cache, update_disk}

-- `SetUpCache` on the disk of a LUN
unfoldable pub set_up_disk_cache : ℕ → Controller Disks → Bool × Controller Disks
unfolding update_disk
set_up_disk_cache lun s =
    let (good, d) = set_up_cache (s.extra.storage lun) (s.extra.unit lun) in
    (good, update_disk lun (λ _. d) s)

-- `Disk::ValidateFile`
unfoldable pub validate_file : ℕ → Option ℕ → Bool → Controller Disks → Bool × Controller Disks
validate_file lun size writable s =
    let (valid, s') = validate_storage_file lun size writable s in
    if (s.extra.storage lun).blocks == 0
    then (false, s)
    else if not valid
    then (false, s')
    else set_up_disk_cache lun s'

-- `Open` of a disk whose size of the sectors is known.
unfoldable pub open_sized : ℕ → ℕ → ℕ → Bool → Controller Disks → Bool × Controller Disks
unfolding update_storage
open_sized lun blocks size writable s =
    validate_file lun (some size) writable
      (update_storage lun (λ d. record d { blocks = blocks }) s)

-- `Open` of a hard disk, with the default size of its sectors: 512 for SCSI, 256 for SASI. The number
-- of sectors has 32 bits.
unfoldable pub open_hard_disk : ℕ → ℕ → Option ℕ → Bool → Controller Disks → Bool × Controller Disks
unfolding update_storage
open_hard_disk default_size lun size writable s =
    let configured = (s.extra.storage lun).configured_block_size in
    let wanted = if configured == 0 then default_size else configured in
    let (accepted, d) = set_block_size wanted (s.extra.storage lun) in
    let s1 = update_storage lun (λ _. d) s in
    if not accepted then (false, s) else elim size [
      | none ↦ (false, s1)
      | some n ↦ open_sized lun (n / d.block_size % 2 ^ 32) n writable s1
    ]

-- `geometries` of `OpticalMemory`: the size and the number of the sectors for a capacity.
unfoldable pub geometry : ℕ → Option (ℕ × ℕ)
geometry capacity =
    if capacity == 512 * 248826
    then some (512, 248826)
    else if capacity == 512 * 446325
    then some (512, 446325)
    else if capacity == 512 * 1041500
    then some (512, 1041500)
    else if capacity == 2048 * 310352
    then some (2048, 310352)
    else none

-- `SetGeometryForCapacity`, and `Open` up to `ValidateFile`.
unfoldable pub open_geometry :
    Option (ℕ × ℕ) → ℕ → ℕ → Bool → Controller Disks → Bool × Controller Disks
unfolding update_storage
open_geometry (some (block_size, blocks)) lun size writable s =
    open_sized lun blocks size writable
      (update_storage lun (λ d. (set_block_size block_size d).1) s)
open_geometry none lun size writable s =
    let configured = (s.extra.storage lun).configured_block_size in
    let wanted = if configured == 0 then 512 else configured in
    let (accepted, d) = set_block_size wanted (s.extra.storage lun) in
    if not accepted
    then (false, s)
    else open_sized lun (size / d.block_size) size writable (update_storage lun (λ _. d) s)

-- `OpticalMemory::Open`
unfoldable pub open_optical_memory :
    ℕ → Option ℕ → Bool → Controller Disks → Bool × Controller Disks
unfolding open_geometry geometry update_device
open_optical_memory lun none writable s = (false, s)
open_optical_memory lun (some size) writable s =
    let (good, s') = open_geometry (geometry size) lun size writable s in
    let attentive =
      update_device lun (λ d. record d { device = record (d.device) { attn = true } }) s' in
    (good, if good && is_ready lun s' then attentive else s')
