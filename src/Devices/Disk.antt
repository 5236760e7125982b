-- ===== src/Devices/Disk.antt =====
-- cpp/devices/disk.h and .cpp: the state of a disk, its cache, and the checks of a CDB.
--
-- The file with the image is that of the cache; without a cache it is a field of the disk. A pointer
-- that is null where the source uses it is an error of the call, which no path reaches.
pub mod Access
pub mod Lawful
pub mod LawfulCommands
pub mod LawfulHandlers
pub mod Ranges
pub mod Sectors
pub mod Media
pub mod Capacities
pub mod BlockSize
pub mod Opening
pub mod Validated
pub mod Opened
pub mod Tests
pub mod Long
pub mod Capacity
pub mod Commands
use piscsi.Common.{
  ℕ, ◌+◌, ◌*◌, ◌/◌, ◌%◌, ◌^◌, Bool, true, false, not, ◌&&◌, ◌||◌, Option, none, some, List, [], ◌∷◌,
  if◌then◌else◌, ltb, leb, ◌==◌, test_bit, get_or, map,
}
use piscsi.Scsi.{SenseKey, Asc}
use piscsi.Shared.MemoryUtil.{get_int16, get_int24, get_int32, get_int64}
use piscsi.Controllers.State.{
  is_ready, Controller, ok, throw, Action, ◌>>=◌, ◌>>◌, run, get_cdb_byte,
}
use piscsi.Controllers.Device.{check_ready}
use piscsi.Devices.ImageFile.{Block, ImageFile}
use piscsi.Devices.DiskCache
use piscsi.Devices.LinuxCache
use piscsi.Devices.LinuxCache.{LinuxCache}
use piscsi.Devices.Cache.{Cache, track_cache, linux_cache, file}
use piscsi.Devices.Cache
use piscsi.Devices.StorageDevice.{
  StorageDevice, Storages, contains, is_unnamed, update_storage, change_block_size,
}

-- `PbCachingMode` of proto/s2p_interface.proto; `piscsi_mode` is its `PISCSI`.
pub data PbCachingMode : Type 0 where
  default piscsi_mode write_through linux linux_optimized : PbCachingMode

pub data AccessMode : Type 0 where
  rw6 rw10 rw16 seek6 seek10 : AccessMode

pub record Disk : Type 0 where
  pub image : ImageFile
  pub cache : Option Cache
  pub caching_mode : PbCachingMode
  pub next_sector : ℕ
  pub sector_transfer_count : ℕ

abbrev pub is_piscsi : PbCachingMode → Bool
is_piscsi PbCachingMode.piscsi_mode = true
is_piscsi _ = false

abbrev pub is_write_through : PbCachingMode → Bool
is_write_through PbCachingMode.write_through = true
is_write_through _ = false

abbrev pub is_optimized : PbCachingMode → Bool
is_optimized PbCachingMode.linux_optimized = true
is_optimized _ = false

-- The file behind the cache, or without one.
abbrev pub file_of : Option Cache → ImageFile → ImageFile
file_of none f = f
file_of (some c) f = file c

-- `cache.reset()`: what the cache has not written is lost.
unfoldable pub reset_cache : Disk → Disk
reset_cache d = record d { image = file_of d.cache d.image; cache = none }

-- The cache that `InitCache` makes, and the result of its `Init`.
unfoldable pub make_cache : PbCachingMode → Bool → ImageFile → StorageDevice → Bool × Cache
make_cache mode has_filename f d =
    let tracks = DiskCache.new_cache f d.blocks in
    let direct : LinuxCache = record {
      file = f;
      has_filename = has_filename;
      sector_size = d.block_size;
      sectors = d.blocks;
      write_through = is_write_through mode;
      read_error_count = 0;
      write_error_count = 0;
    } in
    let (good, direct') = LinuxCache.init direct in
    if is_piscsi mode
    then (DiskCache.init has_filename tracks, track_cache tracks)
    else (good, linux_cache direct')

-- `InitCache`
unfoldable pub init_cache : StorageDevice → Disk → Bool × Disk
unfolding make_cache
init_cache storage d =
    let f = file_of d.cache d.image in
    let (good, cache') = make_cache d.caching_mode (not (is_unnamed storage.filename)) f storage in
    (good, record d { cache = some cache' })

-- `SetUpCache`
unfoldable pub set_up_cache : StorageDevice → Disk → Bool × Disk
set_up_cache storage d = init_cache storage (
    if not (contains storage.block_size storage.supported_block_sizes) && is_piscsi d.caching_mode
    then record d { caching_mode = PbCachingMode.linux }
    else d)

abbrev pub Disks : Type 0
Disks = Storages Disk

abbrev pub with_disk : {A : Type 0} → ℕ → (Disk → Action Disks A) → Action Disks A
with_disk lun f s = f (s.extra.unit lun) s

abbrev pub with_size : {A : Type 0} → ℕ → (StorageDevice → Action Disks A) → Action Disks A
with_size lun f s = f (s.extra.storage lun) s

unfoldable pub update_disk : ℕ → (Disk → Disk) → Controller Disks → Controller Disks
update_disk lun f s = record s {
  extra = record (s.extra) { unit = λ l. if l == lun then f (s.extra.unit l) else s.extra.unit l };
}

abbrev pub flushed : Option Cache → Option Cache
flushed none = none
flushed (some c) = some (Cache.flush c).1

-- `FlushCache`: whether the cache could save its sectors is not asked.
unfoldable pub flush_cache : ℕ → Controller Disks → Controller Disks
unfolding update_disk
flush_cache lun s =
    if is_ready lun s then update_disk lun (λ d. record d { cache = flushed d.cache }) s else s

-- The start sector and the count in a CDB.
unfoldable pub cdb_start : AccessMode → Controller Disks → ℕ
cdb_start AccessMode.rw6 s = get_int24 s.cdb 1
cdb_start AccessMode.seek6 s = get_int24 s.cdb 1
cdb_start AccessMode.rw16 s = get_int64 s.cdb 2
cdb_start _ s = get_int32 s.cdb 2

abbrev six_byte_count : ℕ → ℕ
six_byte_count n = if n == 0 then 256 else n

unfoldable pub cdb_count : AccessMode → Controller Disks → ℕ
cdb_count AccessMode.rw6 s = six_byte_count (get_cdb_byte 4 s)
cdb_count AccessMode.seek6 s = six_byte_count (get_cdb_byte 4 s)
cdb_count AccessMode.rw16 s = get_int32 s.cdb 10
cdb_count AccessMode.rw10 s = get_int16 s.cdb 7
cdb_count AccessMode.seek10 s = 0

abbrev pub is_seek : AccessMode → Bool
is_seek AccessMode.seek6 = true
is_seek AccessMode.seek10 = true
is_seek _ = false

-- `CheckAndGetStartAndCount`, on a disk that is ready and as a whole: the sum has 64 bits.
unfoldable pub check_range : AccessMode → ℕ → Action Disks (Bool × ℕ × ℕ)
check_range mode lun = with_size lun λ d s.
    let start = cdb_start mode s in
    let count = cdb_count mode s in
    if d.blocks == 0 || ltb d.blocks ((start + count) % 2 ^ 64)
    then (throw SenseKey.illegal_request Asc.lba_out_of_range, s)
    else (ok (not (count == 0) || is_seek mode, start, count), s)

unfoldable pub check_and_get_start_and_count : AccessMode → ℕ → Action Disks (Bool × ℕ × ℕ)
check_and_get_start_and_count mode lun = check_ready lun >> check_range mode lun

abbrev is_rw10 : AccessMode → Bool
is_rw10 AccessMode.rw10 = true
is_rw10 _ = false

-- `ValidateBlockAddress`, which is called with `RW10` and `RW16`, in the same way.
unfoldable pub check_address : AccessMode → ℕ → Action Disks ℕ
check_address mode lun = with_size lun λ d s.
    let sector = cdb_start mode s in
    if is_rw10 mode && test_bit 0 (get_cdb_byte 1 s)
    then (throw SenseKey.illegal_request Asc.invalid_field_in_cdb, s)
    else if leb d.blocks sector
    then (throw SenseKey.illegal_request Asc.lba_out_of_range, s)
    else (ok sector, s)

unfoldable pub validate_block_address : AccessMode → ℕ → Action Disks ℕ
validate_block_address mode lun = check_ready lun >> check_address mode lun
