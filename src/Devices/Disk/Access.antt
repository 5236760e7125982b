-- ===== src/Devices/Disk/Access.antt =====
-- Reading and writing of cpp/devices/disk.cpp: the commands that start a transfer, and `ReadData` and
-- `WriteData`, which move the next sectors.
--
-- A length in bytes has 32 bits. As an `int` it is not negative for the model, that is, one transfer
-- is shorter than 2^31 bytes.
use piscsi.Common.{
  ℕ, zero, suc, ◌+◌, ◌*◌, ◌%◌, ◌^◌, Bool, true, false, not, ◌&&◌, ◌||◌, Option, none, some, List,
  [], ◌∷◌, ◌++◌, if◌then◌else◌, ◌==◌, pos, take, drop, write_at,
}
use piscsi.Scsi.{SenseKey, Asc, write_long_10, write_long_16, verify_10, verify_16}
use piscsi.Controllers.State.{
  Controller, ok, throw, Action, ◌>>=◌, ◌>>◌, opcode, set_current_length, set_transfer_size,
}
use piscsi.Controllers.Device.{status_phase, data_in_phase, data_out_phase, check_ready}
use piscsi.Devices.ImageFile.{Block}
use piscsi.Devices.LinuxCache
use piscsi.Devices.Cache.{Cache, track_cache, linux_cache}
use piscsi.Devices.Cache
use piscsi.Devices.StorageDevice.{StorageDevice, update_storage, check_write_preconditions}
use piscsi.Devices.Disk.{
  Disks, AccessMode, is_optimized, with_disk, with_size, update_disk, flush_cache,
  check_and_get_start_and_count,
}

-- The sectors in a buffer, and the bytes of sectors.
unfoldable pub blocks_of : ℕ → ℕ → List ℕ → List Block
blocks_of zero size buf = []
blocks_of (suc n) size buf = take size buf ∷ blocks_of n size (drop size buf)

unfoldable pub concat : List Block → List ℕ
concat [] = []
concat (b ∷ bs) = b ++ concat bs

-- `UpdateReadCount` and `UpdateWriteCount`
abbrev pub update_read_count : ℕ → StorageDevice → StorageDevice
update_read_count n d = record d { block_read_count = (d.block_read_count + n) % 2 ^ 64 }

abbrev pub update_write_count : ℕ → StorageDevice → StorageDevice
update_write_count n d = record d { block_write_count = (d.block_write_count + n) % 2 ^ 64 }

-- A call of the cache; a null pointer counts as a failure.
unfoldable pub read_cache : ℕ → ℕ → Option Cache → Option (List Block) × Option Cache
read_cache start count none = (none, none)
read_cache start count (some c) =
    let (blocks, c') = Cache.read_sectors start count c in (blocks, some c')

unfoldable pub write_cache : List Block → ℕ → ℕ → Option Cache → Bool × Option Cache
write_cache blocks start count none = (false, none)
write_cache blocks start count (some c) =
    let (good, c') = Cache.write_sectors blocks start count c in (good, some c')

abbrev pub set_cache : ℕ → Option Cache → Controller Disks → Controller Disks
set_cache lun c s = update_disk lun (λ d. record d { cache = c }) s

-- `next_sector += sector_transfer_count`
abbrev pub advance : ℕ → Controller Disks → Controller Disks
advance lun s =
    update_disk lun
      (λ d. record d { next_sector = (d.next_sector + d.sector_transfer_count) % 2 ^ 64 }) s

-- `ReadData` after the call of the cache
unfoldable pub after_read_sectors : ℕ → Option (List Block) → Action Disks ℕ
unfolding update_disk update_storage
after_read_sectors lun none s = (throw SenseKey.medium_error Asc.read_error, s)
after_read_sectors lun (some blocks) s =
    let count = (s.extra.unit lun).sector_transfer_count in
    let n = (s.extra.storage lun).block_size * count % 2 ^ 32 in
    let s1 = record s { buffer = write_at s.buffer 0 (concat blocks) } in
    (ok n, update_storage lun (update_read_count count) (advance lun s1))

-- `ReadData`, on a disk that is ready and as a whole.
unfoldable pub read_next : ℕ → Action Disks ℕ
unfolding update_disk
read_next lun = with_disk lun λ d s.
    let (blocks, c) = read_cache (d.next_sector % 2 ^ 32) d.sector_transfer_count d.cache in
    after_read_sectors lun blocks (set_cache lun c s)

unfoldable pub read_data : ℕ → Action Disks ℕ
read_data lun = check_ready lun >> read_next lun

-- `WriteLong`, which only a `LinuxCache` has.
unfoldable pub write_long_cache : List Block → ℕ → ℕ → Option Cache → Bool × Option Cache
write_long_cache blocks start length (some (linux_cache c)) =
    let (good, c') = LinuxCache.write_long blocks start length c in (good, some (linux_cache c'))
write_long_cache blocks start length (some (track_cache c)) = (false, some (track_cache c))
write_long_cache blocks start length none = (false, none)

-- `WriteData` after the call of the cache, for WRITE LONG and for the others; the flag is its result.
unfoldable pub after_write_long : ℕ → ℕ → Bool → Action Disks ℕ
unfolding update_storage
after_write_long lun l good s =
    if not good
    then (throw SenseKey.medium_error Asc.write_fault, s)
    else (ok l, update_storage lun (update_write_count 1) s)

unfoldable pub after_write_sectors : ℕ → ℕ → Bool → Action Disks ℕ
unfolding update_disk update_storage
after_write_sectors lun l good s =
    let count = (s.extra.unit lun).sector_transfer_count in
    if not good
    then (throw SenseKey.medium_error Asc.write_fault, s)
    else (ok l, update_storage lun (update_write_count count) (advance lun s))

-- `WriteData`, in the same way.
unfoldable pub write_next : ℕ → ℕ → Action Disks ℕ
unfolding update_disk
write_next lun l = with_size lun λ st. with_disk lun λ d s.
    let count = d.sector_transfer_count in
    let cmd = opcode s in
    let (written_long, c1) =
      write_long_cache (blocks_of 1 st.block_size s.buffer) d.next_sector s.chunk_size d.cache in
    let (written, c2) =
      write_cache (blocks_of count st.block_size s.buffer) (d.next_sector % 2 ^ 32) count d.cache in
    if cmd == write_long_10 || cmd == write_long_16
    then after_write_long lun l written_long (set_cache lun c1 s)
    else if not (cmd == verify_10) && not (cmd == verify_16)
    then after_write_sectors lun l written (set_cache lun c2 s)
    else after_write_sectors lun l true s

unfoldable pub write_data : ℕ → ℕ → Action Disks ℕ
write_data lun l = check_ready lun >> write_next lun l

-- The start of a transfer of `count` sectors: `next_sector`, `sector_transfer_count` and the sizes.
unfoldable pub start_transfer : ℕ → ℕ → ℕ → Controller Disks → Controller Disks
unfolding update_disk set_transfer_size
start_transfer lun start count s =
    let size = (s.extra.storage lun).block_size in
    let n = if is_optimized (s.extra.unit lun).caching_mode then count else 1 in
    set_transfer_size (count * size % 2 ^ 32) (n * size % 2 ^ 32)
      (update_disk lun (λ d. record d { next_sector = start; sector_transfer_count = n }) s)

-- `Read` after the check of the CDB
unfoldable pub read_checked : ℕ → Bool × ℕ × ℕ → Action Disks (Unit {0})
unfolding set_current_length
read_checked lun (false, _, _) s = status_phase s
read_checked lun (true, start, count) s =
    let n = count * (s.extra.storage lun).block_size % 2 ^ 32 in
    let started = set_current_length (pos n) (start_transfer lun start count s) in
    (read_data lun >>= λ k. data_in_phase (pos k)) started

-- `Read`
unfoldable pub read : AccessMode → ℕ → Action Disks (Unit {0})
read mode lun = check_and_get_start_and_count mode lun >>= read_checked lun

-- `WriteVerify`
unfoldable pub write_verify : ℕ → Bool × ℕ × ℕ → Action Disks (Unit {0})
write_verify lun (false, _, _) s = status_phase s
write_verify lun (true, start, count) s =
    let started = start_transfer lun start count s in
    let n = (started.extra.unit lun).sector_transfer_count in
    data_out_phase (pos (n * (s.extra.storage lun).block_size % 2 ^ 32)) started

-- `Write`, after the check of the write protection and as a whole.
unfoldable pub write_range : AccessMode → ℕ → Action Disks (Unit {0})
write_range mode lun = check_and_get_start_and_count mode lun >>= write_verify lun

unfoldable pub write : AccessMode → ℕ → Action Disks (Unit {0})
write mode lun = check_write_preconditions lun >> write_range mode lun

-- `Verify`: no data are transferred, the cache is flushed.
unfoldable pub verify_checked : ℕ → Bool × ℕ × ℕ → Action Disks (Unit {0})
verify_checked lun (_, start, count) s = write_verify lun (false, start, count) (flush_cache lun s)

unfoldable pub verify : AccessMode → ℕ → Action Disks (Unit {0})
verify mode lun = check_and_get_start_and_count mode lun >>= verify_checked lun
