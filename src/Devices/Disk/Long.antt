-- ===== src/Devices/Disk/Long.antt =====
-- READ LONG and WRITE LONG of cpp/devices/disk.cpp: a single sector with no cache between.
use piscsi.Common.{
  ℕ, ◌+◌, ◌-◌, ◌%◌, ◌^◌, Bool, true, false, not, Option, none, some, List, if◌then◌else◌, ◌==◌, pos,
  write_at,
}
use piscsi.Scsi.{SenseKey, Asc}
use piscsi.Shared.MemoryUtil.{get_int16}
use piscsi.Base.PrimaryDevice.{set_ili, set_information}
use piscsi.Controllers.State.{
  Controller, ok, throw, Action, ◌>>=◌, ◌>>◌, set_current_length, set_transfer_size, update_device,
}
use piscsi.Controllers.Device.{status_phase, data_in_phase, data_out_phase, check_ready}
use piscsi.Devices.ImageFile.{Block}
use piscsi.Devices.LinuxCache
use piscsi.Devices.Cache.{Cache, track_cache, linux_cache}
use piscsi.Devices.StorageDevice.{update_storage, check_write_preconditions}
use piscsi.Devices.Disk.{
  Disks, PbCachingMode, AccessMode, with_size, update_disk, init_cache, flush_cache,
  validate_block_address,
}
use piscsi.Devices.Disk.Access.{concat, set_cache, update_read_count}

abbrev pub is_linux_cache : Option Cache → Bool
is_linux_cache (some (linux_cache c)) = true
is_linux_cache (some (track_cache c)) = false
is_linux_cache none = false

-- The change to a `LinuxCache` in `ReadWriteLong`.
unfoldable pub use_linux_cache : ℕ → Controller Disks → Controller Disks
unfolding update_disk flush_cache
use_linux_cache lun s =
    if is_linux_cache (s.extra.unit lun).cache
    then s
    else update_disk lun
        (λ d.
          (init_cache (s.extra.storage lun) (record d { caching_mode = PbCachingMode.linux })).1)
        (flush_cache lun s)

unfoldable pub read_long_cache : ℕ → ℕ → Option Cache → Option (List Block) × Option Cache
read_long_cache sector length (some (linux_cache c)) =
    let (blocks, c') = LinuxCache.read_long sector length c in (blocks, some (linux_cache c'))
read_long_cache sector length (some (track_cache c)) = (none, some (track_cache c))
read_long_cache sector length none = (none, none)

-- READ LONG after the call of the cache: a failure transfers nothing.
unfoldable pub after_read_long : ℕ → Option (List Block) → Action Disks (Unit {0})
after_read_long length none s = data_in_phase (pos 0) s
after_read_long length (some blocks) s =
    data_in_phase (pos length) (record s { buffer = write_at s.buffer 0 (concat blocks) })

unfoldable pub read_long : ℕ → ℕ → ℕ → Action Disks (Unit {0})
unfolding update_disk update_storage set_current_length
read_long lun sector length s =
    let s1 = set_current_length (pos length) (update_storage lun (update_read_count 1) s) in
    let (blocks, c) = read_long_cache sector length (s1.extra.unit lun).cache in
    after_read_long length blocks (set_cache lun c s1)

unfoldable pub write_long : ℕ → ℕ → ℕ → Action Disks (Unit {0})
unfolding update_disk
write_long lun sector length s =
    data_out_phase (pos length) (update_disk lun (λ d. record d { next_sector = sector }) s)

-- The transfer of `ReadWriteLong` on a disk that is ready
unfoldable pub start_long : ℕ → ℕ → ℕ → Bool → Action Disks (Unit {0})
unfolding set_transfer_size
start_long lun sector length write s =
    let s1 = set_transfer_size length length s in
    if write then write_long lun sector length s1 else read_long lun sector length s1

-- `ReadWriteLong` after the check of the write protection
unfoldable pub transfer_long : ℕ → ℕ → ℕ → Bool → Action Disks (Unit {0})
unfolding update_device
transfer_long lun sector length write = with_size lun λ st s.
    let difference = (length + 2 ^ 32 - st.block_size) % 2 ^ 32 in
    let rejected = update_device lun (λ d. set_information difference (set_ili d)) s in
    let accepted = check_ready lun >> start_long lun sector length write in
    if length == 0
    then status_phase s
    else if not (length == st.block_size)
    then (throw SenseKey.illegal_request Asc.invalid_field_in_cdb, rejected)
    else accepted (use_linux_cache lun s)

unfoldable pub check_long : ℕ → Bool → Action Disks (Unit {0})
check_long lun true s = check_write_preconditions lun s
check_long lun false s = (ok tt, s)

-- `ReadWriteLong`
unfoldable pub read_write_long : ℕ → ℕ → Bool → ℕ → Action Disks (Unit {0})
read_write_long lun length write sector =
    check_long lun write >> transfer_long lun sector length write

-- READ LONG and WRITE LONG, with the length at byte `i` of the CDB.
unfoldable pub long_command : AccessMode → ℕ → Bool → ℕ → Action Disks (Unit {0})
long_command mode i write lun s =
    (validate_block_address mode lun >>= read_write_long lun (get_int16 s.cdb i) write) s
