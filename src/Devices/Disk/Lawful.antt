-- ===== src/Devices/Disk/Lawful.antt =====
-- A disk (cpp/devices/disk.cpp) keeps the law that the controller expects of a device.
use piscsi.Common.{
  ℕ, refl, Bool, true, false, not, ◌&&◌, ◌||◌, Option, none, some, List, if_intro, ◌==◌, arith, pos,
}
use piscsi.Scsi.{write_long_10, write_long_16, verify_10, verify_16}
use piscsi.Controllers.State.{opcode, Controller, set_current_length, set_transfer_size}
use piscsi.Controllers.Device.{data_in_phase}
use piscsi.Controllers.Laws.Lines.{IsConsistent, same_bus}
use piscsi.Controllers.Laws.Primary.{
  KeepsConsistent, Result, Kept, keep, ready_then-KeepsConsistent, >>=-KeepsConsistent,
  status_phase-KeepsConsistent, data_in_phase-KeepsConsistent, data_out_phase-KeepsConsistent,
}
use piscsi.Devices.ImageFile.{Block}
use piscsi.Devices.StorageDevice.{update_storage, check_write_preconditions}
use piscsi.Devices.StorageDevice.Laws.{check_write_preconditions-KeepsConsistent}
use piscsi.Devices.Disk.{
  Disks, AccessMode, update_disk, flush_cache, check_range, check_and_get_start_and_count,
  check_address, validate_block_address,
}
use piscsi.Devices.Disk.Access.{
  after_read_sectors, read_next, read_data, after_write_long, after_write_sectors, write_next,
  write_data, start_transfer, read_checked, read, write_verify, write_range, write, verify_checked,
  verify,
}

pub flush_cache-IsConsistent :
    (lun : ℕ) (s : Controller Disks) → IsConsistent s → IsConsistent (flush_cache lun s)
unfolding flush_cache update_disk
flush_cache-IsConsistent lun s c = if_intro IsConsistent _ (same_bus c refl refl) c

check_range-KeepsConsistent : (mode : AccessMode) (lun : ℕ) → KeepsConsistent (check_range mode lun)
unfolding check_range
check_range-KeepsConsistent mode lun s c = if_intro Result _ c c

pub check_and_get_start_and_count-KeepsConsistent :
    (mode : AccessMode) (lun : ℕ) → KeepsConsistent (check_and_get_start_and_count mode lun)
unfolding check_and_get_start_and_count
check_and_get_start_and_count-KeepsConsistent mode lun =
    ready_then-KeepsConsistent lun (check_range mode lun) (check_range-KeepsConsistent mode lun)

check_address-KeepsConsistent :
    (mode : AccessMode) (lun : ℕ) → KeepsConsistent (check_address mode lun)
unfolding check_address
check_address-KeepsConsistent mode lun s c = ground (arith, c)

pub validate_block_address-KeepsConsistent :
    (mode : AccessMode) (lun : ℕ) → KeepsConsistent (validate_block_address mode lun)
unfolding validate_block_address
validate_block_address-KeepsConsistent mode lun =
    ready_then-KeepsConsistent lun (check_address mode lun) (check_address-KeepsConsistent mode lun)

after_read_sectors-KeepsConsistent :
    (lun : ℕ) (blocks : Option (List Block)) → KeepsConsistent (after_read_sectors lun blocks)
unfolding after_read_sectors update_storage update_disk
after_read_sectors-KeepsConsistent lun none s c = c
after_read_sectors-KeepsConsistent lun (some blocks) s c = same_bus c refl refl

read_next-KeepsConsistent : (lun : ℕ) → KeepsConsistent (read_next lun)
unfolding read_next update_disk
read_next-KeepsConsistent lun s c =
    after_read_sectors-KeepsConsistent lun _ _ (same_bus c refl refl)

pub read_data-KeepsConsistent : (lun : ℕ) → KeepsConsistent (read_data lun)
unfolding read_data
read_data-KeepsConsistent lun =
    ready_then-KeepsConsistent lun (read_next lun) (read_next-KeepsConsistent lun)

after_write_long-KeepsConsistent :
    (lun l : ℕ) (good : Bool) → KeepsConsistent (after_write_long lun l good)
unfolding after_write_long update_storage
after_write_long-KeepsConsistent lun l good s c = if_intro Result _ c (same_bus c refl refl)

after_write_sectors-KeepsConsistent :
    (lun l : ℕ) (good : Bool) → KeepsConsistent (after_write_sectors lun l good)
unfolding after_write_sectors update_storage update_disk
after_write_sectors-KeepsConsistent lun l good s c = if_intro Result _ c (same_bus c refl refl)

write_next-KeepsConsistent : (lun l : ℕ) → KeepsConsistent (write_next lun l)
unfolding write_next update_disk
write_next-KeepsConsistent lun l s c =
    let cmd = opcode s in
    let all : Kept (write_next lun l s) =
      if_intro Kept (cmd == write_long_10 || cmd == write_long_16)
        (keep (after_write_long-KeepsConsistent lun l _ _ (same_bus c refl refl)))
        (if_intro Kept (not (cmd == verify_10) && not (cmd == verify_16))
          (keep (after_write_sectors-KeepsConsistent lun l _ _ (same_bus c refl refl)))
          (keep (after_write_sectors-KeepsConsistent lun l true s c))) in
    all.kept

pub write_data-KeepsConsistent : (lun l : ℕ) → KeepsConsistent (write_data lun l)
unfolding write_data
write_data-KeepsConsistent lun l =
    ready_then-KeepsConsistent lun (write_next lun l) (write_next-KeepsConsistent lun l)

start_transfer-IsConsistent :
    (lun start count : ℕ) (s : Controller Disks)
    → IsConsistent s
    → IsConsistent (start_transfer lun start count s)
unfolding start_transfer update_disk set_transfer_size
start_transfer-IsConsistent lun start count s c = same_bus c refl refl

read_checked-KeepsConsistent : (lun : ℕ) (r : Bool × ℕ × ℕ) → KeepsConsistent (read_checked lun r)
unfolding read_checked set_current_length
read_checked-KeepsConsistent lun (false, start, count) s c = status_phase-KeepsConsistent s c
read_checked-KeepsConsistent lun (true, start, count) s c =
    >>=-KeepsConsistent (read_data lun) (λ k. data_in_phase (pos k)) (read_data-KeepsConsistent lun)
      (λ k. data_in_phase-KeepsConsistent (pos k)) _
      (same_bus (start_transfer-IsConsistent lun start count s c) refl refl)

pub read-KeepsConsistent : (mode : AccessMode) (lun : ℕ) → KeepsConsistent (read mode lun)
unfolding read
read-KeepsConsistent mode lun =
    >>=-KeepsConsistent (check_and_get_start_and_count mode lun) (read_checked lun)
      (check_and_get_start_and_count-KeepsConsistent mode lun) (read_checked-KeepsConsistent lun)

write_verify-KeepsConsistent : (lun : ℕ) (r : Bool × ℕ × ℕ) → KeepsConsistent (write_verify lun r)
unfolding write_verify
write_verify-KeepsConsistent lun (false, start, count) s c = status_phase-KeepsConsistent s c
write_verify-KeepsConsistent lun (true, start, count) s c =
    data_out_phase-KeepsConsistent _ _ (start_transfer-IsConsistent lun start count s c)

write_range-KeepsConsistent : (mode : AccessMode) (lun : ℕ) → KeepsConsistent (write_range mode lun)
unfolding write_range
write_range-KeepsConsistent mode lun =
    >>=-KeepsConsistent (check_and_get_start_and_count mode lun) (write_verify lun)
      (check_and_get_start_and_count-KeepsConsistent mode lun) (write_verify-KeepsConsistent lun)

pub write-KeepsConsistent : (mode : AccessMode) (lun : ℕ) → KeepsConsistent (write mode lun)
unfolding write
write-KeepsConsistent mode lun =
    >>=-KeepsConsistent (check_write_preconditions lun) (λ _. write_range mode lun)
      (check_write_preconditions-KeepsConsistent lun) (λ _. write_range-KeepsConsistent mode lun)

verify_checked-KeepsConsistent :
    (lun : ℕ) (r : Bool × ℕ × ℕ) → KeepsConsistent (verify_checked lun r)
unfolding verify_checked
verify_checked-KeepsConsistent lun (b, start, count) s c =
    write_verify-KeepsConsistent lun (false, start, count) _ (flush_cache-IsConsistent lun s c)

pub verify-KeepsConsistent : (mode : AccessMode) (lun : ℕ) → KeepsConsistent (verify mode lun)
unfolding verify
verify-KeepsConsistent mode lun =
    >>=-KeepsConsistent (check_and_get_start_and_count mode lun) (verify_checked lun)
      (check_and_get_start_and_count-KeepsConsistent mode lun) (verify_checked-KeepsConsistent lun)
