-- ===== src/Devices/Disk/LawfulCommands.antt =====
-- READ LONG, WRITE LONG, the capacities and the other commands of cpp/devices/disk.cpp keep the law
-- that the controller expects of a device.
use piscsi.Common.{
  ℕ, ◌%◌, ◌^◌, refl, Bool, true, false, not, Option, none, some, List, if_intro, ◌==◌,
}
use piscsi.Shared.MemoryUtil.{get_int16}
use piscsi.Controllers.State.{
  Controller, get_cdb_byte, update_device, set_current_length, set_transfer_size,
}
use piscsi.Controllers.Laws.Lines.{IsConsistent, same_bus}
use piscsi.Controllers.Laws.Primary.{
  KeepsConsistent, Result, Kept, keep, with_device-KeepsConsistent, ready_then-KeepsConsistent,
  >>=-KeepsConsistent, status_phase-KeepsConsistent, data_in_phase-KeepsConsistent,
  data_out_phase-KeepsConsistent,
}
use piscsi.Devices.ImageFile.{Block}
use piscsi.Devices.StorageDevice.{update_storage, check_write_preconditions}
use piscsi.Devices.StorageDevice.Laws.{check_write_preconditions-KeepsConsistent}
use piscsi.Devices.StorageDevice
use piscsi.Devices.Disk.{Disks, AccessMode, update_disk, validate_block_address}
use piscsi.Devices.Disk.Long.{
  use_linux_cache, after_read_long, read_long, write_long, start_long, transfer_long, check_long,
  read_write_long, long_command,
}
use piscsi.Devices.Disk.Capacity.{
  list_format_capacities, accept_format, format_unit_command, read_defect_data_10_command,
  report_capacity_10, read_capacity_10_command, report_capacity_16, read_capacity_16_command,
  report_format_capacities, read_format_capacities_command, read_capacity_16_read_long_16_command,
}
use piscsi.Devices.Disk.Commands.{change_block_size, flush_command}
use piscsi.Devices.Disk.Lawful.{flush_cache-IsConsistent, validate_block_address-KeepsConsistent}

use_linux_cache-IsConsistent :
    (lun : ℕ) (s : Controller Disks) → IsConsistent s → IsConsistent (use_linux_cache lun s)
unfolding use_linux_cache update_disk
use_linux_cache-IsConsistent lun s c =
    if_intro IsConsistent _ c (same_bus (flush_cache-IsConsistent lun s c) refl refl)

after_read_long-KeepsConsistent :
    (n : ℕ) (blocks : Option (List Block)) → KeepsConsistent (after_read_long n blocks)
unfolding after_read_long
after_read_long-KeepsConsistent n none s c = data_in_phase-KeepsConsistent _ s c
after_read_long-KeepsConsistent n (some blocks) s c =
    data_in_phase-KeepsConsistent _ _ (same_bus c refl refl)

read_long-KeepsConsistent : (lun sector n : ℕ) → KeepsConsistent (read_long lun sector n)
unfolding read_long update_storage update_disk set_current_length
read_long-KeepsConsistent lun sector n s c =
    after_read_long-KeepsConsistent n _ _ (same_bus c refl refl)

write_long-KeepsConsistent : (lun sector n : ℕ) → KeepsConsistent (write_long lun sector n)
unfolding write_long update_disk
write_long-KeepsConsistent lun sector n s c =
    data_out_phase-KeepsConsistent _ _ (same_bus c refl refl)

start_long-KeepsConsistent :
    (lun sector n : ℕ) (write : Bool) → KeepsConsistent (start_long lun sector n write)
unfolding start_long set_transfer_size
start_long-KeepsConsistent lun sector n true s c =
    write_long-KeepsConsistent lun sector n _ (same_bus c refl refl)
start_long-KeepsConsistent lun sector n false s c =
    read_long-KeepsConsistent lun sector n _ (same_bus c refl refl)

transfer_long-KeepsConsistent :
    (lun sector n : ℕ) (write : Bool) → KeepsConsistent (transfer_long lun sector n write)
unfolding transfer_long update_device
transfer_long-KeepsConsistent lun sector n write s c =
    let started =
      ready_then-KeepsConsistent lun (start_long lun sector n write)
        (start_long-KeepsConsistent lun sector n write) in
    let all : Kept (transfer_long lun sector n write s) =
      if_intro Kept (n == 0) (keep (status_phase-KeepsConsistent s c)) (
        if_intro Kept (not (n == (s.extra.storage lun).block_size)) (keep (same_bus c refl refl))
          (keep (started _ (use_linux_cache-IsConsistent lun s c)))) in
    all.kept

check_long-KeepsConsistent : (lun : ℕ) (write : Bool) → KeepsConsistent (check_long lun write)
unfolding check_long
check_long-KeepsConsistent lun true s c = check_write_preconditions-KeepsConsistent lun s c
check_long-KeepsConsistent lun false s c = c

read_write_long-KeepsConsistent :
    (lun n : ℕ) (write : Bool) (sector : ℕ) → KeepsConsistent (read_write_long lun n write sector)
unfolding read_write_long
read_write_long-KeepsConsistent lun n write sector =
    >>=-KeepsConsistent (check_long lun write) (λ _. transfer_long lun sector n write)
      (check_long-KeepsConsistent lun write) (λ _. transfer_long-KeepsConsistent lun sector n write)

pub long_command-KeepsConsistent :
    (mode : AccessMode) (i : ℕ) (write : Bool) (lun : ℕ)
    → KeepsConsistent (long_command mode i write lun)
unfolding long_command
long_command-KeepsConsistent mode i write lun s c =
    >>=-KeepsConsistent (validate_block_address mode lun)
      (read_write_long lun (get_int16 s.cdb i) write)
      (validate_block_address-KeepsConsistent mode lun)
      (read_write_long-KeepsConsistent lun (get_int16 s.cdb i) write) s c

pub format_unit_command-KeepsConsistent : (lun : ℕ) → KeepsConsistent (format_unit_command lun)
unfolding format_unit_command accept_format
format_unit_command-KeepsConsistent lun =
    ready_then-KeepsConsistent lun (accept_format lun)
      λ s c. if_intro Result _ c (status_phase-KeepsConsistent s c)

pub read_defect_data_10_command-KeepsConsistent : KeepsConsistent read_defect_data_10_command
unfolding read_defect_data_10_command set_current_length
read_defect_data_10_command-KeepsConsistent s c =
    data_in_phase-KeepsConsistent _ _ (same_bus c refl refl)

pub read_capacity_10_command-KeepsConsistent :
    (lun : ℕ) → KeepsConsistent (read_capacity_10_command lun)
unfolding read_capacity_10_command report_capacity_10
read_capacity_10_command-KeepsConsistent lun =
    ready_then-KeepsConsistent lun (report_capacity_10 lun)
      λ s c. if_intro Result _ c (data_in_phase-KeepsConsistent _ _ (same_bus c refl refl))

read_capacity_16_command-KeepsConsistent :
    (lun : ℕ) → KeepsConsistent (read_capacity_16_command lun)
unfolding read_capacity_16_command report_capacity_16
read_capacity_16_command-KeepsConsistent lun =
    ready_then-KeepsConsistent lun (report_capacity_16 lun)
      λ s c. if_intro Result _ c (data_in_phase-KeepsConsistent _ _ (same_bus c refl refl))

pub read_format_capacities_command-KeepsConsistent :
    (lun : ℕ) → KeepsConsistent (read_format_capacities_command lun)
unfolding read_format_capacities_command report_format_capacities list_format_capacities
read_format_capacities_command-KeepsConsistent lun =
    ready_then-KeepsConsistent lun (report_format_capacities lun) (
      with_device-KeepsConsistent lun (list_format_capacities lun)
        (λ p s c. data_in_phase-KeepsConsistent _ _ (same_bus c refl refl)))

pub read_capacity_16_read_long_16_command-KeepsConsistent :
    (lun : ℕ) → KeepsConsistent (read_capacity_16_read_long_16_command lun)
unfolding read_capacity_16_read_long_16_command
read_capacity_16_read_long_16_command-KeepsConsistent lun s c =
    let action = get_cdb_byte 1 s % 2 ^ 5 in
    let all : Kept (read_capacity_16_read_long_16_command lun s) =
      if_intro Kept (action == 0x10) (keep (read_capacity_16_command-KeepsConsistent lun s c)) (
        if_intro Kept (action == 0x11)
          (keep (long_command-KeepsConsistent AccessMode.rw16 12 false lun s c)) (keep c)) in
    all.kept

pub flush_command-KeepsConsistent : (lun : ℕ) → KeepsConsistent (flush_command lun)
unfolding flush_command
flush_command-KeepsConsistent lun s c =
    status_phase-KeepsConsistent _ (flush_cache-IsConsistent lun s c)

pub change_block_size-KeepsConsistent :
    (lun size : ℕ) → KeepsConsistent (change_block_size lun size)
unfolding change_block_size update_storage update_disk
change_block_size-KeepsConsistent lun size s c =
    let old = s.extra.storage lun in
    let (accepted, d) = StorageDevice.change_block_size size old in
    let s1 = update_storage lun (λ _. d) s in
    let c1 : IsConsistent s1 = same_bus c refl refl in
    let all : Kept (change_block_size lun size s) =
      if_intro Kept (size == old.block_size) (keep c) (
        if_intro Kept (not accepted) (keep c)
          (keep (same_bus (flush_cache-IsConsistent lun s1 c1) refl refl))) in
    all.kept
