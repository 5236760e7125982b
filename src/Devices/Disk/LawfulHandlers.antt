-- ===== src/Devices/Disk/LawfulHandlers.antt =====
-- The array of the commands of a disk (cpp/devices/disk.cpp), and its functions together, keep the law
-- that the controller expects of a device.
use piscsi.Common.{ℕ, refl, Bool, true, false, ◌||◌, Option, none, some, List, if_intro, ◌==◌}
use piscsi.Scsi.{
  rezero, format_unit, reassign_blocks, read_6, write_6, seek_6, read_capacity_10, read_10,
  write_10, read_long_10, write_long_10, write_long_16, seek_10, verify_10, synchronize_cache_10,
  synchronize_cache_space_16, read_defect_data_10, read_16, write_16, verify_16,
  read_capacity_read_long_16, read_format_capacities, mode_sense_6, mode_sense_10, mode_select_6,
  mode_select_10,
}
use piscsi.Controllers.State.{Controller, Action}
use piscsi.Controllers.Device.{status_phase, primary_commands}
use piscsi.Controllers.Laws.Lines.{same_bus}
use piscsi.Controllers.Laws.Lawful.{IsLawful}
use piscsi.Controllers.Laws.Primary.{
  KeepsConsistent, Entry, ready_then-KeepsConsistent, >>=-KeepsConsistent,
  status_phase-KeepsConsistent, primary_commands-Entry,
}
use piscsi.Devices.PageHandler.{Pages}
use piscsi.Devices.StorageDevice.Laws.{dispatch_command-KeepsConsistent, storage_commands-Entry}
use piscsi.Devices.StorageDevice.StartStop.{storage_commands}
use piscsi.Devices.StorageDevice.ModeLaws.{
  mode_select_command-KeepsConsistent, mode_sense_6_command-KeepsConsistent,
  mode_sense_10_command-KeepsConsistent, mode_select-KeepsConsistent,
}
use piscsi.Devices.Disk.{
  Disks, AccessMode, update_disk, flush_cache, reset_cache, check_and_get_start_and_count,
}
use piscsi.Devices.Disk.Commands.{
  change_block_size, ready_command, seek_command, or_else, disk_commands, page_commands,
  all_commands, disk_handlers,
}
use piscsi.Devices.Disk.Lawful.{
  flush_cache-IsConsistent, check_and_get_start_and_count-KeepsConsistent, read-KeepsConsistent,
  write-KeepsConsistent, verify-KeepsConsistent, read_data-KeepsConsistent,
  write_data-KeepsConsistent,
}
use piscsi.Devices.Disk.LawfulCommands.{
  long_command-KeepsConsistent, format_unit_command-KeepsConsistent,
  read_defect_data_10_command-KeepsConsistent, read_capacity_10_command-KeepsConsistent,
  read_format_capacities_command-KeepsConsistent,
  read_capacity_16_read_long_16_command-KeepsConsistent, flush_command-KeepsConsistent,
  change_block_size-KeepsConsistent,
}

ready_command-KeepsConsistent : (lun : ℕ) → KeepsConsistent (ready_command lun)
ready_command-KeepsConsistent lun =
    ready_then-KeepsConsistent lun status_phase status_phase-KeepsConsistent

seek_command-KeepsConsistent :
    (mode : AccessMode) (lun : ℕ) → KeepsConsistent (seek_command mode lun)
seek_command-KeepsConsistent mode lun =
    >>=-KeepsConsistent (check_and_get_start_and_count mode lun) (λ _. status_phase)
      (check_and_get_start_and_count-KeepsConsistent mode lun) (λ _. status_phase-KeepsConsistent)

disk_commands-Entry :
    (lun cmd : ℕ) (others : ℕ → Option (Action Disks (Unit {0})))
    → Entry (others cmd)
    → Entry (disk_commands lun others cmd)
unfolding disk_commands
disk_commands-Entry lun cmd others e =
    if_intro Entry (cmd == rezero || cmd == reassign_blocks) (ready_command-KeepsConsistent lun) (
      if_intro Entry (cmd == format_unit) (format_unit_command-KeepsConsistent lun) (
        if_intro Entry (cmd == read_6) (read-KeepsConsistent AccessMode.rw6 lun) (
          if_intro Entry (cmd == write_6) (write-KeepsConsistent AccessMode.rw6 lun) (
            if_intro Entry (cmd == seek_6) (seek_command-KeepsConsistent AccessMode.seek6 lun) (
              if_intro Entry (cmd == read_capacity_10)
                (read_capacity_10_command-KeepsConsistent lun)
                (if_intro Entry (cmd == read_10) (read-KeepsConsistent AccessMode.rw10 lun) (
                  if_intro Entry (cmd == write_10) (write-KeepsConsistent AccessMode.rw10 lun) (
                    if_intro Entry (cmd == read_long_10)
                      (long_command-KeepsConsistent AccessMode.rw10 7 false lun)
                      (if_intro Entry (cmd == write_long_10)
                        (long_command-KeepsConsistent AccessMode.rw10 7 true lun)
                        (if_intro Entry (cmd == write_long_16)
                          (long_command-KeepsConsistent AccessMode.rw16 12 true lun)
                          (if_intro Entry (cmd == seek_10)
                            (seek_command-KeepsConsistent AccessMode.seek10 lun)
                            (if_intro Entry (cmd == verify_10)
                              (verify-KeepsConsistent AccessMode.rw10 lun)
                              (if_intro Entry
                                (cmd == synchronize_cache_10 || cmd == synchronize_cache_space_16)
                                (flush_command-KeepsConsistent lun)
                                (if_intro Entry (cmd == read_defect_data_10)
                                  (read_defect_data_10_command-KeepsConsistent)
                                  (if_intro Entry (cmd == read_16)
                                    (read-KeepsConsistent AccessMode.rw16 lun)
                                    (if_intro Entry (cmd == write_16)
                                      (write-KeepsConsistent AccessMode.rw16 lun)
                                      (if_intro Entry (cmd == verify_16)
                                        (verify-KeepsConsistent AccessMode.rw16 lun)
                                        (if_intro Entry (cmd == read_capacity_read_long_16)
                                          (read_capacity_16_read_long_16_command-KeepsConsistent
                                            lun)
                                          (if_intro Entry (cmd == read_format_capacities)
                                            (read_format_capacities_command-KeepsConsistent lun)
                                            (e))))))))))))))))))))

module _ (mode_pages : ℕ → ℕ → Bool → Controller Disks → Pages)
    (supports_mode_select supports_save_parameters : ℕ → Bool) where
  page_commands-Entry :
      (lun cmd : ℕ) (others : ℕ → Option (Action Disks (Unit {0})))
      → Entry (others cmd)
      → Entry
          (page_commands mode_pages supports_mode_select supports_save_parameters lun others cmd)
  unfolding page_commands
  page_commands-Entry lun cmd others e =
      let m = supports_mode_select lun in
      let p = supports_save_parameters lun in
      if_intro Entry (cmd == mode_sense_6) (mode_sense_6_command-KeepsConsistent mode_pages lun) (
        if_intro Entry (cmd == mode_sense_10) (mode_sense_10_command-KeepsConsistent mode_pages lun)
          (if_intro Entry (cmd == mode_select_6)
            (λ s c. mode_select_command-KeepsConsistent m p _ s c)
            (if_intro Entry (cmd == mode_select_10)
              (λ s c. mode_select_command-KeepsConsistent m p _ s c) e)))

or_else-Entry : (a b : Option (Action Disks (Unit {0}))) → Entry a → Entry b → Entry (or_else a b)
or_else-Entry none b e f = f
or_else-Entry (some m) b e f = e

module _ (mode_pages : ℕ → ℕ → Bool → Controller Disks → Pages)
    (supports_mode_select supports_save_parameters : ℕ → Bool)
    (class_commands : ℕ → ℕ → Option (Action Disks (Unit {0})))
    (inquiry_data : ℕ → Controller Disks → List ℕ)
    (class-law : (lun cmd : ℕ) → Entry (class_commands lun cmd)) where
  all_commands-Entry :
      (lun cmd : ℕ)
      → Entry (
          all_commands mode_pages supports_mode_select supports_save_parameters class_commands
            inquiry_data lun cmd)
  unfolding all_commands update_disk
  all_commands-Entry lun cmd =
      let primary = primary_commands (inquiry_data lun) lun in
      let paged =
        page_commands mode_pages supports_mode_select supports_save_parameters lun primary in
      let storage = storage_commands flush_cache (λ l s. update_disk l reset_cache s) lun paged in
      or_else-Entry (class_commands lun cmd) (disk_commands lun storage cmd) (class-law lun cmd) (
        disk_commands-Entry lun cmd storage (
          storage_commands-Entry flush_cache (λ l s. update_disk l reset_cache s)
            flush_cache-IsConsistent (λ l s c. same_bus c refl refl) lun cmd paged
            (page_commands-Entry mode_pages supports_mode_select supports_save_parameters lun cmd
              primary (primary_commands-Entry (inquiry_data lun) lun cmd))))

  -- The functions of a disk keep the agreement of lines and phase if the commands of the derived
  -- class do.
  pub disk_handlers-IsLawful : IsLawful (
      disk_handlers mode_pages supports_mode_select supports_save_parameters class_commands
        inquiry_data)
  unfolding disk_handlers
  disk_handlers-IsLawful = record {
    dispatch = λ lun cmd. dispatch_command-KeepsConsistent _ lun cmd (all_commands-Entry lun cmd);
    read_data = read_data-KeepsConsistent;
    write_data = λ lun offset n. write_data-KeepsConsistent lun n;
    mode_select =
        mode_select-KeepsConsistent mode_pages change_block_size change_block_size-KeepsConsistent;
  }
