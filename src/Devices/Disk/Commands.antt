-- ===== src/Devices/Disk/Commands.antt =====
-- The functions of cpp/devices/disk.cpp that the base classes call: its mode pages, its block size,
-- its eject and clean-up, and the array of its commands.
--
-- What a class derived from `Disk` adds is an argument: its mode pages, with those of the property
-- file, its commands and its INQUIRY data.
use piscsi.Common.{
  ℕ, ◌+◌, ◌*◌, ◌/◌, ◌%◌, Bool, true, false, not, ◌||◌, Option, none, some, List, [], ◌∷◌,
  if◌then◌else◌, ◌==◌, get_or, set, write_at,
}
use piscsi.Scsi.{
  SenseKey, Asc, rezero, format_unit, reassign_blocks, read_6, write_6, seek_6, read_capacity_10,
  read_10, write_10, read_long_10, write_long_10, write_long_16, seek_10, verify_10,
  synchronize_cache_10, synchronize_cache_space_16, read_defect_data_10, read_16, write_16,
  verify_16, read_capacity_read_long_16, read_format_capacities, mode_sense_6, mode_sense_10,
  mode_select_6, mode_select_10,
}
use piscsi.Shared.MemoryUtil.{get_int24, set_int16}
use piscsi.Controllers.State.{Controller, ok, throw, Action, ◌>>=◌, ◌>>◌, run, get_cdb_byte}
use piscsi.Controllers.Device.{status_phase, check_ready, primary_commands}
use piscsi.Controllers.Command.{Handlers}
use piscsi.Devices.ImageFile.{Block, ImageFile}
use piscsi.Devices.PageHandler.{Pages, put_page, mode_select_command}
use piscsi.Devices.StorageDevice.{StorageDevice, update_storage, unreserve_file, dispatch_command}
use piscsi.Devices.StorageDevice
use piscsi.Devices.StorageDevice.StartStop.{storage_commands}
use piscsi.Devices.StorageDevice.StartStop
use piscsi.Devices.StorageDevice.ModePages.{zeros, mode_sense_6_command, mode_sense_10_command}
use piscsi.Devices.StorageDevice.ModePages
use piscsi.Devices.Disk.{
  Disk, Disks, AccessMode, file_of, reset_cache, set_up_cache, update_disk, flush_cache,
  check_and_get_start_and_count,
}
use piscsi.Devices.Disk.Access.{read, write, verify, read_data, write_data}
use piscsi.Devices.Disk.Long.{long_command}
use piscsi.Devices.Disk.Capacity.{
  format_unit_command, read_defect_data_10_command, read_capacity_10_command,
  read_capacity_16_read_long_16_command, read_format_capacities_command,
}

-- `AddVerifyErrorRecoveryPage`, `AddCachingPage` and `AddAppleVendorPage`
unfoldable pub verify_error_recovery_page : Bool → List ℕ
verify_error_recovery_page changeable = if not changeable then set (zeros 12) 3 1 else zeros 12

unfoldable pub caching_page : Bool → List ℕ
caching_page changeable =
    if not changeable
    then set_int16 (set_int16 (set_int16 (zeros 12) 0x04 0xffff) 0x08 0xffff) 0x0a 0xffff
    else zeros 12

-- "APPLE COMPUTER, INC   "
abbrev apple_data : List ℕ
apple_data =
    65 ∷ 80 ∷ 80 ∷ 76 ∷ 69 ∷ 32 ∷ 67 ∷ 79 ∷ 77 ∷ 80 ∷ 85 ∷ 84 ∷ 69 ∷ 82 ∷ 44 ∷ 32 ∷ 73 ∷ 78 ∷ 67
    ∷ 32 ∷ 32 ∷ 32 ∷ []

unfoldable pub apple_vendor_page : Bool → List ℕ
apple_vendor_page changeable = if not changeable then write_at (zeros 24) 2 apple_data else zeros 24

-- `SetUpModePages`
unfoldable pub set_up_mode_pages : ℕ → Bool → Pages
unfolding verify_error_recovery_page caching_page apple_vendor_page
set_up_mode_pages page changeable =
    let all = page == 0x3f in
    let p0 = ModePages.set_up_mode_pages page [] in
    let p1 =
      if page == 0x07 || all then put_page 7 (verify_error_recovery_page changeable) p0 else p0 in
    let p2 = if page == 0x08 || all then put_page 8 (caching_page changeable) p1 else p1 in
    if page == 0x30 || all then put_page 48 (apple_vendor_page changeable) p2 else p2

-- `Eject`: after the eject of the storage device the cache is reset.
unfoldable pub eject : ℕ → Bool → Controller Disks → Bool × Controller Disks
unfolding update_disk
eject = StartStop.eject flush_cache (λ lun s. update_disk lun reset_cache s)

-- `CleanUp`
unfoldable pub clean_up : ℕ → Controller Disks → Controller Disks
clean_up lun s = unreserve_file lun (flush_cache lun s)

-- The sectors of a file by another size.
abbrev byte_of_file : ℕ → (ℕ → Block) → ℕ → ℕ
byte_of_file size sectors i = get_or (sectors (i / size)) (i % size) 0

unfoldable pub bytes_from : ℕ → (ℕ → ℕ) → ℕ → Block
bytes_from ℕ.zero bytes i = []
bytes_from (ℕ.suc n) bytes i = bytes i ∷ bytes_from n bytes (i + 1)

unfoldable pub resize_sectors : ℕ → ℕ → ImageFile → ImageFile
resize_sectors size new_size f = record f {
  sectors = λ s. bytes_from new_size (byte_of_file size f.sectors) (s * new_size);
}

-- `ChangeBlockSize`: the cache is set up again, on the file in sectors of the new size.
unfoldable pub set_up_resized : ℕ → StorageDevice → Disk → Disk
unfolding resize_sectors
set_up_resized old storage d =
    let f = resize_sectors old storage.block_size (file_of d.cache d.image) in
    let renewed = record d { image = f; cache = none } in
    elim d.cache [ none ↦ renewed | some _ ↦ (set_up_cache storage renewed).1 ]

unfoldable pub change_block_size : ℕ → ℕ → Action Disks (Unit {0})
unfolding update_storage update_disk
change_block_size lun new_size s =
    let old = s.extra.storage lun in
    let (accepted, d) = StorageDevice.change_block_size new_size old in
    let s1 = flush_cache lun (update_storage lun (λ _. d) s) in
    if new_size == old.block_size
    then (ok tt, s)
    else if not accepted
    then (throw SenseKey.illegal_request Asc.invalid_field_in_parameter_list, s)
    else (ok tt, update_disk lun (set_up_resized old.block_size d) s1)

-- A command that only checks that the disk is ready.
abbrev pub ready_command : ℕ → Action Disks (Unit {0})
ready_command lun = check_ready lun >> status_phase

abbrev pub seek_command : AccessMode → ℕ → Action Disks (Unit {0})
seek_command mode lun = check_and_get_start_and_count mode lun >>= λ _. status_phase

unfoldable pub flush_command : ℕ → Action Disks (Unit {0})
flush_command lun = run (flush_cache lun) >> status_phase

-- The commands that `SetUp` adds to others.
unfoldable pub disk_commands :
    ℕ → (ℕ → Option (Action Disks (Unit {0}))) → ℕ → Option (Action Disks (Unit {0}))
disk_commands lun others cmd =
    if cmd == rezero || cmd == reassign_blocks
    then some (ready_command lun)
    else if cmd == format_unit
    then some (format_unit_command lun)
    else if cmd == read_6
    then some (read AccessMode.rw6 lun)
    else if cmd == write_6
    then some (write AccessMode.rw6 lun)
    else if cmd == seek_6
    then some (seek_command AccessMode.seek6 lun)
    else if cmd == read_capacity_10
    then some (read_capacity_10_command lun)
    else if cmd == read_10
    then some (read AccessMode.rw10 lun)
    else if cmd == write_10
    then some (write AccessMode.rw10 lun)
    else if cmd == read_long_10
    then some (long_command AccessMode.rw10 7 false lun)
    else if cmd == write_long_10
    then some (long_command AccessMode.rw10 7 true lun)
    else if cmd == write_long_16
    then some (long_command AccessMode.rw16 12 true lun)
    else if cmd == seek_10
    then some (seek_command AccessMode.seek10 lun)
    else if cmd == verify_10
    then some (verify AccessMode.rw10 lun)
    else if cmd == synchronize_cache_10 || cmd == synchronize_cache_space_16
    then some (flush_command lun)
    else if cmd == read_defect_data_10
    then some read_defect_data_10_command
    else if cmd == read_16
    then some (read AccessMode.rw16 lun)
    else if cmd == write_16
    then some (write AccessMode.rw16 lun)
    else if cmd == verify_16
    then some (verify AccessMode.rw16 lun)
    else if cmd == read_capacity_read_long_16
    then some (read_capacity_16_read_long_16_command lun)
    else if cmd == read_format_capacities
    then some (read_format_capacities_command lun)
    else others cmd

module _ (mode_pages : ℕ → ℕ → Bool → Controller Disks → Pages)
    (supports_mode_select supports_save_parameters : ℕ → Bool) where
  -- The commands that the constructor of `PageHandler` adds to others.
  unfoldable pub page_commands :
      ℕ → (ℕ → Option (Action Disks (Unit {0}))) → ℕ → Option (Action Disks (Unit {0}))
  page_commands lun others cmd =
      let select = mode_select_command (supports_mode_select lun) (supports_save_parameters lun) in
      if cmd == mode_sense_6
      then some (mode_sense_6_command mode_pages lun)
      else if cmd == mode_sense_10
      then some (mode_sense_10_command mode_pages lun)
      else if cmd == mode_select_6
      then some (λ s. select (get_cdb_byte 4 s) s)
      else if cmd == mode_select_10
      then some (λ s. select (get_int24 s.cdb 7) s)
      else others cmd

abbrev pub or_else :
    Option (Action Disks (Unit {0}))
    → Option (Action Disks (Unit {0}))
    → Option (Action Disks (Unit {0}))
or_else none b = b
or_else (some a) b = some a

module _ (mode_pages : ℕ → ℕ → Bool → Controller Disks → Pages)
    (supports_mode_select supports_save_parameters : ℕ → Bool)
    (class_commands : ℕ → ℕ → Option (Action Disks (Unit {0})))
    (inquiry_data : ℕ → Controller Disks → List ℕ) where
  -- All commands of a disk, those of the derived class first.
  unfoldable pub all_commands : ℕ → ℕ → Option (Action Disks (Unit {0}))
  unfolding disk_commands page_commands storage_commands
  all_commands lun cmd = or_else (class_commands lun cmd) (
      disk_commands lun
        (storage_commands flush_cache (λ l s. update_disk l reset_cache s) lun
          (page_commands mode_pages supports_mode_select supports_save_parameters lun
            (primary_commands (inquiry_data lun) lun)))
        cmd)

  -- What the controller calls.
  unfoldable pub disk_handlers : Handlers Disks
  disk_handlers = record {
    dispatch = λ lun cmd. dispatch_command (all_commands lun) lun cmd;
    read_data = read_data;
    write_data = λ lun offset n. write_data lun n;
    mode_select = λ lun n. ModePages.mode_select mode_pages change_block_size lun n;
  }
