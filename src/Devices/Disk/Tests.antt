-- ===== src/Devices/Disk/Tests.antt =====
-- Runs of a disk: cpp/devices/disk.cpp, storage_device.cpp, page_handler.cpp, linux_cache.cpp.
pub mod Opening
use piscsi.Common.{
  ℕ, ◌+◌, ◌-◌, ◌%◌, ◌^◌, ◌≡◌, ◌≤◌, refl, true, false, List, [], ◌∷◌, arith, some, none, Option,
  if◌then◌else◌, ◌==◌, pos, negsuc, length, min, replicate,
}
use piscsi.Scsi.{BusPhase, StatusCode, SenseKey, Asc, ScsiLevel, Ascq}
use piscsi.Shared.MemoryUtil.{get_int32}
use piscsi.Shared.MemoryUtil
use piscsi.Buses.Lines.{no_lines}
use piscsi.Base.Device.{PbDeviceType}
use piscsi.Base.Device as BaseDevice
use piscsi.Base.PrimaryDevice.{PrimaryDevice}
use piscsi.Controllers.State.{Controller, Action, ok, throw}
use piscsi.Controllers.Device.{data_in_phase, dispatch}
use piscsi.Controllers.Device
use piscsi.Controllers.Laws.Lawful.{IsLawful}
use piscsi.Devices.ImageFile.{ImageFile, Block}
use piscsi.Devices.ImageFile
use piscsi.Devices.LinuxCache.{LinuxCache, run_sectors}
use piscsi.Devices.LinuxCache
use piscsi.Devices.LinuxCache.Laws.{with_run}
use piscsi.Devices.Cache.{Cache, linux_cache, file}
use piscsi.Devices.Cache
use piscsi.Devices.Cache.Refinement.{StandsFor, read_sectors-run_sectors, write_sectors-with_run}
use piscsi.Devices.PageHandler.{Pages}
use piscsi.Devices.PageHandler
use piscsi.Devices.PageHandler.Laws.{add_mode_pages-length}
use piscsi.Devices.StorageDevice.{StorageDevice}
use piscsi.Devices.StorageDevice
use piscsi.Devices.StorageDevice.StartStop
use piscsi.Devices.StorageDevice.ModePages
use piscsi.Devices.StorageDevice.Reserved.{reserve_file-twice, dispatch_command-once}
use piscsi.Devices.StorageDevice.Selecting.{parse_pages-fuel}
use piscsi.Devices.Disk.{Disk, Disks, PbCachingMode, AccessMode}
use piscsi.Devices.Disk
use piscsi.Devices.Disk.Access
use piscsi.Devices.Disk.Capacity.{read_capacity_10_command}
use piscsi.Devices.Disk.Commands.{change_block_size, disk_handlers, set_up_mode_pages}
use piscsi.Devices.Disk.Commands
use piscsi.Devices.Disk.LawfulHandlers.{disk_handlers-IsLawful}
use piscsi.Devices.Disk.Ranges.{
  check_and_get_start_and_count-bounds, check_and_get_start_and_count-wrap,
}
use piscsi.Devices.Disk.Sectors.{Reads, Writes, read_data-Reads, write_data-Writes}
use piscsi.Devices.Disk.Media.{write-protected, eject-image}
use piscsi.Devices.Disk.Capacities.{read_capacity_10_command-reply}
use piscsi.Devices.Disk.BlockSize.{SameDisks, mode_select-SameDisks}

-- A disk of 600 sectors of two bytes, without a cache of tracks.
abbrev pub sectors : ℕ → Block
sectors s = s % 256 ∷ 7 ∷ []

abbrev direct : LinuxCache
direct = record {
  file = record { sectors = sectors; outcomes = [] };
  has_filename = true;
  sector_size = 2;
  sectors = 600;
  write_through = false;
  read_error_count = 0;
  write_error_count = 0;
}

read_sectors-run_sectors_example : (44 ∷ 7 ∷ []) ∷ (45 ∷ 7 ∷ []) ∷ [] ≡ run_sectors sectors 300 2
unfolding Cache.read_sectors LinuxCache.read_sectors LinuxCache.read run_sectors
    ImageFile.next_outcome
read_sectors-run_sectors_example =
    read_sectors-run_sectors (linux_cache direct) sectors 300 2 _ (λ s. refl) (omega arith)
      (omega arith) refl

write_sectors-with_run_example :
    StandsFor
      (Cache.write_sectors ((1 ∷ 2 ∷ []) ∷ []) 300 1 (linux_cache direct)).1
      (with_run sectors 300 1 ((1 ∷ 2 ∷ []) ∷ []))
unfolding Cache.write_sectors LinuxCache.write_sectors LinuxCache.write ImageFile.next_outcome
write_sectors-with_run_example =
    write_sectors-with_run (linux_cache direct) sectors ((1 ∷ 2 ∷ []) ∷ []) 300 1 (λ s. refl)
      (omega arith) (omega arith) refl

abbrev drive : PrimaryDevice
drive = record {
  device = record {
    type = PbDeviceType.scmo;
    lun = 0;
    ready = true;
    reset = false;
    attn = false;
    protectable = true;
    write_protected = false;
    read_only = false;
    stoppable = true;
    stopped = false;
    removable = true;
    removed = false;
    locked = false;
  };
  padded_name = replicate 28 32;
  level = ScsiLevel.scsi_2;
  response_data_format = ScsiLevel.scsi_2;
  sense_key = SenseKey.no_sense;
  asc = Asc.no_additional_sense_information;
  eom = Ascq.none;
  valid = false;
  filemark = false;
  ili = false;
  information = 0;
  reserving_initiator = negsuc 1;
  attached = true;
}

abbrev storage : StorageDevice
storage = record {
  blocks = 600;
  supported_block_sizes = 2 ∷ 4 ∷ [];
  configured_block_size = 0;
  block_size = 2;
  filename = 65 ∷ [];
  last_filename = [];
  medium_changed = false;
  block_read_count = 0;
  block_write_count = 0;
}

abbrev disk : Disk
disk = record {
  image = record { sectors = sectors; outcomes = [] };
  cache = some (linux_cache direct);
  caching_mode = PbCachingMode.linux;
  next_sector = 300;
  sector_transfer_count = 2;
}

-- A controller in the COMMAND phase with a CDB for this disk.
abbrev pub with_cdb : List ℕ → Controller Disks
with_cdb cdb = record {
  phase = BusPhase.command;
  bus = record {
    target_mode = true;
    driven = record no_lines { bsy = true; cd = true };
    signals = no_lines;
    dat = 0;
    schedule = [];
  };
  cdb = cdb;
  buffer = 1 ∷ 2 ∷ 3 ∷ 4 ∷ 5 ∷ 6 ∷ 7 ∷ 8 ∷ [];
  offset = 0;
  remaining_length = 0;
  current_length = pos 0;
  chunk_size = 4;
  status = StatusCode.good;
  luns = λ l. if l == 0 then some drive else none;
  target_id = 4;
  initiator_id = pos 7;
  identified_lun = negsuc 0;
  atn_msg = false;
  linked = false;
  flag = false;
  deferred_sense_key = SenseKey.no_sense;
  deferred_asc = Asc.no_additional_sense_information;
  msg_bytes = [];
  extra = record { storage = λ _. storage; reserved_files = []; unit = λ _. disk };
}

read_data-Reads_example :
    Reads sectors 0 (with_cdb (0x28 ∷ [])) (Access.read_data 0 (with_cdb (0x28 ∷ []))).1
unfolding Access.read_data Device.check_ready Access.read_next Access.read_cache Cache.read_sectors
    LinuxCache.read_sectors LinuxCache.read ImageFile.next_outcome Access.after_read_sectors
read_data-Reads_example =
    read_data-Reads 0 (with_cdb (0x28 ∷ [])) sectors 4 (λ s. refl) (omega arith) (omega arith)
      (omega arith) refl

write_data-Writes_example :
    Writes sectors 0 (with_cdb (0x2a ∷ [])) (Access.write_data 0 4 (with_cdb (0x2a ∷ []))).1
unfolding Access.write_data Device.check_ready Access.write_next Access.write_cache
    Cache.write_sectors LinuxCache.write_sectors LinuxCache.write ImageFile.next_outcome
    Access.after_write_sectors
write_data-Writes_example =
    write_data-Writes 0 4 (with_cdb (0x2a ∷ [])) sectors 4 (refl, refl) (λ s. refl) (omega arith)
      (omega arith) (omega arith) refl

abbrev no_commands : ℕ → ℕ → Option (Action Disks (Unit {0}))
no_commands lun cmd = none

disk_handlers-IsLawful_example : IsLawful (
    disk_handlers
      (λ lun page changeable s. set_up_mode_pages page changeable)
      (λ _. true)
      (λ _. false)
      no_commands
      (λ lun s. replicate 36 0))
disk_handlers-IsLawful_example =
    disk_handlers-IsLawful (λ lun page changeable s. set_up_mode_pages page changeable) (λ _. true)
      (λ _. false) no_commands (λ lun s. replicate 36 0) (λ lun cmd. tt)

-- READ(10) of two sectors from 598 on
check_and_get_start_and_count-bounds_example : 598 + 2 ≤ 600
unfolding Disk.check_and_get_start_and_count Device.check_ready Disk.check_range Disk.cdb_start
    Disk.cdb_count MemoryUtil.get_int32 MemoryUtil.get_int16
check_and_get_start_and_count-bounds_example =
    check_and_get_start_and_count-bounds AccessMode.rw10 0
      (with_cdb (0x28 ∷ 0 ∷ 0 ∷ 0 ∷ 2 ∷ 86 ∷ 0 ∷ 0 ∷ 2 ∷ 0 ∷ [])) true 598 2 (omega arith) refl

-- READ(16) of two sectors from the last 64-bit number on
abbrev far : List ℕ
far = 0x88 ∷ 0 ∷ 255 ∷ 255 ∷ 255 ∷ 255 ∷ 255 ∷ 255 ∷ 255 ∷ 255 ∷ 0 ∷ 0 ∷ 0 ∷ 2 ∷ []

check_and_get_start_and_count-wrap_example :
    Disk.check_and_get_start_and_count AccessMode.rw16 0 (with_cdb far)
    ≡ (ok (true, 2 ^ 64 - 1, 2), with_cdb far)
unfolding Device.check_ready Disk.cdb_start Disk.cdb_count MemoryUtil.get_int32 MemoryUtil.get_int64
check_and_get_start_and_count-wrap_example =
    check_and_get_start_and_count-wrap AccessMode.rw16 0 (with_cdb far) refl (omega arith)
      (omega arith) (omega arith) (omega arith)

abbrev protected : Controller Disks
protected = record (with_cdb (0x2a ∷ [])) {
  luns = λ l. some (record drive { device = record (drive.device) { write_protected = true } });
}

eject-image_example :
    (((Commands.eject 0 false (with_cdb [])).1.extra.unit 0).image ≡ direct.file)
    × (((Commands.eject 0 false (with_cdb [])).1.extra.unit 0).cache ≡ none)
unfolding Commands.eject StartStop.eject StartStop.eject_device BaseDevice.eject
eject-image_example = eject-image 0 false (with_cdb []) (linux_cache direct) refl refl

reserve_file-twice_example :
    (StorageDevice.get_ids_for_reserved_file
        (65 ∷ [])
        (StorageDevice.reserve_file 0 (with_cdb [])).1.extra.reserved_files
      ≡ some (4, 0))
    × (StorageDevice.reserve_file 1 (StorageDevice.reserve_file 0 (with_cdb [])).1
        ≡ (false, (StorageDevice.reserve_file 0 (with_cdb [])).1))
unfolding StorageDevice.reserve_file StorageDevice.get_ids_for_reserved_file
reserve_file-twice_example = reserve_file-twice 0 1 (with_cdb []) refl refl

abbrev changed : Controller Disks
changed = record (with_cdb []) {
  extra = record {
    storage = λ _. record storage { medium_changed = true };
    reserved_files = [];
    unit = λ _. disk;
  };
}

dispatch_command-once_example :
    ((StorageDevice.dispatch_command (no_commands 0) 0 0 changed).0
      ≡ throw SenseKey.unit_attention Asc.not_ready_to_ready_change)
    × (StorageDevice.dispatch_command
          (no_commands 0)
          0
          0
          (StorageDevice.dispatch_command (no_commands 0) 0 0 changed).1
        ≡ dispatch (no_commands 0) 0 (StorageDevice.dispatch_command (no_commands 0) 0 0 changed).1)
dispatch_command-once_example = dispatch_command-once (no_commands 0) 0 0 0 changed refl refl

-- MODE SELECT(6) with a block descriptor for sectors of four bytes
abbrev selecting : Controller Disks
selecting = record (with_cdb (0x15 ∷ 0 ∷ [])) {
  buffer = 0 ∷ 0 ∷ 0 ∷ 8 ∷ 0 ∷ 0 ∷ 0 ∷ 0 ∷ 0 ∷ 0 ∷ 0 ∷ 4 ∷ [];
}

mode_select-SameDisks_example :
    SameDisks selecting
      (ModePages.mode_select (λ lun page changeable s. []) change_block_size 0 12 selecting).1
mode_select-SameDisks_example = mode_select-SameDisks (λ lun page changeable s. []) 0 12 selecting

-- The size of the sectors after it
resized_block_size :
    ((ModePages.mode_select
        (λ lun page changeable s. [])
        change_block_size
        0
        12
        selecting).1.extra.storage
      0).block_size
    ≡ 4
unfolding ModePages.mode_select ModePages.evaluate_block_descriptors ModePages.select_pages
    ModePages.verify_block_size_change StorageDevice.update_storage MemoryUtil.get_int16
resized_block_size = refl

read_capacity_10_command-reply_example :
    (b : List ℕ) × (read_capacity_10_command 0 (with_cdb [])
      ≡ data_in_phase (pos 8) (record (with_cdb []) { buffer = b }))
    × (get_int32 b 0 ≡ min (600 - 1) 0xffffffff)
    × (get_int32 b 4 ≡ 2)
unfolding Device.check_ready
read_capacity_10_command-reply_example =
    read_capacity_10_command-reply 0 (with_cdb []) refl (omega arith) (omega arith) (omega arith)
