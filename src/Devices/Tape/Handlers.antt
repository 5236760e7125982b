-- ===== src/Devices/Tape/Handlers.antt =====
-- The mode pages and `Eject` of cpp/devices/tape.cpp, and the array of the commands, with what the controller
-- calls.
use piscsi.Common.{ℕ, Bool, true, false, ◌||◌, Option, none, some, List, if◌then◌else◌, ◌==◌, set}
use piscsi.Scsi.{
  read_6, read_16, write_6, write_16, erase_6, read_block_limits, rewind, space_6,
  write_filemarks_6, write_filemarks_16, locate_10, locate_16, read_position, format_medium,
}
use piscsi.Controllers.State.{Controller, Action}
use piscsi.Controllers.Device.{primary_commands}
use piscsi.Controllers.Command.{Handlers}
use piscsi.Devices.PageHandler.{Pages, put_page}
use piscsi.Devices.StorageDevice.{dispatch_command}
use piscsi.Devices.StorageDevice.StartStop.{storage_commands}
use piscsi.Devices.StorageDevice.StartStop
use piscsi.Devices.StorageDevice.ModePages.{zeros}
use piscsi.Devices.StorageDevice.ModePages
use piscsi.Devices.Tape.Transfer.{Tapes, update_tape, read, write, read_data, write_data}
use piscsi.Devices.Tape.Commands.{
  erase_6_command, read_block_limits_command, rewind_command, space_6_command,
  write_filemarks_command, locate_command, read_position_command, format_medium_command,
}

-- `AddDataCompressionPage`, `AddDeviceConfigurationPage` and `AddMediumPartitionPage`
unfoldable pub device_configuration_page : Bool → List ℕ
device_configuration_page changeable =
    if changeable then zeros 16 else set (set (zeros 16) 8 0x40) 10 0x10

unfoldable pub medium_partition_page : Bool → List ℕ
medium_partition_page changeable = if changeable then zeros 8 else set (zeros 8) 4 0x90

-- `SetUpModePages`
unfoldable pub set_up_mode_pages : ℕ → Bool → Pages
unfolding device_configuration_page medium_partition_page
set_up_mode_pages page changeable =
    let all = page == 0x3f in
    let p0 = ModePages.set_up_mode_pages page List.[] in
    let p1 = if page == 0x0f || all then put_page 15 (zeros 16) p0 else p0 in
    let p2 =
      if page == 0x10 || all then put_page 16 (device_configuration_page changeable) p1 else p1 in
    if page == 0x11 || all then put_page 17 (medium_partition_page changeable) p2 else p2

-- A tape has no cache; after an eject the counters are 0.
abbrev pub no_flush : ℕ → Controller Tapes → Controller Tapes
no_flush lun s = s

unfoldable pub reset_counters : ℕ → Controller Tapes → Controller Tapes
unfolding update_tape
reset_counters lun s =
    update_tape lun (λ t. record t { read_error_count = 0; write_error_count = 0 }) s

-- `Eject`
unfoldable pub eject : ℕ → Bool → Controller Tapes → Bool × Controller Tapes
eject = StartStop.eject no_flush reset_counters

-- The commands that `SetUp` adds to others.
unfoldable pub tape_commands :
    ℕ → (ℕ → Option (Action Tapes (Unit {0}))) → ℕ → Option (Action Tapes (Unit {0}))
tape_commands lun others cmd =
    if cmd == read_6
    then some (read lun false)
    else if cmd == read_16
    then some (read lun true)
    else if cmd == write_6
    then some (write lun false)
    else if cmd == write_16
    then some (write lun true)
    else if cmd == erase_6
    then some (erase_6_command lun)
    else if cmd == read_block_limits
    then some read_block_limits_command
    else if cmd == rewind
    then some (rewind_command lun)
    else if cmd == space_6
    then some (space_6_command lun)
    else if cmd == write_filemarks_6
    then some (write_filemarks_command lun false)
    else if cmd == write_filemarks_16
    then some (write_filemarks_command lun true)
    else if cmd == locate_10
    then some (locate_command lun false)
    else if cmd == locate_16
    then some (locate_command lun true)
    else if cmd == read_position
    then some (read_position_command lun)
    else if cmd == format_medium
    then some (format_medium_command lun)
    else others cmd

abbrev pub first_of :
    Option (Action Tapes (Unit {0}))
    → Option (Action Tapes (Unit {0}))
    → Option (Action Tapes (Unit {0}))
first_of none b = b
first_of (some a) b = some a

-- The commands of the page handler, the product data and MODE SELECT are arguments.
module _ (page_commands : ℕ → ℕ → Option (Action Tapes (Unit {0})))
    (inquiry_data : ℕ → Controller Tapes → List ℕ)
    (mode_select : ℕ → ℕ → Action Tapes (Unit {0})) where
  abbrev pub paged_commands : ℕ → ℕ → Option (Action Tapes (Unit {0}))
  paged_commands lun cmd =
      first_of (page_commands lun cmd) (primary_commands (inquiry_data lun) lun cmd)

  -- What the controller calls.
  unfoldable pub tape_handlers : Handlers Tapes
  tape_handlers = record {
    dispatch = λ lun cmd.
        dispatch_command
          (tape_commands lun (storage_commands no_flush reset_counters lun (paged_commands lun)))
          lun cmd;
    read_data = read_data;
    write_data = λ lun offset n. write_data lun n;
    mode_select = mode_select;
  }
