-- ===== src/Devices/Tape/Tests/Opening.antt =====
-- Runs of `Open` of a tape: cpp/devices/tape.cpp.
use piscsi.Common.{◌≡◌, refl, true, false, [], ◌∷◌, some, none, if◌then◌else◌, ◌==◌, pos, negsuc}
use piscsi.Scsi.{BusPhase, StatusCode, SenseKey, Asc}
use piscsi.Buses.Lines.{no_lines}
use piscsi.Controllers.State.{Controller, ok}
use piscsi.Shared.S2pUtil
use piscsi.Devices.StorageDevice
use piscsi.Devices.StorageDevice.Validation
use piscsi.Devices.Tape.{Drive, ObjectType}
use piscsi.Devices.Tape.Writing.{write_meta_data}
use piscsi.Devices.Tape.Transfer.{Tapes}
use piscsi.Devices.Tape.Transfer
use piscsi.Devices.Tape.Opening.{Image, open_tape, file_of}
use piscsi.Devices.Tape.Opening
use piscsi.Devices.Tape.Opened.{IsOpen, open_tape-IsOpen, open_tape-created}
use piscsi.Devices.Tape.Tests.{device, fresh}

-- A controller with a tape drive that has not been opened.
abbrev unopened : Controller Tapes
unopened = record {
  phase = BusPhase.command;
  bus = record {
    target_mode = true;
    driven = record no_lines { bsy = true; cd = true };
    signals = no_lines;
    dat = 0;
    schedule = [];
  };
  cdb = [];
  buffer = 1 ∷ 2 ∷ 3 ∷ 4 ∷ 5 ∷ 6 ∷ 7 ∷ 8 ∷ [];
  offset = 0;
  remaining_length = 0;
  current_length = pos 0;
  chunk_size = 4;
  status = StatusCode.good;
  luns = λ l. if l == 0 then some device else none;
  target_id = 4;
  initiator_id = pos 7;
  identified_lun = negsuc 0;
  atn_msg = false;
  linked = false;
  flag = false;
  deferred_sense_key = SenseKey.no_sense;
  deferred_asc = Asc.no_additional_sense_information;
  msg_bytes = [];
  extra = record {
    storage = λ lun. record {
      blocks = 0;
      supported_block_sizes = 512 ∷ 1024 ∷ [];
      configured_block_size = 0;
      block_size = 512;
      filename = 65 ∷ [];
      last_filename = [];
      medium_changed = false;
      block_read_count = 0;
      block_write_count = 0;
    };
    reserved_files = [];
    unit = λ lun. (fresh 0).tape;
  };
}

-- A tape of 1200 bytes, and none with a maximum size of 900 bytes.
abbrev some_image : Image
some_image = record {
  content = some (record { bytes = λ _. 0; size = 1200; outcomes = [] });
  writable = true;
  tar = false;
  append = 48 ∷ [];
}

abbrev new_image : Image
new_image = record { content = none; writable = true; tar = false; append = 57 ∷ 48 ∷ 48 ∷ [] }

open_tape-IsOpen_example : IsOpen 1200 0 (open_tape 0 some_image unopened).1
unfolding Opening.open_tape Opening.open_appended Opening.open_limited Opening.extend
    Opening.create_file Opening.validate_tape Opening.load_tape Transfer.update_tape
    Validation.validate_storage_file StorageDevice.set_block_size StorageDevice.update_storage
    S2pUtil.parse_as_unsigned_int S2pUtil.stoul
open_tape-IsOpen_example = open_tape-IsOpen 0 some_image unopened refl

-- The drive behind the opening.
abbrev created : Drive
created = record (fresh 0) { tape = (open_tape 0 new_image unopened).1.extra.unit 0 }

open_tape-created_example : write_meta_data ObjectType.end_of_data 0 created ≡ (ok tt, created)
unfolding Opening.open_tape Opening.open_appended Opening.open_limited Opening.extend
    Opening.create_file Opening.validate_tape Opening.load_tape Transfer.update_tape
    Validation.validate_storage_file StorageDevice.set_block_size StorageDevice.update_storage
    S2pUtil.parse_as_unsigned_int S2pUtil.stoul
open_tape-created_example = open_tape-created 0 new_image unopened created refl refl refl
