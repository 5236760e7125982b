-- ===== src/Devices/Tape/Tests.antt =====
-- Runs of a tape drive: cpp/devices/tape.cpp.
pub mod Opening
use piscsi.Common.{
  ℕ, ◌-◌, ◌^◌, ◌≡◌, refl, true, false, List, [], ◌∷◌, negsuc, replicate, length, get_or, arith,
  none,
}
use piscsi.Scsi.{SenseKey, Asc, ScsiLevel, Ascq}
use piscsi.Shared.SimhUtil.{pad, from_little_endian, to_little_endian}
use piscsi.Base.Device.{PbDeviceType}
use piscsi.Base.PrimaryDevice.{PrimaryDevice}
use piscsi.Controllers.State.{ok, throw}
use piscsi.Controllers.Device.{default_mode_select}
use piscsi.Controllers.Laws.Lawful.{IsLawful}
use piscsi.Devices.Tape.{Drive, ObjectType, window, set_tape}
use piscsi.Devices.Tape.Seeking.{rounds, read_simh_meta_data}
use piscsi.Devices.Tape.Finding.{find_next_object, find_from}
use piscsi.Devices.Tape.Writing.{write_record_part}
use piscsi.Devices.Tape.Handlers.{tape_handlers}
use piscsi.Devices.Tape.Spacing.{IsRecordAt, space-there_and_back}
use piscsi.Devices.Tape.Searching.{find_next_object-fuel}
use piscsi.Devices.Tape.Parts.{IsWriting}
use piscsi.Devices.Tape.ReadBack.{IsReading, read_whole}
use piscsi.Devices.Tape.Records.{read_whole-write_record_part}
use piscsi.Devices.Tape.OddRecords.{read_whole-odd}
use piscsi.Devices.Tape.Overflow.{IsWithin}
use piscsi.Devices.Tape.MaximumSize.{write_record_part-IsWithin, write_record_part-overflow}
use piscsi.Devices.Tape.Lawful.{tape_handlers-IsLawful}

abbrev pub device : PrimaryDevice
device = record {
  device = record {
    type = PbDeviceType.sctp;
    lun = 0;
    ready = true;
    reset = false;
    attn = false;
    protectable = true;
    write_protected = false;
    read_only = false;
    stoppable = true;
    stopped = false;
    removable = true;
    removed = false;
    locked = false;
  };
  padded_name = replicate 28 32;
  level = ScsiLevel.scsi_2;
  response_data_format = ScsiLevel.scsi_2;
  sense_key = SenseKey.no_sense;
  asc = Asc.no_additional_sense_information;
  eom = Ascq.none;
  valid = false;
  filemark = false;
  ili = false;
  information = 0;
  reserving_initiator = negsuc 1;
  attached = true;
}

-- A drive with an empty tape, in front of a transfer of `n` bytes.
abbrev pub fresh : ℕ → Drive
fresh n = record {
  device = device;
  block_size = 512;
  cdb = 0x0a ∷ 0 ∷ 0 ∷ 0 ∷ n ∷ 0 ∷ [];
  tape = record {
    file = record { bytes = λ _. 0; size = 0; outcomes = [] };
    tape_position = 0;
    initial = true;
    fixed = false;
    block_size_for_descriptor = 512;
    blocks_read = 0;
    record_start = 0;
    record_length = n;
    object_location = 0;
    byte_count = n;
    remaining_count = n;
    file_size = 0;
    max_file_size = 100000;
    tar_file = false;
    expl = false;
    read_error_count = 0;
    write_error_count = 0;
  };
}

fresh-IsWriting : IsWriting 2 (fresh 2)
fresh-IsWriting = record {
  room = record { good = refl; size = omega arith; room = omega arith; max = omega arith };
  initial = refl;
  image = refl;
  even = refl;
  even_size = refl;
  data_size = refl;
  short = omega arith;
  record_length = refl;
  byte_count = refl;
  remaining_count = refl;
}

-- The bytes of a tape with one record of three bytes, and one of two.
abbrev odd_tape : List ℕ
odd_tape = 3 ∷ 0 ∷ 0 ∷ 0 ∷ 7 ∷ 8 ∷ 9 ∷ 0 ∷ 3 ∷ 0 ∷ 0 ∷ 0 ∷ []

abbrev even_tape : List ℕ
even_tape = 2 ∷ 0 ∷ 0 ∷ 0 ∷ 7 ∷ 8 ∷ 2 ∷ 0 ∷ 0 ∷ 0 ∷ []

-- A drive with such a tape, in front of a transfer of `n` bytes.
abbrev loaded : List ℕ → ℕ → Drive
loaded bytes n =
    set_tape
      (λ t. record t {
        file = record { bytes = λ i. get_or bytes i 0; size = length {A = ℕ} bytes; outcomes = [] };
        file_size = length {A = ℕ} bytes;
        max_file_size = length {A = ℕ} bytes;
      })
      (fresh n)

odd_loaded-IsReading : IsReading 3 (loaded odd_tape 3)
unfolding pad from_little_endian window
odd_loaded-IsReading = record {
  here = record {
    head = record { meta = refl; inside = omega arith; bound = omega arith; good = refl };
    tail = record { meta = refl; inside = omega arith; bound = omega arith; good = refl };
    data_size = refl;
    short = omega arith;
  };
  image = refl;
  byte_count = refl;
}

read_whole-odd_example :
    (read_whole 3 (loaded odd_tape 3)).0 ≡ throw SenseKey.medium_error Asc.read_error
unfolding window pad to_little_endian
read_whole-odd_example =
    read_whole-odd 3 (loaded odd_tape 3) odd_loaded-IsReading refl refl (omega arith) refl

even_loaded-IsRecordAt : IsRecordAt 2 0 (loaded even_tape 2).tape.file
unfolding pad from_little_endian window
even_loaded-IsRecordAt = record {
  head = record { meta = refl; inside = omega arith; bound = omega arith; good = refl };
  tail = record { meta = refl; inside = omega arith; bound = omega arith; good = refl };
  data_size = refl;
  short = omega arith;
}

space-there_and_back_example :
    let v = loaded even_tape 2 in
    let w = (find_next_object ObjectType.block 1 false v).1 in
    let u = (find_next_object ObjectType.block (2 ^ 32 - 1) false w).1 in
    (w.tape.tape_position ≡ 10)
    × (w.tape.object_location ≡ 1)
    × (u.tape.tape_position ≡ 0)
    × (u.tape.object_location ≡ 0)
unfolding pad
space-there_and_back_example =
    space-there_and_back 2 (loaded even_tape 2) even_loaded-IsRecordAt (omega arith)

-- The tape behind a transfer that has written two bytes, wound back.
abbrev written_back : Drive
written_back =
    set_tape (λ t. record t { file = (write_record_part (7 ∷ 8 ∷ []) 2 (fresh 2)).1.tape.file })
      (fresh 2)

read_whole-write_record_part_example :
    ((write_record_part (7 ∷ 8 ∷ []) 2 (fresh 2)).0 ≡ ok tt)
    × ((read_whole 2 written_back).0 ≡ ok (7 ∷ 8 ∷ []))
    × ((read_whole 2 written_back).1.tape.tape_position
        ≡ (write_record_part (7 ∷ 8 ∷ []) 2 (fresh 2)).1.tape.tape_position)
read_whole-write_record_part_example =
    read_whole-write_record_part 2 (7 ∷ 8 ∷ []) (fresh 2) written_back fresh-IsWriting (omega arith)
      refl refl refl refl refl

find_next_object-fuel_example :
    let v = loaded even_tape 2 in
    (find_from 100 ObjectType.block 1 false false v
      ≡ find_from (rounds v) ObjectType.block 1 false false v)
    × (read_simh_meta_data 100 1 false v ≡ read_simh_meta_data (rounds v) 1 false v)
find_next_object-fuel_example =
    find_next_object-fuel 100 ObjectType.block 1 false false (loaded even_tape 2)
      (record { size = omega arith; at = λ r. cc r }) (omega arith)

write_record_part-IsWithin_example : IsWithin 100001 (write_record_part (7 ∷ 8 ∷ []) 2 (fresh 2)).1
write_record_part-IsWithin_example =
    write_record_part-IsWithin (7 ∷ 8 ∷ []) 2 100001 (fresh 2) (omega arith) (record {
      size = omega arith;
      max = omega arith;
      position = omega arith;
      bound = omega arith;
    })

-- In front of a transfer at a position behind the middle of the maximum size.
abbrev late : Drive
late = set_tape (λ t. record t { tape_position = 50000 }) (fresh 2)

write_record_part-overflow_example :
    ((write_record_part (7 ∷ 8 ∷ []) 2 late).0
      ≡ throw SenseKey.volume_overflow Asc.no_additional_sense_information)
    × ((write_record_part (7 ∷ 8 ∷ []) 2 late).1.tape.file ≡ late.tape.file)
    × ((write_record_part (7 ∷ 8 ∷ []) 2 late).1.tape.tape_position ≡ 50000)
write_record_part-overflow_example =
    write_record_part-overflow (7 ∷ 8 ∷ []) 2 late refl refl (omega arith) (omega arith)

tape_handlers-IsLawful_example :
    IsLawful (tape_handlers (λ lun cmd. none) (λ lun s. []) (λ lun n. default_mode_select))
unfolding default_mode_select
tape_handlers-IsLawful_example =
    tape_handlers-IsLawful (λ lun cmd. none) (λ lun s. []) (λ lun n. default_mode_select)
      (λ lun cmd. tt) (λ lun n s c. c)
