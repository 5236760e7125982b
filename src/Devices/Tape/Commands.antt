-- ===== src/Devices/Tape/Commands.antt =====
-- The other commands of cpp/devices/tape.cpp.
use piscsi.Common.{
  ℕ, zero, suc, ◌+◌, ◌-◌, ◌%◌, ◌^◌, Bool, true, false, not, ◌&&◌, ◌||◌, List, if◌then◌else◌, leb,
  ◌==◌, pos, test_bit, set, write_at, replicate,
}
use piscsi.Scsi.{SenseKey, Asc, write_filemarks_16, locate_16}
use piscsi.Shared.MemoryUtil.{get_int24, get_int64, set_int16, set_int32}
use piscsi.Controllers.State.{Controller, ok, throw, Action, raise_if, run, get_cdb_byte}
use piscsi.Controllers.State
use piscsi.Controllers.Device.{status_phase, data_in_phase, check_ready}
use piscsi.Devices.StorageDevice.{check_write_preconditions}
use piscsi.Devices.Tape.{
  Motion, ◌>>=◌, ◌>>◌, ObjectType, object_of, reset_positions, cdb_byte, meta_data_size,
  is_negative,
}
use piscsi.Devices.Tape.Seeking.{move_back}
use piscsi.Devices.Tape.Finding.{find_next_object, find_object}
use piscsi.Devices.Tape.Writing.{erase, write_meta_data}
use piscsi.Devices.Tape.Transfer.{Tapes, on_drive, change, locate, expect_located, check_cdb}

-- A command that ends in the STATUS phase
abbrev pub then_status : ℕ → Motion (Unit {0}) → Action Tapes (Unit {0})
then_status lun m = State.◌>>◌ (on_drive lun m) status_phase

-- A tar file has no such command.
unfoldable pub refuse_tar : ℕ → Action Tapes (Unit {0})
refuse_tar lun s =
    raise_if (s.extra.unit lun).tar_file SenseKey.illegal_request Asc.invalid_command_operation_code
      s

-- `Erase6`, on a medium that may be written
abbrev pub erase_all : Motion (Unit {0})
erase_all = erase >> change reset_positions

unfoldable pub erase_medium : Motion (Unit {0})
unfolding reset_positions
erase_medium v =
    (if test_bit 0 (cdb_byte 1 v)
        then erase_all >> write_meta_data ObjectType.end_of_data 0
        else write_meta_data ObjectType.end_of_data 0)
      v

unfoldable pub modify : ℕ → Motion (Unit {0}) → Action Tapes (Unit {0})
modify lun m = State.◌>>◌ (check_write_preconditions lun) (then_status lun m)

unfoldable pub modify_tape : ℕ → Motion (Unit {0}) → Action Tapes (Unit {0})
modify_tape lun m = State.◌>>◌ (refuse_tar lun) (modify lun m)

unfoldable pub erase_6_command : ℕ → Action Tapes (Unit {0})
erase_6_command lun = State.◌>>◌ (check_ready lun) (modify_tape lun erase_medium)

-- `ReadBlockLimits`
unfoldable pub read_block_limits_command : Action Tapes (Unit {0})
unfolding set_int32 set_int16
read_block_limits_command s =
    data_in_phase (pos 6) (record s { buffer = set_int16 (set_int32 s.buffer 0 0x02fffffc) 4 4 })

-- REWIND
unfoldable pub rewind_command : ℕ → Action Tapes (Unit {0})
rewind_command lun = then_status lun (change reset_positions)

-- `GetSignedInt24`, with 32 bits
unfoldable pub get_signed_int24 : List ℕ → ℕ → ℕ
get_signed_int24 buf offset =
    let value = get_int24 buf offset in
    if leb 0x800000 value then value + 2 ^ 32 - 0x1000000 else value

-- `Space6` by the object type of the CDB
unfoldable pub space_over : ObjectType → Motion (Unit {0})
unfolding get_signed_int24
space_over (ObjectType.other_type n) v =
    (throw SenseKey.illegal_request Asc.invalid_field_in_cdb, v)
space_over ObjectType.end_of_data v =
    (find_next_object ObjectType.end_of_data 0 false >>= λ m. change (move_back meta_data_size)) v
space_over ObjectType.filemark v =
    let count = get_signed_int24 v.cdb 2 in
    if count == 0
    then (ok tt, v)
    else (find_next_object ObjectType.filemark count false >>= λ m w. (ok tt, w)) v
space_over ObjectType.block v =
    let count = get_signed_int24 v.cdb 2 in
    if count == 0
    then (ok tt, v)
    else (find_next_object ObjectType.block count false >>= λ m w. (ok tt, w)) v

unfoldable pub space : Motion (Unit {0})
unfolding space_over
space v = space_over (object_of (cdb_byte 1 v % 2 ^ 3)) v

unfoldable pub space_tape : ℕ → Action Tapes (Unit {0})
space_tape lun = State.◌>>◌ (refuse_tar lun) (then_status lun space)

unfoldable pub space_6_command : ℕ → Action Tapes (Unit {0})
space_6_command lun = State.◌>>◌ (check_ready lun) (space_tape lun)

-- The filemarks of `WriteFilemarks`
unfoldable pub put_filemarks : ℕ → Motion (Unit {0})
put_filemarks zero v = (ok tt, v)
put_filemarks (suc n) v = (write_meta_data ObjectType.filemark 0 >> put_filemarks n) v

-- `WriteFilemarks` where an identifier is to be found first
unfoldable pub find_identifier : Motion (Unit {0})
unfolding reset_positions expect_located
find_identifier v =
    let identifier = get_int64 v.cdb 4 % 2 ^ 32 in
    let located = change reset_positions >> (find_object identifier >>= expect_located) in
    if identifier == 0 then (ok tt, v) else located v

unfoldable pub mark : Bool → Motion (Unit {0})
mark true v = (find_identifier >> put_filemarks (get_int24 v.cdb 12)) v
mark false v = put_filemarks (get_int24 v.cdb 2) v

abbrev pub refuses_filemarks : Bool → Controller Tapes → Bool
refuses_filemarks write_filemarks_16 s =
    test_bit 1 (get_cdb_byte 1 s)
    || (write_filemarks_16
        && (test_bit 2 (get_cdb_byte 1 s)
            || test_bit 3 (get_cdb_byte 1 s)
            || not (get_cdb_byte 3 s == 0)))

unfoldable pub mark_tape : ℕ → Bool → Action Tapes (Unit {0})
unfolding check_cdb
mark_tape lun write_filemarks_16 =
    State.◌>>◌ (check_cdb (refuses_filemarks write_filemarks_16))
      (modify lun (mark write_filemarks_16))

-- `WriteFilemarks`; a tar file has none.
unfoldable pub mark_or_skip : ℕ → Bool → Action Tapes (Unit {0})
mark_or_skip lun write_filemarks_16 s =
    if (s.extra.unit lun).tar_file then status_phase s else mark_tape lun write_filemarks_16 s

unfoldable pub write_filemarks_command : ℕ → Bool → Action Tapes (Unit {0})
write_filemarks_command lun write_filemarks_16 =
    State.◌>>◌ (check_ready lun) (mark_or_skip lun write_filemarks_16)

-- LOCATE: whether the object was found is not looked at.
abbrev pub locate_any : Bool → Motion (Unit {0})
locate_any locate_16 = locate locate_16 >>= λ found v. (ok tt, v)

unfoldable pub locate_command : ℕ → Bool → Action Tapes (Unit {0})
locate_command lun locate_16 = State.◌>>◌ (check_ready lun) (then_status lun (locate_any locate_16))

-- `ReadPosition`
unfoldable pub report_position : ℕ → Action Tapes (Unit {0})
unfolding set_int32
report_position lun s =
    let t = s.extra.unit lun in
    let at_start = t.tape_position == 0 in
    let at_end = not (is_negative t.tape_position) && leb t.file_size t.tape_position in
    let flags = (if at_start then 0x80 else 0) + (if at_end then 0x40 else 0) in
    let p =
      (if test_bit 0 (get_cdb_byte 1 s) then t.tape_position else t.object_location) % 2 ^ 32 in
    let cleared = set (write_at s.buffer 0 (replicate 20 0)) 0 flags in
    data_in_phase (pos 20) (record s { buffer = set_int32 (set_int32 cleared 4 p) 8 p })

unfoldable pub read_position_command : ℕ → Action Tapes (Unit {0})
read_position_command lun = State.◌>>◌ (check_ready lun) (report_position lun)

-- `FormatMedium`, on a medium that may be written
unfoldable pub format : Motion (Unit {0})
unfolding reset_positions
format v =
    let formatted = erase_all >> write_meta_data ObjectType.end_of_data 0 in
    if not (v.tape.tape_position == 0)
    then (throw SenseKey.illegal_request Asc.sequential_positioning_error, v)
    else formatted v

unfoldable pub format_medium_command : ℕ → Action Tapes (Unit {0})
format_medium_command lun = State.◌>>◌ (check_ready lun) (modify_tape lun format)
