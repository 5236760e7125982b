-- ===== src/Devices/Tape/Reading.antt =====
-- `ReadData` of cpp/devices/tape.cpp without its calls of the controller: the begin of a record, its
-- data, and its end.
use piscsi.Common.{
  ℕ, ◌+◌, ◌/◌, ◌%◌, Bool, true, false, not, ◌&&◌, ◌||◌, List, if◌then◌else◌, ltb, ◌==◌, min,
  test_bit,
}
use piscsi.Scsi.{SenseKey, Asc}
use piscsi.Shared.SimhUtil.{SimhClass, SimhMetaData, class_code, pad, from_little_endian}
use piscsi.Base.PrimaryDevice.{set_information, set_ili}
use piscsi.Controllers.State.{ok, throw}
use piscsi.Devices.Tape.{
  Motion, ◌>>=◌, ◌>>◌, ObjectType, add_64, sub_64, sub_32, meta_data_size, read_file, set_tape,
  set_device, set_position, set_file, cdb_byte, count_read_error, check_for_read_error,
}
use piscsi.Devices.Tape.Seeking.{move_on}
use piscsi.Devices.Tape.Finding.{find_next_object}
use piscsi.Devices.Tape.Writing.{is_at_record_boundary, pass_data}

-- What `CheckBlockLength` returns, and whether it sets the status CHECK CONDITION.
unfoldable pub report_length : ℕ → Motion (ℕ × Bool)
unfolding set_information set_ili
report_length info v = (
  ok (min v.tape.record_length v.tape.byte_count, true),
  set_device (λ d. set_information info (set_ili d)) v,
)

-- `CheckBlockLength`
unfoldable pub check_block_length : Motion (ℕ × Bool)
unfolding report_length
check_block_length v =
    let t = v.tape in
    let blocks = sub_32 (sub_32 t.byte_count t.remaining_count / v.block_size) t.blocks_read in
    let suppressed = test_bit 1 (cdb_byte 1 v) in
    if t.record_length == t.byte_count
    then (ok (0, false), v)
    else if t.fixed && not (t.byte_count % t.record_length == 0)
    then report_length blocks v
    else if not t.fixed && (not suppressed || ltb t.record_length t.byte_count)
    then report_length (sub_32 t.byte_count t.record_length) v
    else (ok (0, false), v)

-- How a transfer goes on: the number of bytes, whether the sizes of the controller are set again, and
-- whether its status is CHECK CONDITION.
pub record Plan : Type 0 where
  pub length : ℕ
  pub resized : Bool
  pub check_condition : Bool

unfoldable pub plan_of : ℕ → ℕ × Bool → Motion Plan
plan_of chunk_size (actual, check) v =
    let n = min actual v.tape.byte_count in
    if actual == 0
    then (ok (record { length = chunk_size; resized = false; check_condition = check }), v)
    else (
      ok (record { length = min actual chunk_size; resized = true; check_condition = check }),
      set_tape (λ t. record t { byte_count = n; remaining_count = n }) v,
    )

-- The record that `FindNextObject` has found: the position goes back to its data.
unfoldable pub open_record : ℕ → SimhMetaData → Motion Plan
unfolding check_block_length plan_of
open_record chunk_size m v =
    let opened = set_tape (λ t. record t { record_length = m.value }) v in
    let start = sub_64 v.tape.tape_position (m.value + meta_data_size) in
    if class_code m.cls == class_code SimhClass.bad_data_record && m.value == 0
    then (throw SenseKey.medium_error Asc.read_error, count_read_error opened)
    else (check_block_length >>= plan_of chunk_size)
        (set_tape (λ t. record t { tape_position = start; record_start = start }) opened)

-- `ReadData` as far as the data
unfoldable pub begin_read : ℕ → Bool → Motion Plan
begin_read chunk_size false v =
    (ok (record { length = chunk_size; resized = false; check_condition = false }), v)
begin_read chunk_size true v =
    (find_next_object ObjectType.block 0 true >>= open_record chunk_size) v

-- `seekg` and `read` at the position, and `CheckForReadError`
unfoldable pub read_bytes : ℕ → Motion (List ℕ)
unfolding read_file check_for_read_error
read_bytes n v =
    let (good, bytes, f) = read_file v.tape.tape_position n v.tape.file in
    (check_for_read_error good >> λ w. (ok bytes, w)) (set_file f v)

-- `RaiseReadError`
unfoldable pub raise_read_error : {A : Type 0} → Motion A
unfolding set_information
raise_read_error v =
    let w =
      count_read_error
        (set_tape (λ t. record t { blocks_read = t.blocks_read + 1 }) (move_on meta_data_size v)) in
    (
      throw SenseKey.medium_error Asc.read_error,
      set_device (set_information (if w.tape.fixed then w.tape.blocks_read else w.tape.byte_count))
          w,
    )

-- The length behind the record
unfoldable pub check_trailer : List ℕ → Motion (Unit {0})
unfolding raise_read_error
check_trailer bytes v =
    let w = move_on meta_data_size v in
    let done =
      if v.tape.remaining_count == 0
      then set_tape (λ t. record t { blocks_read = t.blocks_read + 1 }) w
      else w in
    if (from_little_endian bytes).value == v.tape.record_length
    then (ok tt, done)
    else raise_read_error v

unfoldable pub end_read : Bool → Motion (Unit {0})
unfolding read_bytes check_trailer
end_read false v = (ok tt, v)
end_read true v =
    (read_bytes meta_data_size >>= check_trailer)
      (set_position (add_64 v.tape.record_start (pad v.tape.record_length)) v)

-- `ReadData` from the data on
unfoldable pub finish_read : ℕ → Motion (List ℕ)
unfolding read_bytes is_at_record_boundary end_read
finish_read n = read_bytes n >>= λ bytes v.
    (is_at_record_boundary >>= λ end. end_read end >> λ w. (ok bytes, w)) (pass_data n v)
