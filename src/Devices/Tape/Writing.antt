-- ===== src/Devices/Tape/Writing.antt =====
-- What cpp/devices/tape.cpp writes to a tape: `WriteSimhMetaData`, `WriteMetaData`, the part of
-- `WriteData` that does not call the controller, and `Erase`.
use piscsi.Common.{
  ℕ, zero, suc, ◌+◌, ◌-◌, ◌*◌, ◌/◌, ◌%◌, ◌^◌, Bool, true, false, ◌||◌, List, [], ◌∷◌, if◌then◌else◌,
  ltb, leb, ◌==◌, min, take,
}
use piscsi.Shared.SimhUtil.{SimhClass, to_little_endian}
use piscsi.Controllers.State.{ok}
use piscsi.Devices.Tape.{
  Drive, Motion, ◌>>=◌, ◌>>◌, ObjectType, object_code, is_end_of_data, add_64, sub_64, sub_32,
  is_negative, meta_data_size, private_marker_magic, write_file, set_tape, set_file,
  check_for_write_error, check_for_overflow,
}
use piscsi.Devices.Tape.Seeking.{move_on}

-- `write` at the position of the tape, on a stream that is good or not, and `CheckForWriteError`.
unfoldable pub write_here : Bool → List ℕ → Motion (Unit {0})
unfolding write_file check_for_write_error
write_here good bytes v =
    let (written, f) = write_file v.tape.tape_position bytes v.tape.file in
    if good then check_for_write_error written (set_file f v) else check_for_write_error false v

-- `WriteSimhMetaData` at the position of the tape; the flag tells whether the stream is good.
unfoldable pub write_simh_meta_data : Bool → SimhClass → ℕ → Motion (Unit {0})
unfolding check_for_overflow write_here
write_simh_meta_data good cls value v =
    (check_for_overflow (add_64 v.tape.tape_position meta_data_size)
        >> write_here good (to_little_endian (record { cls = cls; value = value })))
      v

-- The value of the private marker for an object.
abbrev pub marker_value : ObjectType → ℕ
marker_value type = object_code type * 2 ^ 24 + private_marker_magic

-- The end-of-data object behind the last position, if it fits into the file as it was opened.
unfoldable pub write_end_of_data : Motion (Unit {0})
unfolding write_simh_meta_data
write_end_of_data v =
    let end = add_64 v.tape.tape_position meta_data_size in
    if is_negative end || leb end v.tape.file_size
    then write_simh_meta_data true SimhClass.private_marker (marker_value ObjectType.end_of_data) v
    else (ok tt, v)

-- `WriteMetaData`
unfoldable pub write_meta_data : ObjectType → ℕ → Motion (Unit {0})
unfolding write_simh_meta_data write_end_of_data
write_meta_data type size v =
    let marked =
      write_simh_meta_data true SimhClass.tape_mark_good_data_record size
      >> (λ w. write_end_of_data (move_on meta_data_size w)) in
    if v.tape.tar_file
    then (ok tt, v)
    else if is_end_of_data type
    then write_end_of_data v
    else marked v

-- `IsAtRecordBoundary`
unfoldable pub is_at_record_boundary : Motion Bool
is_at_record_boundary v =
    let t = v.tape in
    let boundary =
      t.fixed
      || t.initial
      || t.remaining_count == 0
      || sub_32 t.byte_count t.remaining_count == t.record_length in
    if t.tar_file
    then (ok false, v)
    else (ok boundary, set_tape (λ t. record t { initial = false }) v)

-- `WriteData`: the begin of a record, its data, and its end.
unfoldable pub begin_record : Bool → Motion (Unit {0})
unfolding write_meta_data
begin_record false v = (ok tt, v)
begin_record true v = write_meta_data ObjectType.block v.tape.record_length v

abbrev pub pass_data : ℕ → Drive → Drive
pass_data n v =
    set_tape
      (λ t. record t {
        remaining_count = sub_32 t.remaining_count n;
        tape_position = add_64 t.tape_position n;
      })
      v

unfoldable pub write_record_data : List ℕ → ℕ → Motion (Unit {0})
unfolding check_for_overflow write_here
write_record_data buf n =
    (check_for_overflow n >> write_here true (take n buf)) >> λ v. (ok tt, pass_data n v)

-- The position behind the record, which is one more object.
abbrev pub leave_record : Motion (Unit {0})
leave_record v = (
  ok tt,
  set_tape (λ t. record t { object_location = add_64 t.object_location 1 })
      (move_on meta_data_size v),
)

-- The length behind the record
unfoldable pub write_trailer : Bool → Motion (Unit {0})
unfolding write_simh_meta_data
write_trailer good v =
    (write_simh_meta_data good SimhClass.tape_mark_good_data_record v.tape.record_length
        >> leave_record)
      v

-- A byte is added where the position is odd; what it meets is known to the next check.
unfoldable pub end_record : Bool → Motion (Unit {0})
unfolding write_trailer write_file
end_record false v = (ok tt, v)
end_record true v =
    let (padded, f) = write_file v.tape.tape_position (0 ∷ []) v.tape.file in
    if v.tape.tape_position % 2 == 0
    then write_trailer true v
    else write_trailer padded (move_on 1 (set_file f v))

unfoldable pub end_transfer : Motion (Unit {0})
unfolding write_meta_data
end_transfer v =
    if v.tape.remaining_count == 0 then write_meta_data ObjectType.end_of_data 0 v else (ok tt, v)

abbrev pub close_part : Bool → Motion (Unit {0})
close_part end = end_record end >> end_transfer

abbrev pub write_part : List ℕ → ℕ → Motion (Unit {0})
write_part buf n = write_record_data buf n >> (is_at_record_boundary >>= close_part)

abbrev pub write_from : List ℕ → ℕ → Bool → Motion (Unit {0})
write_from buf n start = begin_record start >> write_part buf n

unfoldable pub write_record_part : List ℕ → ℕ → Motion (Unit {0})
unfolding is_at_record_boundary begin_record write_record_data end_record end_transfer
write_record_part buf chunk_size v =
    (is_at_record_boundary >>= write_from buf (min v.tape.byte_count chunk_size)) v

-- The bytes with which `Erase` fills the tape: those of `SimhMarker::ERASE_GAP`.
abbrev pub erase_gap : ℕ
erase_gap = 0xffffffe

unfoldable pub gap_bytes : ℕ → ℕ → List ℕ
gap_bytes zero i = []
gap_bytes (suc n) i =
    (if i % 4 == 0 then erase_gap % 2 ^ 8 else if i % 4 == 3 then erase_gap / 2 ^ 24 else 0xff)
    ∷ gap_bytes n (i + 1)

-- A round of the loop of `Erase`, which writes `chunk` bytes.
unfoldable pub erase_chunk : ℕ → Motion (Unit {0})
unfolding write_here
erase_chunk chunk = write_here true (gap_bytes chunk 0) >> λ v. (
  ok tt,
  set_tape
      (λ t. record t {
        tape_position = add_64 t.tape_position chunk;
        object_location = add_64 t.object_location (chunk / v.block_size);
      })
      v,
)

-- The loop on the bytes that remain, on fuel; without fuel it ends.
unfoldable pub erase_from : ℕ → ℕ → Motion (Unit {0})
erase_from zero remaining v = (ok tt, v)
erase_from (suc n) remaining v =
    let chunk = min remaining 4096 in
    let rest = erase_chunk chunk >> erase_from n (remaining - chunk) in
    if ltb remaining 4 then (ok tt, v) else rest v

-- `Erase`: 4096 bytes in a round, so that this fuel is enough.
unfoldable pub erase : Motion (Unit {0})
erase v =
    let remaining = sub_64 v.tape.file_size v.tape.tape_position in
    erase_from (remaining / 4096 + 2) remaining v
