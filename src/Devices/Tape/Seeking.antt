-- ===== src/Devices/Tape/Seeking.antt =====
-- How cpp/devices/tape.cpp moves over the objects of a tape: `ReadNextMetaData`, `ReadSimhMetaData`,
-- `FindNextObject` and `FindObject`.
--
-- The loops take fuel. Each round of a forward search moves on by four bytes at least, and the end of
-- the file ends it; a round backwards moves back by four bytes, and the begin of the file ends it. So
-- the size of the file and the position together are enough rounds.
use piscsi.Common.{
  ℕ, zero, suc, ◌+◌, ◌-◌, ◌/◌, ◌%◌, ◌^◌, Bool, true, false, ◌&&◌, ◌||◌, Option, none, some,
  if◌then◌else◌, ◌==◌, min,
}
use piscsi.Scsi.{SenseKey, Asc}
use piscsi.Shared.SimhUtil.{
  SimhClass, SimhMetaData, end_of_medium, is_record, pad, read_meta_data, class_code,
}
use piscsi.Controllers.State.{ok, throw}
use piscsi.Devices.Tape.{
  Drive, Motion, TapeFile, ◌>>=◌, ObjectType, object_of, add_64, sub_64, is_negative,
  meta_data_size, private_marker_magic, window, set_tape, set_position, set_file, count_read_error,
  raise_beginning_of_partition, raise_end_of_partition,
}

-- `IsRecord(m) ? Pad(m.value) + META_DATA_SIZE : 0`
abbrev pub record_size : SimhMetaData → ℕ
record_size m = if is_record m then pad m.value + meta_data_size else 0

-- `seekg` and `ReadMetaData` of cpp/shared/simh_util.cpp
unfoldable pub read_meta : ℕ → TapeFile → Option SimhMetaData × TapeFile
read_meta p f =
    let (m, s) =
      read_meta_data
        (record { bytes = window f.bytes p (min 4 (f.size - p)); outcomes = f.outcomes }) in
    if is_negative p then (none, f) else (m, record f { outcomes = s.outcomes })

-- What the meta data at the position are, or the read error.
unfoldable pub read_here : Motion SimhMetaData
unfolding read_meta
read_here v =
    let (o, f) = read_meta v.tape.tape_position v.tape.file in
    elim o [
      | none ↦ (throw SenseKey.medium_error Asc.read_error, count_read_error (set_file f v))
      | some m ↦ (ok m, set_file f v)
    ]

abbrev pub move_on : ℕ → Drive → Drive
move_on n v = set_position (add_64 v.tape.tape_position n) v

abbrev pub move_back : ℕ → Drive → Drive
move_back n v = set_position (sub_64 v.tape.tape_position n) v

-- `ReadNextMetaData`; nothing where it returns false.
unfoldable pub read_next_meta_data : Bool → Motion (Option SimhMetaData)
unfolding read_here
read_next_meta_data true v =
    let v' = move_back meta_data_size v in
    if is_negative v'.tape.tape_position
    then (ok none, v')
    else (read_here >>= λ m w. (ok (some m), move_back (record_size m) w)) v'
read_next_meta_data false v = (read_here >>= λ m w. (ok (some m), move_on meta_data_size w)) v

-- `UpdateObjectLocation`
abbrev pub is_object : SimhMetaData → Bool
is_object m =
    is_record m
    || (class_code m.cls == class_code SimhClass.bad_data_record && m.value == 0)
    || (class_code m.cls == class_code SimhClass.tape_mark_good_data_record && m.value == 0)

unfoldable pub update_object_location : SimhMetaData → Bool → Drive → Drive
update_object_location m reverse v =
    let l = v.tape.object_location in
    let moved = if reverse then sub_64 l 1 else add_64 l 1 in
    if is_object m then set_tape (λ t. record t { object_location = moved }) v else v

-- What the `switch` of `ReadSimhMetaData` makes of meta data: an object with its length, the end of
-- the medium, or nothing, with the number of bytes that are skipped in a search forward.
pub data Sight : Type 0 where
  object : ObjectType → ℕ → Sight
  medium_end : Sight
  skipped : ℕ → Sight

abbrev pub private_sight : ℕ → Sight
private_sight value =
    if value % 2 ^ 24 == private_marker_magic
    then Sight.object (object_of (value / 2 ^ 24 % 2 ^ 4)) 0
    else Sight.skipped 0

unfoldable pub sight : SimhMetaData → Sight
sight m = elim m.cls [
  | SimhClass.tape_mark_good_data_record ↦
      Sight.object (if m.value == 0 then ObjectType.filemark else ObjectType.block) m.value
  | SimhClass.bad_data_record ↦ Sight.object ObjectType.block m.value
  | SimhClass.reserverd_marker ↦
      if m.value == end_of_medium then Sight.medium_end else Sight.skipped 0
  | SimhClass.private_marker ↦ private_sight m.value
  | _ ↦ Sight.skipped (record_size m)
]

-- What `ReadSimhMetaData` returns
pub record Found : Type 0 where
  pub meta_data : SimhMetaData
  pub type_found : ObjectType
  pub length : ℕ

-- One round of the loop of `ReadSimhMetaData`: nothing if the loop goes on.
unfoldable pub see : ℕ → Bool → SimhMetaData → Motion (Option Found)
unfolding sight
see count reverse m v = elim (sight m) [
  | Sight.object type n ↦ (ok (some (record { meta_data = m; type_found = type; length = n })), v)
  | Sight.medium_end ↦ raise_end_of_partition count v
  | Sight.skipped n ↦ (ok none, if reverse then v else move_on n v)
]

unfoldable pub look : ℕ → Bool → Option SimhMetaData → Motion (Option Found)
unfolding update_object_location raise_beginning_of_partition
look count reverse none v = raise_beginning_of_partition count v
look count reverse (some m) v = see count reverse m (update_object_location m reverse v)

unfoldable pub round : ℕ → Bool → Motion (Option Found)
round count reverse = read_next_meta_data reverse >>= look count reverse

-- The loop ends with an object, or goes on.
abbrev pub carry_on : Motion Found → Option Found → Motion Found
carry_on more none v = more v
carry_on more (some found) v = (ok found, v)

-- `ReadSimhMetaData`, on fuel; without fuel it fails.
unfoldable pub read_simh_meta_data : ℕ → ℕ → Bool → Motion Found
read_simh_meta_data zero count reverse v =
    (throw SenseKey.aborted_command Asc.no_additional_sense_information, v)
read_simh_meta_data (suc n) count reverse v =
    (round count reverse >>= carry_on (read_simh_meta_data n count reverse)) v

-- The rounds that are enough.
abbrev pub rounds : Drive → ℕ
rounds v = v.tape.file.size + v.tape.tape_position + 2
