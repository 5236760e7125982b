-- ===== src/Devices/Tape/Finding.antt =====
-- `GetByteCount`, `FindNextObject` and `FindObject` of cpp/devices/tape.cpp, on the rounds of Seeking.
use piscsi.Common.{
  ℕ, zero, suc, ◌-◌, ◌*◌, ◌%◌, ◌^◌, Bool, true, false, not, ◌&&◌, if◌then◌else◌, leb, ◌==◌,
  test_bit,
}
use piscsi.Scsi.{SenseKey, Asc}
use piscsi.Shared.MemoryUtil.{get_int24}
use piscsi.Shared.SimhUtil.{SimhClass, SimhMetaData, class_code}
use piscsi.Base.PrimaryDevice.{set_information, set_filemark}
use piscsi.Controllers.State.{ok, throw}
use piscsi.Devices.Tape.{
  Motion, ◌>>=◌, ObjectType, object_code, is_block, is_filemark, is_end_of_data, sub_32,
  private_marker_magic, set_tape, set_device, cdb_byte, raise_end_of_data,
}
use piscsi.Devices.Tape.Seeking.{
  Found, record_size, move_on, is_object, read_simh_meta_data, rounds,
}

-- `GetByteCount`
unfoldable pub get_byte_count : Motion ℕ
get_byte_count v =
    let fixed = test_bit 0 (cdb_byte 1 v) in
    let n = get_int24 v.cdb (if v.tape.expl then 12 else 2) in
    let v' = set_tape (λ t. record t { fixed = fixed }) v in
    if fixed && v.tape.block_size_for_descriptor == 0
    then (throw SenseKey.illegal_request Asc.invalid_field_in_cdb, v')
    else (ok (if fixed then n * v.block_size % 2 ^ 32 else n), v')

-- `RaiseFilemark`; the negative number is one of 32 bits.
unfoldable pub raise_filemark_with : {A : Type 0} → ℕ → Motion A
unfolding set_information set_filemark
raise_filemark_with info v = (
  throw SenseKey.no_sense Asc.no_additional_sense_information,
  set_device (λ d. set_filemark (set_information info d)) v,
)

unfoldable pub raise_filemark : {A : Type 0} → ℕ → Bool → Bool → Motion A
unfolding get_byte_count
raise_filemark info reverse read v =
    if read && not v.tape.fixed
    then (get_byte_count >>= raise_filemark_with) v
    else raise_filemark_with (if reverse then sub_32 0 info else info) v

-- What a round of a search leaves: its result, or the count to go on with.
pub data Search : Type 0 where
  hit : SimhMetaData → Search
  miss : ℕ → Search

-- `FindNextObject` where the object that has been found is not one at which it ends.
unfoldable pub count_object : ObjectType → ℕ → Found → Motion Search
count_object type count found v =
    if not (is_end_of_data type) && object_code found.type_found == object_code type
    then (ok (if leb count 1 then Search.hit found.meta_data else Search.miss (count - 1)), v)
    else (ok (Search.miss count), v)

-- A round of the loop of `FindNextObject`, after `ReadSimhMetaData`.
unfoldable pub examine : ObjectType → ℕ → Bool → Bool → Found → Motion Search
unfolding raise_end_of_data raise_filemark count_object
examine type count reverse read found v =
    let moved = if reverse then v else move_on (record_size found.meta_data) v in
    if read && is_block found.type_found && found.length == 0
    then (ok (Search.hit found.meta_data), v)
    else if is_end_of_data found.type_found && is_end_of_data type
    then (ok (Search.hit found.meta_data), moved)
    else if is_end_of_data found.type_found
    then raise_end_of_data count moved
    else if is_filemark found.type_found && is_block type
    then raise_filemark count reverse read moved
    else count_object type count found moved

unfoldable pub search_round : ObjectType → ℕ → Bool → Bool → Motion Search
search_round type count reverse read v =
    (read_simh_meta_data (rounds v) count reverse >>= examine type count reverse read) v

abbrev pub carry_search : (ℕ → Motion SimhMetaData) → Search → Motion SimhMetaData
carry_search more (Search.hit m) v = (ok m, v)
carry_search more (Search.miss count) v = more count v

-- The loop, on fuel; without fuel it fails.
unfoldable pub find_from : ℕ → ObjectType → ℕ → Bool → Bool → Motion SimhMetaData
find_from zero type count reverse read v =
    (throw SenseKey.aborted_command Asc.no_additional_sense_information, v)
find_from (suc n) type count reverse read v =
    (search_round type count reverse read
        >>= carry_search (λ count'. find_from n type count' reverse read))
      v

-- `FindNextObject`; the requested count has 32 bits with a sign.
unfoldable pub find_next_object : ObjectType → ℕ → Bool → Motion SimhMetaData
find_next_object type requested read v =
    let reverse = leb (2 ^ 31) requested in
    let count = if reverse then sub_32 0 requested else requested in
    find_from (rounds v) type count reverse read v

-- A round of `FindObject`: whether the object was found, or the identifier to go on with.
pub data Location : Type 0 where
  located : Bool → Location
  beyond : ℕ → Location

unfoldable pub pass : ℕ → SimhMetaData → Motion Location
pass identifier m v =
    let left = sub_32 identifier 1 in
    if class_code m.cls == class_code SimhClass.private_marker
      && m.value % 2 ^ 24 == private_marker_magic
    then (ok (Location.located false), v)
    else if is_object m && left == 0
    then (ok (Location.located true), move_on (record_size m) v)
    else if is_object m
    then (ok (Location.beyond left), move_on (record_size m) v)
    else (ok (Location.beyond identifier), v)

unfoldable pub locate_round : ℕ → Motion Location
locate_round identifier v =
    (read_simh_meta_data (rounds v) 0 false >>= λ found. pass identifier found.meta_data) v

abbrev pub carry_location : (ℕ → Motion Bool) → Location → Motion Bool
carry_location more (Location.located found) v = (ok found, v)
carry_location more (Location.beyond identifier) v = more identifier v

-- `FindObject`, on fuel; without fuel it fails.
unfoldable pub locate_from : ℕ → ℕ → Motion Bool
locate_from zero identifier v =
    (throw SenseKey.aborted_command Asc.no_additional_sense_information, v)
locate_from (suc n) identifier v = (locate_round identifier >>= carry_location (locate_from n)) v

unfoldable pub find_object : ℕ → Motion Bool
find_object identifier v = locate_from (rounds v) identifier v
