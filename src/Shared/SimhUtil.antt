-- ===== src/Shared/SimhUtil.antt =====
-- cpp/shared/simh_util.h and .cpp: the records of a SIMH tape image.
--
-- A stream is its bytes with a list of outcomes of the calls of the operating system; after the last
-- outcome all calls succeed. `&` with a mask and shifts are arithmetic.
pub mod Laws
use piscsi.Common.{
  ℕ, ◌+◌, ◌*◌, ◌/◌, ◌%◌, ◌^◌, Bool, true, false, not, ◌&&◌, Option, none, some, List, [], ◌∷◌, ◌++◌,
  if◌then◌else◌, ltb, ◌==◌, length, get_or, take, drop,
}

pub data SimhClass : Type 0 where
  tape_mark_good_data_record private_data_record_1 private_data_record_2 private_data_record_3 :
      SimhClass
  private_data_record_4 private_data_record_5 private_data_record_6 private_marker : SimhClass
  bad_data_record reserved_data_record_1 reserved_data_record_2 reserved_data_record_3 : SimhClass
  reserved_data_record_4 reserved_data_record_5 tape_description_data_record reserverd_marker :
      SimhClass

abbrev pub class_code : SimhClass → ℕ
class_code SimhClass.tape_mark_good_data_record = 0
class_code SimhClass.private_data_record_1 = 1
class_code SimhClass.private_data_record_2 = 2
class_code SimhClass.private_data_record_3 = 3
class_code SimhClass.private_data_record_4 = 4
class_code SimhClass.private_data_record_5 = 5
class_code SimhClass.private_data_record_6 = 6
class_code SimhClass.private_marker = 7
class_code SimhClass.bad_data_record = 8
class_code SimhClass.reserved_data_record_1 = 9
class_code SimhClass.reserved_data_record_2 = 10
class_code SimhClass.reserved_data_record_3 = 11
class_code SimhClass.reserved_data_record_4 = 12
class_code SimhClass.reserved_data_record_5 = 13
class_code SimhClass.tape_description_data_record = 14
class_code SimhClass.reserverd_marker = 15

-- `static_cast<SimhClass>` of four bits
abbrev pub class_of : ℕ → SimhClass
class_of n =
    if n == 0
    then SimhClass.tape_mark_good_data_record
    else if n == 1
    then SimhClass.private_data_record_1
    else if n == 2
    then SimhClass.private_data_record_2
    else if n == 3
    then SimhClass.private_data_record_3
    else if n == 4
    then SimhClass.private_data_record_4
    else if n == 5
    then SimhClass.private_data_record_5
    else if n == 6
    then SimhClass.private_data_record_6
    else if n == 7
    then SimhClass.private_marker
    else if n == 8
    then SimhClass.bad_data_record
    else if n == 9
    then SimhClass.reserved_data_record_1
    else if n == 10
    then SimhClass.reserved_data_record_2
    else if n == 11
    then SimhClass.reserved_data_record_3
    else if n == 12
    then SimhClass.reserved_data_record_4
    else if n == 13
    then SimhClass.reserved_data_record_5
    else if n == 14
    then SimhClass.tape_description_data_record
    else SimhClass.reserverd_marker

pub record SimhMetaData : Type 0 where
  pub cls : SimhClass
  pub value : ℕ

-- `SimhMarker::END_OF_MEDIUM`
abbrev pub end_of_medium : ℕ
end_of_medium = 0xfffffff

pub record Stream : Type 0 where
  pub bytes : List ℕ
  pub outcomes : List Bool

abbrev pub head_outcome : List Bool → Bool
head_outcome [] = true
head_outcome (good ∷ rest) = good

unfoldable pub from_little_endian : List ℕ → SimhMetaData
from_little_endian bytes =
    let data_32 =
      get_or bytes 3 0 * 2 ^ 24
      + get_or bytes 2 0 * 2 ^ 16
      + get_or bytes 1 0 * 2 ^ 8
      + get_or bytes 0 0 in
    record { cls = class_of (data_32 / 2 ^ 28); value = data_32 % 2 ^ 28 }

unfoldable pub to_little_endian : SimhMetaData → List ℕ
to_little_endian m =
    m.value % 2 ^ 8
    ∷ m.value / 2 ^ 8 % 2 ^ 8
    ∷ m.value / 2 ^ 16 % 2 ^ 8
    ∷ (m.value / 2 ^ 24 % 2 ^ 4 + class_code m.cls * 2 ^ 4)
    ∷ []

-- `ReadMetaData`: nothing after an error; the end of the file counts as the end of the medium.
unfoldable pub read_meta_data : Stream → Option SimhMetaData × Stream
read_meta_data s =
    if not (head_outcome s.outcomes)
    then (none, record s { outcomes = drop 1 s.outcomes })
    else if ltb (length s.bytes) 4
    then (
      some (record { cls = SimhClass.reserverd_marker; value = end_of_medium }),
      record { bytes = []; outcomes = drop 1 s.outcomes },
    )
    else (
      some (from_little_endian (take 4 s.bytes)),
      record { bytes = drop 4 s.bytes; outcomes = drop 1 s.outcomes },
    )

abbrev pub is_zero : ℕ → Bool
is_zero n = n == 0

-- `IsRecord`
unfoldable pub is_record : SimhMetaData → Bool
is_record m = elim m.cls [
  | SimhClass.tape_mark_good_data_record ↦ not (is_zero m.value)
  | SimhClass.bad_data_record ↦ not (is_zero m.value)
  | SimhClass.private_marker ↦ false
  | SimhClass.reserverd_marker ↦ false
  | _ ↦ true
]

-- `Pad`
unfoldable pub pad : ℕ → ℕ
pad n = n + (if not (n % 2 == 0) then 1 else 0)

-- What a write appends, as long as the stream is good.
unfoldable pub append : List ℕ → Bool × Stream → Bool × Stream
append bytes (good, s) =
    if good && head_outcome s.outcomes
    then (true, record { bytes = s.bytes ++ bytes; outcomes = drop 1 s.outcomes })
    else (false, record s { outcomes = drop 1 s.outcomes })

-- `WriteFilemark`
unfoldable pub write_filemark : Stream → Bool × Stream
unfolding append
write_filemark s = append (0 ∷ 0 ∷ 0 ∷ 0 ∷ []) (true, s)

-- The length before and behind a record.
abbrev pub length_bytes : ℕ → List ℕ
length_bytes n = n % 2 ^ 8 ∷ n / 2 ^ 8 % 2 ^ 8 ∷ n / 2 ^ 16 % 2 ^ 8 ∷ n / 2 ^ 24 % 2 ^ 8 ∷ []

-- `WriteGoodData` of the first `n` bytes
unfoldable pub write_good_data : List ℕ → ℕ → Stream → Bool × Stream
unfolding append
write_good_data bytes n s =
    append (length_bytes n) (append (take n bytes) (append (length_bytes n) (true, s)))
