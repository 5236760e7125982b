-- ===== src/Shared/SimhUtil/Laws.antt =====
-- Reading what has been written: cpp/shared/simh_util.cpp.
use piscsi.Common.{ℕ, ◌+◌, ◌*◌, ◌/◌, ◌%◌, ◌^◌, ◌<◌, ◌≡◌, refl, some, List, [], ◌++◌, arith, take}
use piscsi.Shared.SimhUtil.{
  SimhClass, SimhMetaData, class_code, class_of, from_little_endian, to_little_endian,
  read_meta_data, write_good_data, length_bytes, append,
}

class_of-class_code : (c : SimhClass) → class_of (class_code c) ≡ c
class_of-class_code c = elim c as (λ k. class_of (class_code k) ≡ k) [
  | SimhClass.tape_mark_good_data_record ↦ refl
  | SimhClass.private_data_record_1 ↦ refl
  | SimhClass.private_data_record_2 ↦ refl
  | SimhClass.private_data_record_3 ↦ refl
  | SimhClass.private_data_record_4 ↦ refl
  | SimhClass.private_data_record_5 ↦ refl
  | SimhClass.private_data_record_6 ↦ refl
  | SimhClass.private_marker ↦ refl
  | SimhClass.bad_data_record ↦ refl
  | SimhClass.reserved_data_record_1 ↦ refl
  | SimhClass.reserved_data_record_2 ↦ refl
  | SimhClass.reserved_data_record_3 ↦ refl
  | SimhClass.reserved_data_record_4 ↦ refl
  | SimhClass.reserved_data_record_5 ↦ refl
  | SimhClass.tape_description_data_record ↦ refl
  | SimhClass.reserverd_marker ↦ refl
]

-- The four bytes of a number give the number.
bytes_sum :
    (v k : ℕ)
    → v < 2 ^ 28
    → (v / 2 ^ 24 % 2 ^ 4 + k * 2 ^ 4) * 2 ^ 24
        + v / 2 ^ 16 % 2 ^ 8 * 2 ^ 16
        + v / 2 ^ 8 % 2 ^ 8 * 2 ^ 8
        + v % 2 ^ 8
      ≡ k * 2 ^ 28 + v
bytes_sum v k h = omega arith

-- Meta data with a value of 28 bits are read back as they were written.
pub from_little_endian-to_little_endian :
    (m : SimhMetaData) → m.value < 2 ^ 28 → from_little_endian (to_little_endian m) ≡ m
unfolding from_little_endian to_little_endian
from_little_endian-to_little_endian m h =
    let sum = bytes_sum m.value (class_code m.cls) h in
    let high : (class_code m.cls * 2 ^ 28 + m.value) / 2 ^ 28 ≡ class_code m.cls = omega arith in
    let low : (class_code m.cls * 2 ^ 28 + m.value) % 2 ^ 28 ≡ m.value = omega arith in
    cc (sum, high, low, class_of-class_code m.cls)

-- The length of a record that fits into 28 bits is read as the meta data of good data.
from_little_endian-length_bytes :
    (n : ℕ)
    → n < 2 ^ 28
    → from_little_endian (length_bytes n)
      ≡ record { cls = SimhClass.tape_mark_good_data_record; value = n }
unfolding from_little_endian
from_little_endian-length_bytes n h =
    let v =
      n / 2 ^ 24 % 2 ^ 8 * 2 ^ 24
      + n / 2 ^ 16 % 2 ^ 8 * 2 ^ 16
      + n / 2 ^ 8 % 2 ^ 8 * 2 ^ 8
      + n % 2 ^ 8 in
    let sum : v ≡ n = omega arith in
    let high : v / 2 ^ 28 ≡ 0 = omega arith in
    let low : v % 2 ^ 28 ≡ n = omega arith in
    cc (high, low, class_of-class_code SimhClass.tape_mark_good_data_record)

-- A record of good data that is written to an empty stream, with no error of the operating system,
-- is read back: first its meta data, with its length, and behind them are its data and the length
-- again.
pub read_meta_data-write_good_data :
    (bytes : List ℕ) (n : ℕ)
    → n < 2 ^ 28
    → read_meta_data (write_good_data bytes n (record { bytes = []; outcomes = [] })).1 ≡ (
      some (record { cls = SimhClass.tape_mark_good_data_record; value = n }),
      record { bytes = take n bytes ++ length_bytes n; outcomes = [] },
    )
unfolding read_meta_data write_good_data append
read_meta_data-write_good_data bytes n h = ground (arith, from_little_endian-length_bytes n h)
