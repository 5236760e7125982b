-- ===== src/Devices/Tape/Spacing.antt =====
-- Spacing over a record of good data (cpp/devices/tape.cpp), forward and backward.
use piscsi.Common.{
  ℕ, zero, suc, ◌+◌, ◌-◌, ◌^◌, ◌≤◌, ◌<◌, ◌≡◌, refl, sym, ap, ◌∙◌, subst, Bool, true, false, some,
  List, [], arith, leb, min, take, ◌==◌,
}
use piscsi.Shared.SimhUtil.{
  SimhClass, SimhMetaData, from_little_endian, read_meta_data, pad, is_record,
}
use piscsi.Controllers.State.{Outcome, ok}
use piscsi.Devices.Tape.{TapeFile, Drive, ObjectType, window, add_64, sub_64, is_negative}
use piscsi.Devices.Tape.Seeking.{
  Found, read_meta, read_here, read_next_meta_data, update_object_location, see, sight, look, round,
  read_simh_meta_data, rounds, record_size, move_on, move_back,
}
use piscsi.Devices.Tape.Finding.{examine, count_object, search_round, find_from, find_next_object}
use piscsi.Devices.Tape.Progress.{length-window}

-- Meta data of a record of good data
abbrev pub good_data : ℕ → SimhMetaData
good_data n = record { cls = SimhClass.tape_mark_good_data_record; value = n }

-- Meta data stand at a position of a file.
pub record Stands (m : SimhMetaData) (p : ℕ) (f : TapeFile) : Type 0 where
  pub meta : from_little_endian (window f.bytes p 4) ≡ m
  pub inside : p + 4 ≤ f.size
  pub bound : f.size < 2 ^ 62
  pub good : f.outcomes ≡ []

take-all : (bytes : ℕ → ℕ) (p n : ℕ) → take n (window bytes p n) ≡ window bytes p n
unfolding window
take-all bytes p zero = refl
take-all bytes p (suc n) = ap (λ xs. List.◌∷◌ (bytes p) xs) (take-all bytes (p + 1) n)

read_meta-Stands :
    (m : SimhMetaData) (p : ℕ) (f : TapeFile) → Stands m p f → read_meta p f ≡ (some m, f)
unfolding read_meta read_meta_data
read_meta-Stands m p f s =
    let four : min 4 (f.size - p) ≡ 4 = omega (arith, s.inside) in
    let n = length-window f.bytes p 4 in
    let all = take-all f.bytes p 4 in
    let low : is_negative p ≡ false = ground (arith, s.inside, s.bound) in
    rw four (ground (arith, n, all, low, s.meta, s.good))

read_here-Stands :
    (m : SimhMetaData) (v : Drive)
    → Stands m v.tape.tape_position v.tape.file
    → read_here v ≡ (ok m, v)
unfolding read_here
read_here-Stands m v s = ground (arith, read_meta-Stands m v.tape.tape_position v.tape.file s)

found_block : ℕ → Found
found_block n = record { meta_data = good_data n; type_found = ObjectType.block; length = n }

-- The drive behind the meta data, in front of the data.
abbrev pub behind_meta : ℕ → Drive → Drive
behind_meta n v = update_object_location (good_data n) false (move_on 4 v)

read_simh_meta_data-good :
    (k count n : ℕ) (v : Drive)
    → Stands (good_data n) v.tape.tape_position v.tape.file
    → (n == 0) ≡ false
    → read_simh_meta_data (suc k) count false v ≡ (ok (found_block n), behind_meta n v)
unfolding read_simh_meta_data round read_next_meta_data look see sight found_block
read_simh_meta_data-good k count n v s e =
    let here = read_here-Stands (good_data n) v s in ground (arith, here, e)

-- The drive in front of the record, after a step backwards from its end.
abbrev pub before_record : ℕ → Drive → Drive
before_record n v =
    update_object_location (good_data n) true
      (move_back (record_size (good_data n)) (move_back 4 v))

read_simh_meta_data-good_back :
    (k count n : ℕ) (v : Drive)
    → Stands (good_data n) (sub_64 v.tape.tape_position 4) v.tape.file
    → (n == 0) ≡ false
    → read_simh_meta_data (suc k) count true v ≡ (ok (found_block n), before_record n v)
unfolding read_simh_meta_data round read_next_meta_data look see sight found_block
read_simh_meta_data-good_back k count n v s e =
    let here = read_here-Stands (good_data n) (move_back 4 v) s in
    let low : is_negative (sub_64 v.tape.tape_position 4) ≡ false =
      ground (arith, s.inside, s.bound) in
    ground (arith, here, e, low)

abbrev pub behind_record : ℕ → Drive → Drive
behind_record n v = move_on (record_size (good_data n)) (behind_meta n v)

find_from-good :
    (k n count : ℕ) (read : Bool) (v : Drive)
    → count ≤ 1
    → Stands (good_data n) v.tape.tape_position v.tape.file
    → (n == 0) ≡ false
    → find_from (suc k) ObjectType.block count false read v ≡ (ok (good_data n), behind_record n v)
unfolding find_from search_round examine count_object found_block
find_from-good k n count read v c s e =
    let fuel : suc (v.tape.file.size + v.tape.tape_position + 1) ≡ rounds v = omega arith in
    let found =
      subst (λ r. read_simh_meta_data r count false v ≡ (ok (found_block n), behind_meta n v)) fuel
        (read_simh_meta_data-good (v.tape.file.size + v.tape.tape_position + 1) count n v s e) in
    ground (arith, found, e, c)

find_from-good_back :
    (k n : ℕ) (v : Drive)
    → Stands (good_data n) (sub_64 v.tape.tape_position 4) v.tape.file
    → (n == 0) ≡ false
    → find_from (suc k) ObjectType.block 1 true false v ≡ (ok (good_data n), before_record n v)
unfolding find_from search_round examine count_object found_block
find_from-good_back k n v s e =
    let fuel : suc (v.tape.file.size + v.tape.tape_position + 1) ≡ rounds v = omega arith in
    let found =
      subst (λ r. read_simh_meta_data r 1 true v ≡ (ok (found_block n), before_record n v)) fuel
        (read_simh_meta_data-good_back (v.tape.file.size + v.tape.tape_position + 1) 1 n v s e) in
    ground (arith, found, e)

-- A search for the next block finds the record at the position.
pub find_next_object-good :
    (n count : ℕ) (read : Bool) (v : Drive)
    → count ≤ 1
    → Stands (good_data n) v.tape.tape_position v.tape.file
    → (n == 0) ≡ false
    → find_next_object ObjectType.block count read v ≡ (ok (good_data n), behind_record n v)
unfolding find_next_object
find_next_object-good n count read v c s e =
    let fuel : suc (v.tape.file.size + v.tape.tape_position + 1) ≡ rounds v = omega arith in
    let found =
      subst
        (λ r.
          find_from r ObjectType.block count false read v ≡ (ok (good_data n), behind_record n v))
        fuel (find_from-good (v.tape.file.size + v.tape.tape_position + 1) n count read v c s e) in
    let forward : leb (2 ^ 31) count ≡ false = ground (arith, c) in rw forward found

find_next_object-good_back :
    (n : ℕ) (v : Drive)
    → Stands (good_data n) (sub_64 v.tape.tape_position 4) v.tape.file
    → (n == 0) ≡ false
    → find_next_object ObjectType.block (2 ^ 32 - 1) false v ≡ (ok (good_data n), before_record n v)
unfolding find_next_object
find_next_object-good_back n v s e =
    let fuel : suc (v.tape.file.size + v.tape.tape_position + 1) ≡ rounds v = omega arith in
    subst (λ r. find_from r ObjectType.block 1 true false v ≡ (ok (good_data n), before_record n v))
      fuel (find_from-good_back (v.tape.file.size + v.tape.tape_position + 1) n v s e)

-- A record of good data with `n` bytes at a position: its length stands before and behind the data.
pub record IsRecordAt (n p : ℕ) (f : TapeFile) : Type 0 where
  pub head : Stands (good_data n) p f
  pub tail : Stands (good_data n) (p + 4 + pad n) f
  pub data_size : (n == 0) ≡ false
  pub short : n < 2 ^ 28

record_size-good : (n : ℕ) → (n == 0) ≡ false → record_size (good_data n) ≡ pad n + 4
unfolding is_record
record_size-good n e = ground (arith, e)

pub behind_record-fields :
    (n : ℕ) (v : Drive)
    → IsRecordAt n v.tape.tape_position v.tape.file
    → ((behind_record n v).tape.tape_position ≡ v.tape.tape_position + 8 + pad n)
      × ((behind_record n v).tape.file ≡ v.tape.file)
      × ((behind_record n v).tape.object_location ≡ add_64 v.tape.object_location 1)
unfolding update_object_location is_record
behind_record-fields n v r =
    let size = record_size-good n r.data_size in
    let first : add_64 v.tape.tape_position 4 ≡ v.tape.tape_position + 4 =
      omega (arith, r.head.inside, r.head.bound) in
    let second : add_64 (v.tape.tape_position + 4) (pad n + 4) ≡ v.tape.tape_position + 8 + pad n =
      omega (arith, r.tail.inside, r.tail.bound) in
    (
      ground (arith, size, first, second, r.data_size),
      ground (arith, r.data_size),
      ground (arith, r.data_size),
    )

before_record-fields :
    (n : ℕ) (v : Drive)
    → (n == 0) ≡ false
    → ((before_record n v).tape.tape_position ≡ sub_64 (sub_64 v.tape.tape_position 4) (pad n + 4))
      × ((before_record n v).tape.object_location ≡ sub_64 v.tape.object_location 1)
unfolding update_object_location is_record
before_record-fields n v e =
    let size = record_size-good n e in (ground (arith, size, e), ground (arith, e))

-- Spacing over a record of good data of less than 2^28 bytes, on a file without errors, moves to its end
-- and counts it, and spacing back from there moves to its begin again and takes it from the count.
pub space-there_and_back :
    (n : ℕ) (v : Drive)
    → IsRecordAt n v.tape.tape_position v.tape.file
    → v.tape.object_location < 2 ^ 63
    → let w = (find_next_object ObjectType.block 1 false v).1 in
      let u = (find_next_object ObjectType.block (2 ^ 32 - 1) false w).1 in
      (w.tape.tape_position ≡ v.tape.tape_position + 8 + pad n)
      × (w.tape.object_location ≡ v.tape.object_location + 1)
      × (u.tape.tape_position ≡ v.tape.tape_position)
      × (u.tape.object_location ≡ v.tape.object_location)
space-there_and_back n v r l =
    let w = behind_record n v in
    let there =
      ap (λ (x : Outcome SimhMetaData × Drive). x.1)
        (find_next_object-good n 1 false v (omega arith) r.head r.data_size) in
    let (at, file, location) = behind_record-fields n v r in
    let tail : sub_64 w.tape.tape_position 4 ≡ v.tape.tape_position + 4 + pad n =
      omega (arith, at, r.tail.inside, r.tail.bound) in
    let stands : Stands (good_data n) (sub_64 w.tape.tape_position 4) w.tape.file =
      subst (λ q. Stands (good_data n) q w.tape.file) (sym tail)
        (subst (Stands (good_data n) (v.tape.tape_position + 4 + pad n)) (sym file) r.tail) in
    let back =
      ap (λ (x : Outcome SimhMetaData × Drive). x.1)
        (find_next_object-good_back n w stands r.data_size) in
    let (at', location') = before_record-fields n w r.data_size in
    let start : sub_64 (sub_64 w.tape.tape_position 4) (pad n + 4) ≡ v.tape.tape_position =
      omega (arith, tail, r.head.inside, r.head.bound, r.tail.inside) in
    let same : sub_64 w.tape.object_location 1 ≡ v.tape.object_location =
      omega (arith, location, l) in
    let count : w.tape.object_location ≡ v.tape.object_location + 1 = omega (arith, location, l) in
    rw there (rw back (at, count, at' ∙ start, location' ∙ same))
