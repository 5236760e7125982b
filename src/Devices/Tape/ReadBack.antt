-- ===== src/Devices/Tape/ReadBack.antt =====
-- `ReadData` of cpp/devices/tape.cpp on a record of good data that is read in one part.
use piscsi.Common.{
  ℕ, ◌+◌, ◌%◌, ◌^◌, ◌≤◌, ◌<◌, ◌≡◌, refl, sym, ap, ◌∙◌, subst, Bool, true, false, List, [], arith,
  ◌==◌, if_true,
}
use piscsi.Shared.SimhUtil.{SimhMetaData, from_little_endian, pad, is_record}
use piscsi.Controllers.State.{Outcome, ok}
use piscsi.Devices.Tape.{
  TapeFile, Drive, Motion, ◌>>=◌, ◌>>◌, ObjectType, window, set_tape, set_position, add_64, sub_64,
  read_file, check_for_read_error,
}
use piscsi.Devices.Tape.Seeking.{move_on, update_object_location}
use piscsi.Devices.Tape.Finding.{find_next_object}
use piscsi.Devices.Tape.Writing.{is_at_record_boundary, pass_data}
use piscsi.Devices.Tape.Reading.{
  Plan, begin_read, open_record, check_block_length, plan_of, read_bytes, check_trailer, end_read,
  finish_read,
}
use piscsi.Devices.Tape.Spacing.{
  good_data, Stands, IsRecordAt, behind_record, behind_record-fields, find_next_object-good,
}
use piscsi.Devices.Tape.Parts.{>>=-ok}
use piscsi.Devices.Tape.RoundTrip.{at_end}

-- A drive in front of a record of `n` bytes, in a transfer of as many bytes.
pub record IsReading (n : ℕ) (v : Drive) : Type 0 where
  pub here : IsRecordAt n v.tape.tape_position v.tape.file
  pub image : v.tape.tar_file ≡ false
  pub byte_count : v.tape.byte_count ≡ n

-- The transfer goes on with the whole record.
abbrev pub whole : ℕ → Plan
whole n = record { length = n; resized = false; check_condition = false }

-- The drive in which the record is open.
abbrev pub opened : ℕ → Drive → Drive
opened n v =
    let w = behind_record n v in
    let start = sub_64 w.tape.tape_position (n + 4) in
    set_tape (λ t. record t { record_length = n; tape_position = start; record_start = start }) w

pub behind_record-counts :
    (n : ℕ) (v : Drive)
    → (n == 0) ≡ false
    → ((behind_record n v).tape.byte_count ≡ v.tape.byte_count)
      × ((behind_record n v).tape.remaining_count ≡ v.tape.remaining_count)
      × ((behind_record n v).tape.tar_file ≡ v.tape.tar_file)
unfolding update_object_location is_record
behind_record-counts n v e = (ground (arith, e), ground (arith, e), ground (arith, e))

check_block_length-equal :
    (v : Drive)
    → v.tape.byte_count ≡ v.tape.record_length
    → check_block_length v ≡ (ok (0, false), v)
unfolding check_block_length
check_block_length-equal v e =
    if_true _ (v.tape.record_length == v.tape.byte_count) (ground (arith, e))

pub pad-rest : (n : ℕ) → pad n ≡ n + n % 2
unfolding pad
pad-rest n = ground arith

pub begin_read-opened :
    (n : ℕ) (v : Drive) → IsReading n v → begin_read n true v ≡ (ok (whole n), opened n v)
unfolding begin_read open_record plan_of
begin_read-opened n v r =
    let found = find_next_object-good n 0 true v (omega arith) r.here.head r.here.data_size in
    let count = (behind_record-counts n v r.here.data_size).0 ∙ r.byte_count in
    >>=-ok (find_next_object ObjectType.block 0 true) (open_record n) (good_data n) v
      (behind_record n v) found
    ∙ >>=-ok check_block_length (plan_of n) (0, false) (opened n v) (opened n v)
        (check_block_length-equal (opened n v) count)

-- Behind `FindNextObject` the position of an open record of odd size is one byte behind the begin of
-- its data; that of a record of even size is the begin of its data.
pub begin_read-position :
    (n : ℕ) (v : Drive)
    → IsReading n v
    → ((begin_read n true v).0 ≡ ok (whole n))
      × ((begin_read n true v).1.tape.tape_position ≡ v.tape.tape_position + 4 + n % 2)
      × ((begin_read n true v).1.tape.record_start ≡ v.tape.tape_position + 4 + n % 2)
begin_read-position n v r =
    let e = begin_read-opened n v r in
    let (at, _, _) = behind_record-fields n v r.here in
    let odd = pad-rest n in
    let start : sub_64 (behind_record n v).tape.tape_position (n + 4)
        ≡ v.tape.tape_position + 4 + n % 2 =
      omega (
        arith, at, odd, r.here.head.inside, r.here.head.bound, r.here.tail.inside,
        r.here.tail.bound, r.here.short,
      ) in
    (
      ap (λ (x : Outcome Plan × Drive). x.0) e,
      ap (λ (x : Outcome Plan × Drive). x.1.tape.tape_position) e ∙ start,
      ap (λ (x : Outcome Plan × Drive). x.1.tape.record_start) e ∙ start,
    )

-- `read` at the position of a file without errors of the operating system
pub read_bytes-window :
    (n : ℕ) (v : Drive)
    → v.tape.tape_position + n ≤ v.tape.file.size
    → v.tape.file.size < 2 ^ 62
    → v.tape.file.outcomes ≡ []
    → read_bytes n v ≡ (ok (window v.tape.file.bytes v.tape.tape_position n), v)
unfolding read_bytes read_file check_for_read_error
read_bytes-window n v i b o = ground (arith, i, b, o)

-- The drive behind the record.
abbrev closed : Drive → Drive
closed v = set_tape (λ t. record t { blocks_read = t.blocks_read + 1 }) (move_on 4 v)

end_read-closed :
    (v : Drive)
    → Stands
        (good_data v.tape.record_length)
        (add_64 v.tape.record_start (pad v.tape.record_length))
        v.tape.file
    → v.tape.remaining_count ≡ 0
    → end_read true v
      ≡ (ok tt, closed (set_position (add_64 v.tape.record_start (pad v.tape.record_length)) v))
unfolding end_read check_trailer
end_read-closed v s z =
    let u = set_position (add_64 v.tape.record_start (pad v.tape.record_length)) v in
    let bytes = window u.tape.file.bytes u.tape.tape_position 4 in
    let read = read_bytes-window 4 u s.inside s.bound s.good in
    let same : (from_little_endian bytes).value ≡ v.tape.record_length =
      ap (λ (m : SimhMetaData). m.value) s.meta in
    >>=-ok (read_bytes 4) check_trailer bytes u u read ∙ ground (arith, same, z)

finish_read-chain :
    (n : ℕ) (bytes : List ℕ) (u u1 u2 z : Drive)
    → read_bytes n u ≡ (ok bytes, u)
    → u1 ≡ pass_data n u
    → is_at_record_boundary u1 ≡ (ok true, u2)
    → end_read true u2 ≡ (ok tt, z)
    → finish_read n u ≡ (ok bytes, z)
unfolding finish_read
finish_read-chain n bytes u u1 u2 z read i end closing =
    let keep : Drive → Outcome (List ℕ) × Drive = λ w. (ok bytes, w) in
    let rest : Bool → Motion (List ℕ) = λ e. end_read e >> keep in
    >>=-ok (read_bytes n)
      (λ xs w. (is_at_record_boundary >>= λ e. end_read e >> λ x. (ok xs, x)) (pass_data n w)) bytes
      u u read
    ∙ ap (is_at_record_boundary >>= rest) (sym i)
    ∙ >>=-ok is_at_record_boundary rest true u1 u2 end
    ∙ >>=-ok (end_read true) (λ _. keep) tt u2 z closing

-- A drive in which a record of even size is open, whose data begin at `q`.
record IsOpened (n q : ℕ) (u : Drive) : Type 0 where
  position : u.tape.tape_position ≡ q
  start : u.tape.record_start ≡ q
  size : u.tape.record_length ≡ n
  remaining : u.tape.remaining_count ≡ n
  image : u.tape.tar_file ≡ false
  even : n % 2 ≡ 0
  short : n < 2 ^ 28
  tail : Stands (good_data n) (q + n) u.tape.file

finish_read-even :
    (n q : ℕ) (u : Drive)
    → IsOpened n q u
    → ((finish_read n u).0 ≡ ok (window u.tape.file.bytes q n))
      × ((finish_read n u).1.tape.tape_position ≡ q + n + 4)
finish_read-even n q u o =
    let bytes = window u.tape.file.bytes u.tape.tape_position n in
    let read =
      read_bytes-window n u (omega (arith, o.position, o.tail.inside)) o.tail.bound o.tail.good in
    let u1 = pass_data n u in
    let none : u1.tape.remaining_count ≡ 0 = omega (arith, o.remaining, o.short) in
    let u2 = set_tape (λ t. record t { initial = false }) u1 in
    let odd = ap pad o.size ∙ pad-rest n in
    let at : add_64 u.tape.record_start (pad u.tape.record_length) ≡ q + n =
      omega (arith, o.start, odd, o.even, o.tail.inside, o.tail.bound) in
    let stands =
      subst
        (λ k.
          Stands (good_data k) (add_64 u.tape.record_start (pad u.tape.record_length)) u.tape.file)
        (sym o.size) (subst (λ k. Stands (good_data n) k u.tape.file) (sym at) o.tail) in
    let z = closed (set_position (add_64 u2.tape.record_start (pad u2.tape.record_length)) u2) in
    let all : finish_read n u ≡ (ok bytes, z) =
      finish_read-chain n bytes u u1 u2 z read refl (at_end u1 o.image none)
        (end_read-closed u2 stands none) in
    let end : z.tape.tape_position ≡ q + n + 4 = omega (arith, at, o.tail.inside, o.tail.bound) in
    (
      ap (λ (x : Outcome (List ℕ) × Drive). x.0) all
          ∙ ap (λ k. ok (window u.tape.file.bytes k n)) o.position,
      ap (λ (x : Outcome (List ℕ) × Drive). x.1.tape.tape_position) all ∙ end,
    )

opened-IsOpened :
    (n : ℕ) (v : Drive)
    → IsReading n v
    → v.tape.remaining_count ≡ n
    → n % 2 ≡ 0
    → IsOpened n (v.tape.tape_position + 4) (opened n v)
opened-IsOpened n v r rem even =
    let (at, file, _) = behind_record-fields n v r.here in
    let (_, remaining, tar) = behind_record-counts n v r.here.data_size in
    let odd = pad-rest n in
    let start : sub_64 (behind_record n v).tape.tape_position (n + 4) ≡ v.tape.tape_position + 4 =
      omega (arith, at, odd, even, r.here.head.inside, r.here.tail.inside, r.here.tail.bound) in
    let tail : v.tape.tape_position + 4 + pad n ≡ v.tape.tape_position + 4 + n =
      omega (arith, odd, even) in
    record {
      position = start;
      start = start;
      size = refl;
      remaining = remaining ∙ rem;
      image = tar ∙ r.image;
      even = even;
      short = r.here.short;
      tail =
          subst (Stands (good_data n) (v.tape.tape_position + 4 + n)) (sym file)
            (subst (λ k. Stands (good_data n) k v.tape.file) tail r.here.tail);
    }

-- `ReadData` on a record that is read in one part, from `FindNextObject` on.
abbrev pub read_whole : ℕ → Motion (List ℕ)
read_whole n = begin_read n true >>= λ plan. finish_read plan.length

-- A record of good data with an even size is read as a whole: its bytes are returned, and the position
-- moves behind it.
pub read_whole-even :
    (n : ℕ) (v : Drive)
    → IsReading n v
    → v.tape.remaining_count ≡ n
    → n % 2 ≡ 0
    → ((read_whole n v).0 ≡ ok (window v.tape.file.bytes (v.tape.tape_position + 4) n))
      × ((read_whole n v).1.tape.tape_position ≡ v.tape.tape_position + 8 + n)
read_whole-even n v r rem even =
    let begun =
      >>=-ok (begin_read n true) (λ plan. finish_read plan.length) (whole n) v (opened n v)
        (begin_read-opened n v r) in
    let (result, at) =
      finish_read-even n (v.tape.tape_position + 4) (opened n v) (opened-IsOpened n v r rem even) in
    let (_, file, _) = behind_record-fields n v r.here in
    (
      ap (λ (x : Outcome (List ℕ) × Drive). x.0) begun
          ∙ result
          ∙ ap (λ (f : TapeFile). ok (window f.bytes (v.tape.tape_position + 4) n)) file,
      ap (λ (x : Outcome (List ℕ) × Drive). x.1.tape.tape_position) begun ∙ omega (arith, at),
    )
