-- ===== src/Devices/Tape/Parts.antt =====
-- The parts that `WriteData` of cpp/devices/tape.cpp writes: the lengths and the data of a record.
use piscsi.Common.{
  ℕ, ◌+◌, ◌%◌, ◌^◌, ◌≤◌, ◌<◌, ◌≡◌, ap, subst, true, false, List, [], arith, length, length-take,
  take, ◌==◌,
}
use piscsi.Shared.SimhUtil.{SimhClass, to_little_endian}
use piscsi.Controllers.State.{Outcome, ok, throw}
use piscsi.Devices.Tape.{
  TapeFile, Drive, Motion, ◌>>=◌, ◌>>◌, ObjectType, window, set_file, set_tape, add_64,
  check_for_overflow,
}
use piscsi.Devices.Tape.Seeking.{move_on}
use piscsi.Devices.Tape.Writing.{
  write_meta_data, pass_data, write_record_data, write_trailer, end_record, end_transfer,
}
use piscsi.Devices.Tape.Written.{
  Wrote, HasRoom, write_here-Writes, write_simh_meta_data-Writes, write_end_of_data-Writes,
  Wrote-Extends, length-to_little_endian,
}
use piscsi.Devices.Tape.Spacing.{good_data}

-- The bytes of the length of a record
abbrev pub length_mark : ℕ → List ℕ
length_mark n = to_little_endian (good_data n)

-- A drive in front of a transfer that writes a record of `n` bytes in one part.
pub record IsWriting (n : ℕ) (v : Drive) : Type 0 where
  pub room : HasRoom (n + 8) v
  pub initial : v.tape.initial ≡ true
  pub image : v.tape.tar_file ≡ false
  pub even : v.tape.tape_position % 2 ≡ 0
  pub even_size : n % 2 ≡ 0
  pub data_size : (n == 0) ≡ false
  pub short : n < 2 ^ 28
  pub record_length : v.tape.record_length ≡ n
  pub byte_count : v.tape.byte_count ≡ n
  pub remaining_count : v.tape.remaining_count ≡ n

pub >>=-ok :
    {A B : Type 0} (m : Motion A) (f : A → Motion B) (a : A) (v u : Drive)
    → m v ≡ (ok a, u)
    → (m >>= f) v ≡ f a u
>>=-ok {A} {B} m f a v u e =
    ap
      (λ (r : Outcome A × Drive). elim (r.0) as (λ _. Outcome B × Drive) [
        | ok x ↦ f x (r.1)
        | throw k c ↦ (throw k c, r.1)
      ])
      e

-- The head of the record, with the end-of-data object behind it.
pub head-Writes :
    (n : ℕ) (v : Drive)
    → HasRoom 8 v
    → v.tape.tar_file ≡ false
    → (g : TapeFile) × (write_meta_data ObjectType.block n v ≡ (ok tt, set_file g (move_on 4 v)))
      × Wrote v.tape.tape_position (length_mark n) v.tape.file g
unfolding write_meta_data
head-Writes n v r t =
    let first =
      write_simh_meta_data-Writes SimhClass.tape_mark_good_data_record n v
        (record { good = r.good; size = r.size; room = omega (arith, r.room); max = r.max }) in
    let u = move_on 4 (set_file first.file v) in
    let at : add_64 v.tape.tape_position 4 ≡ v.tape.tape_position + 4 =
      omega (arith, r.room, r.max) in
    let x = first.holds.extends in
    let second =
      write_end_of_data-Writes u
        (record { good = x.good; size = x.bound; room = omega (arith, r.room, at); max = r.max }) in
    (
      second.file,
      ground (arith, t, first.result, second.result),
      Wrote-Extends v.tape.tape_position u.tape.tape_position (length_mark n) v.tape.file first.file
          second.file (omega (arith, length-to_little_endian (good_data n), at)) first.holds
          second.holds,
    )

pub data-Writes :
    (n : ℕ) (buf : List ℕ) (v : Drive)
    → HasRoom n v
    → n ≤ length buf
    → (g : TapeFile) × (write_record_data buf n v ≡ (ok tt, pass_data n (set_file g v)))
      × Wrote v.tape.tape_position (take n buf) v.tape.file g
unfolding write_record_data check_for_overflow
data-Writes n buf v r l =
    let w =
      write_here-Writes (take n buf) v r.good r.size
        (omega (arith, length-take n buf l, r.room, r.max)) in
    (w.file, ground (arith, w.result, r.room, r.max), w.holds)

-- What stands on the tape behind a record that has been written.
pub record Written (n : ℕ) (bytes : List ℕ) (p : ℕ) (f : TapeFile) : Type 0 where
  pub head : window f.bytes p 4 ≡ length_mark n
  pub content : window f.bytes (p + 4) n ≡ bytes
  pub tail : window f.bytes (p + 4 + n) 4 ≡ length_mark n
  pub inside : p + 8 + n ≤ f.size
  pub good : f.outcomes ≡ []
  pub bound : f.size < 2 ^ 62

-- The end of the record, and the end-of-data object behind it.
pub tail-Writes :
    (n : ℕ) (v : Drive)
    → HasRoom 4 v
    → v.tape.record_length ≡ n
    → v.tape.remaining_count ≡ 0
    → v.tape.tar_file ≡ false
    → v.tape.tape_position % 2 ≡ 0
    → (g : TapeFile) × ((end_record true >> end_transfer) v ≡ (
      ok tt,
      set_tape
          (λ t. record t { object_location = add_64 t.object_location 1 })
          (move_on 4 (set_file g v)),
    ))
      × Wrote v.tape.tape_position (length_mark n) v.tape.file g
unfolding end_record write_trailer end_transfer write_meta_data
tail-Writes n v r e z t even =
    let first =
      write_simh_meta_data-Writes SimhClass.tape_mark_good_data_record v.tape.record_length v
        (record { good = r.good; size = r.size; room = omega (arith, r.room); max = r.max }) in
    let u =
      set_tape (λ t. record t { object_location = add_64 t.object_location 1 })
        (move_on 4 (set_file first.file v)) in
    let at : add_64 v.tape.tape_position 4 ≡ v.tape.tape_position + 4 =
      omega (arith, r.room, r.max) in
    let x = first.holds.extends in
    let second =
      write_end_of_data-Writes u
        (record { good = x.good; size = x.bound; room = omega (arith, r.room, at); max = r.max }) in
    let both =
      Wrote-Extends v.tape.tape_position u.tape.tape_position (length_mark v.tape.record_length)
        v.tape.file first.file second.file
        (omega (arith, length-to_little_endian (good_data v.tape.record_length), at)) first.holds
        second.holds in
    (
      second.file,
      ground (arith, t, z, even, first.result, second.result),
      subst (λ k. Wrote v.tape.tape_position (length_mark k) v.tape.file second.file) e both,
    )
