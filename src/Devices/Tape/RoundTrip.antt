-- ===== src/Devices/Tape/RoundTrip.antt =====
-- A record that `WriteData` of cpp/devices/tape.cpp has written in one part stands on the tape.
use piscsi.Common.{
  ℕ, ◌+◌, ◌≤◌, ◌≡◌, refl, sym, ap, ◌∙◌, subst, true, false, List, arith, length, length-take, take,
  min,
}
use piscsi.Controllers.State.{Outcome, ok}
use piscsi.Devices.Tape.{
  TapeFile, Drive, ◌>>=◌, ◌>>◌, ObjectType, window, set_file, set_tape, add_64,
}
use piscsi.Devices.Tape.Seeking.{move_on}
use piscsi.Devices.Tape.Writing.{
  write_meta_data, is_at_record_boundary, begin_record, pass_data, write_record_data, end_record,
  end_transfer, write_record_part, write_from, write_part, close_part,
}
use piscsi.Devices.Tape.Written.{Wrote, Wrote-Extends, length-to_little_endian}
use piscsi.Devices.Tape.Spacing.{good_data}
use piscsi.Devices.Tape.Parts.{
  length_mark, IsWriting, >>=-ok, head-Writes, data-Writes, Written, tail-Writes,
}

pub at_start :
    (v : Drive)
    → v.tape.tar_file ≡ false
    → v.tape.initial ≡ true
    → is_at_record_boundary v ≡ (ok true, set_tape (λ t. record t { initial = false }) v)
unfolding is_at_record_boundary
at_start v t i = ground (arith, t, i)

pub at_end :
    (v : Drive)
    → v.tape.tar_file ≡ false
    → v.tape.remaining_count ≡ 0
    → is_at_record_boundary v ≡ (ok true, set_tape (λ t. record t { initial = false }) v)
unfolding is_at_record_boundary
at_end v t z = ground (arith, t, z)

-- The parts of `WriteData` in their order.
write_record_part-chain :
    (n : ℕ) (buf : List ℕ) (v v1 v2 v3 v4 v5 : Drive)
    → v.tape.byte_count ≡ n
    → v1.tape.record_length ≡ n
    → is_at_record_boundary v ≡ (ok true, v1)
    → write_meta_data ObjectType.block n v1 ≡ (ok tt, v2)
    → write_record_data buf n v2 ≡ (ok tt, v3)
    → is_at_record_boundary v3 ≡ (ok true, v4)
    → (end_record true >> end_transfer) v4 ≡ (ok tt, v5)
    → write_record_part buf n v ≡ (ok tt, v5)
unfolding write_record_part begin_record
write_record_part-chain n buf v v1 v2 v3 v4 v5 c r start begun written end ended =
    let k : min v.tape.byte_count n ≡ n = ground (arith, c) in
    let opened : begin_record true v1 ≡ (ok tt, v2) =
      ap (λ i. write_meta_data ObjectType.block i v1) r ∙ begun in
    >>=-ok is_at_record_boundary (write_from buf (min v.tape.byte_count n)) true v v1 start
    ∙ >>=-ok (begin_record true) (λ _. write_part buf (min v.tape.byte_count n)) tt v1 v2 opened
    ∙ ap (λ i. write_part buf i v2) k
    ∙ >>=-ok (write_record_data buf n) (λ _. is_at_record_boundary >>= close_part) tt v2 v3 written
    ∙ >>=-ok is_at_record_boundary close_part true v3 v4 end
    ∙ ended

-- The head, the data and the tail of a record, written one behind the other.
Wrote-Written :
    (n p q r : ℕ) (bytes : List ℕ) (f g1 g2 g3 : TapeFile)
    → Wrote p (length_mark n) f g1
    → Wrote q bytes g1 g2
    → Wrote r (length_mark n) g2 g3
    → length bytes ≡ n
    → q ≡ p + 4
    → r ≡ p + 4 + n
    → Written n bytes p g3
Wrote-Written n p q r bytes f g1 g2 g3 x1 x2 x3 l i j =
    let four = length-to_little_endian (good_data n) in
    let mark = length_mark n in
    let h2 = Wrote-Extends p q mark f g1 g2 (omega (arith, i, four)) x1 x2.extends in
    let h3 = Wrote-Extends p r mark f g2 g3 (omega (arith, j, four)) h2 x3.extends in
    let c3 = Wrote-Extends q r bytes g1 g2 g3 (omega (arith, i, j, l)) x2 x3.extends in
    record {
      head = subst (λ k. window g3.bytes p k ≡ mark) four h3.there;
      content =
          subst (λ k. window g3.bytes k n ≡ bytes) i
            (subst (λ k. window g3.bytes q k ≡ bytes) l c3.there);
      tail =
          subst (λ k. window g3.bytes k 4 ≡ mark) j
            (subst (λ k. window g3.bytes r k ≡ mark) four x3.there);
      inside = omega (arith, x3.inside, four, j);
      good = x3.extends.good;
      bound = x3.extends.bound;
    }

-- A transfer that has written a record: it succeeds, the record stands on the tape, the position is
-- behind it, and one more object is counted.
pub record Ended (n : ℕ) (bytes : List ℕ) (v : Drive) (r : Outcome (Unit {0}) × Drive)
    : Type 0 where
  pub result : r.0 ≡ ok tt
  pub written : Written n bytes v.tape.tape_position r.1.tape.file
  pub position : r.1.tape.tape_position ≡ v.tape.tape_position + 8 + n
  pub location : r.1.tape.object_location ≡ add_64 v.tape.object_location 1

Ended-intro :
    (n : ℕ) (bytes : List ℕ) (v w : Drive) (r : Outcome (Unit {0}) × Drive)
    → r ≡ (ok tt, w)
    → Written n bytes v.tape.tape_position w.tape.file
    → w.tape.tape_position ≡ v.tape.tape_position + 8 + n
    → w.tape.object_location ≡ add_64 v.tape.object_location 1
    → Ended n bytes v r
Ended-intro n bytes v w r e x p l =
    subst (Ended n bytes v) (sym e)
      (record { result = refl; written = x; position = p; location = l })

-- A record whose data come in one part is written as a whole: its length, its data, and its length
-- again. The position moves behind it, and one more object is counted.
pub write_record_part-Written :
    (n : ℕ) (buf : List ℕ) (v : Drive)
    → IsWriting n v
    → n ≤ length buf
    → Ended n (take n buf) v (write_record_part buf n v)
write_record_part-Written n buf v w l =
    let p = v.tape.tape_position in
    let v1 = set_tape (λ t. record t { initial = false }) v in
    let start = at_start v w.image w.initial in
    let room = w.room in
    let (g1, e1, x1) =
      head-Writes n v1
        (record {
          good = room.good;
          size = room.size;
          room = omega (arith, room.room);
          max = room.max;
        })
        w.image in
    let v2 = set_file g1 (move_on 4 v1) in
    let at2 : v2.tape.tape_position ≡ p + 4 = omega (arith, room.room, room.max) in
    let (g2, e2, x2) =
      data-Writes n buf v2
        (record {
          good = x1.extends.good;
          size = x1.extends.bound;
          room = omega (arith, room.room, at2);
          max = room.max;
        })
        l in
    let v3 = pass_data n (set_file g2 v2) in
    let at3 : v3.tape.tape_position ≡ p + 4 + n = omega (arith, at2, room.room, room.max) in
    let none : v3.tape.remaining_count ≡ 0 = omega (arith, w.remaining_count, w.short) in
    let end = at_end v3 w.image none in
    let v4 = set_tape (λ t. record t { initial = false }) v3 in
    let (g3, e3, x3) =
      tail-Writes n v4
        (record {
          good = x2.extends.good;
          size = x2.extends.bound;
          room = omega (arith, room.room, at3);
          max = room.max;
        })
        w.record_length none w.image (omega (arith, at3, w.even, w.even_size)) in
    let v5 =
      set_tape (λ t. record t { object_location = add_64 t.object_location 1 })
        (move_on 4 (set_file g3 v4)) in
    let all =
      write_record_part-chain n buf v v1 v2 v3 v4 v5 w.byte_count w.record_length start e1 e2 end
        e3 in
    let written =
      Wrote-Written n p v2.tape.tape_position v4.tape.tape_position (take n buf) v.tape.file g1 g2
        g3 x1 x2 x3 (length-take n buf l) at2 at3 in
    let at5 : v5.tape.tape_position ≡ p + 8 + n = omega (arith, at3, room.room, room.max) in
    Ended-intro n (take n buf) v v5 (write_record_part buf n v) all written at5 refl
