-- ===== src/Devices/Tape/MaximumSize.antt =====
-- `WriteData` of cpp/devices/tape.cpp and the maximum size of the file.
use piscsi.Common.{
  ℕ, ◌+◌, ◌*◌, ◌^◌, ◌≤◌, ◌<◌, ◌≡◌, ap, ◌∙◌, subst, Bool, true, false, List, arith, min,
}
use piscsi.Scsi.{SenseKey, Asc}
use piscsi.Shared.SimhUtil.{SimhClass}
use piscsi.Controllers.State.{Outcome, ok, throw}
use piscsi.Devices.Tape.{Drive, ◌>>=◌, set_tape, check_for_overflow, count_write_error}
use piscsi.Devices.Tape.Writing.{
  write_simh_meta_data, write_meta_data, is_at_record_boundary, begin_record, write_record_data,
  end_record, end_transfer, write_record_part, write_from, write_part, close_part,
}
use piscsi.Devices.Tape.Parts.{>>=-ok}
use piscsi.Devices.Tape.RoundTrip.{at_start}
use piscsi.Devices.Tape.Overflow.{
  IsWithin, >>=-IsWithin, write_record_data-Passes, end_record-IsWithin,
  is_at_record_boundary-IsWithin, begin_record-IsWithin, end_transfer-IsWithin,
}

-- The look for the boundary moves nothing.
is_at_record_boundary-position :
    (v u : Drive) (b : Bool)
    → is_at_record_boundary v ≡ (ok b, u)
    → (u.tape.tape_position ≡ v.tape.tape_position) × (u.tape.max_file_size ≡ v.tape.max_file_size)
unfolding is_at_record_boundary
is_at_record_boundary-position v u b e = (ground (arith, e), ground (arith, e))

-- `WriteData` leaves a file of at most `k` bytes so, for each `k` above the maximum size and below 2^60,
-- whether the transfer fails or not, from a position at most eight bytes behind the maximum: it grows by
-- no more than one byte above the maximum. The position keeps its bound.
pub write_record_part-IsWithin :
    (buf : List ℕ) (n k : ℕ) (v : Drive)
    → n < 2 ^ 32
    → IsWithin k v
    → IsWithin k (write_record_part buf n v).1
unfolding write_record_part
write_record_part-IsWithin buf n k v h w =
    let m = min v.tape.byte_count n in
    let small : m < 2 ^ 32 = omega (arith, h) in
    >>=-IsWithin is_at_record_boundary (write_from buf m) k v (is_at_record_boundary-IsWithin k v w)
      λ start u1 _ w1.
        >>=-IsWithin (begin_record start) (λ _. write_part buf m) k u1
          (begin_record-IsWithin start k u1 w1)
          λ _ u2 _ w2.
            let p = write_record_data-Passes buf m k u2 small w2 in
            >>=-IsWithin (write_record_data buf m) (λ _. is_at_record_boundary >>= close_part) k u2
              p.within
              λ _ u3 e3 w3.
                let at = p.fits (ap (λ (r : Outcome (Unit {0}) × Drive). r.0) e3) in
                let at3 =
                  subst
                    (λ (r : Outcome (Unit {0}) × Drive).
                      r.1.tape.tape_position ≤ r.1.tape.max_file_size)
                    e3 at in
                >>=-IsWithin is_at_record_boundary close_part k u3
                  (is_at_record_boundary-IsWithin k u3 w3)
                  λ end u4 e4 w4.
                    let (same, max) = is_at_record_boundary-position u3 u4 end e4 in
                    >>=-IsWithin (end_record end) (λ _. end_transfer) k u4
                      (end_record-IsWithin end k u4 (omega (arith, at3, same, max)) w4)
                      λ _ u5 _ w5. end_transfer-IsWithin k u5 w5

write_simh_meta_data-overflow :
    (cls : SimhClass) (value : ℕ) (v : Drive)
    → v.tape.tape_position < 2 ^ 61
    → v.tape.max_file_size < 2 * v.tape.tape_position + 4
    → write_simh_meta_data true cls value v
      ≡ (throw SenseKey.volume_overflow Asc.no_additional_sense_information, count_write_error v)
unfolding write_simh_meta_data check_for_overflow
write_simh_meta_data-overflow cls value v p h = ground (arith, p, h)

write_from-overflow :
    (buf : List ℕ) (n : ℕ) (v : Drive)
    → v.tape.tar_file ≡ false
    → v.tape.tape_position < 2 ^ 61
    → v.tape.max_file_size < 2 * v.tape.tape_position + 4
    → write_from buf n true v
      ≡ (throw SenseKey.volume_overflow Asc.no_additional_sense_information, count_write_error v)
unfolding begin_record write_meta_data
write_from-overflow buf n v t p h =
    let e =
      write_simh_meta_data-overflow SimhClass.tape_mark_good_data_record v.tape.record_length v p
        h in
    ground (arith, e, t)

-- No record is begun on a SIMH image behind the middle of the maximum size, at a position below 2^61:
-- `WriteData` reports a volume overflow there and writes nothing, also where the record would fit.
pub write_record_part-overflow :
    (buf : List ℕ) (n : ℕ) (v : Drive)
    → v.tape.tar_file ≡ false
    → v.tape.initial ≡ true
    → v.tape.tape_position < 2 ^ 61
    → v.tape.max_file_size < 2 * v.tape.tape_position + 4
    → ((write_record_part buf n v).0
        ≡ throw SenseKey.volume_overflow Asc.no_additional_sense_information)
      × ((write_record_part buf n v).1.tape.file ≡ v.tape.file)
      × ((write_record_part buf n v).1.tape.tape_position ≡ v.tape.tape_position)
unfolding write_record_part
write_record_part-overflow buf n v t i p h =
    let v1 = set_tape (λ u. record u { initial = false }) v in
    let m = min v.tape.byte_count n in
    let e =
      >>=-ok is_at_record_boundary (write_from buf m) true v v1 (at_start v t i)
      ∙ write_from-overflow buf m v1 t p h in
    (
      ap (λ (r : Outcome (Unit {0}) × Drive). r.0) e,
      ap (λ (r : Outcome (Unit {0}) × Drive). r.1.tape.file) e,
      ap (λ (r : Outcome (Unit {0}) × Drive). r.1.tape.tape_position) e,
    )
