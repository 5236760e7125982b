-- ===== src/Devices/Tape/Records.antt =====
-- Records that are written to a tape and read again (cpp/devices/tape.cpp).
use piscsi.Common.{
  ℕ, ◌+◌, ◌%◌, ◌^◌, ◌≤◌, ◌<◌, ◌≡◌, sym, ap, ◌∙◌, subst, false, List, arith, length, take, ◌==◌,
}
use piscsi.Shared.SimhUtil.{from_little_endian, pad}
use piscsi.Shared.SimhUtil.Laws.{from_little_endian-to_little_endian}
use piscsi.Controllers.State.{ok}
use piscsi.Devices.Tape.{TapeFile, Drive, window}
use piscsi.Devices.Tape.Writing.{write_record_part}
use piscsi.Devices.Tape.Spacing.{good_data, Stands, IsRecordAt}
use piscsi.Devices.Tape.Parts.{Written, length_mark, IsWriting}
use piscsi.Devices.Tape.RoundTrip.{write_record_part-Written}
use piscsi.Devices.Tape.ReadBack.{read_whole, read_whole-even}

length_mark-good_data : (n : ℕ) → n < 2 ^ 28 → from_little_endian (length_mark n) ≡ good_data n
length_mark-good_data n h = from_little_endian-to_little_endian (good_data n) h

-- A record that has been written is a record of good data on the tape.
Written-IsRecordAt :
    (n p : ℕ) (bytes : List ℕ) (f : TapeFile)
    → Written n bytes p f
    → (n == 0) ≡ false
    → n < 2 ^ 28
    → n % 2 ≡ 0
    → IsRecordAt n p f
unfolding pad
Written-IsRecordAt n p bytes f w d h even =
    let mark = length_mark-good_data n h in
    let even_pad : p + 4 + pad n ≡ p + 4 + n = ground (arith, even) in
    record {
      head = record {
        meta = ap from_little_endian w.head ∙ mark;
        inside = omega (arith, w.inside);
        bound = w.bound;
        good = w.good;
      };
      tail =
          subst (λ q. Stands (good_data n) q f) (sym even_pad)
            (record {
              meta = ap from_little_endian w.tail ∙ mark;
              inside = omega (arith, w.inside);
              bound = w.bound;
              good = w.good;
            });
      data_size = d;
      short = h;
    }

-- A record of an even size below 2^28 that `WriteData` writes in one part, on a SIMH image of less than
-- 2^62 bytes without errors, at an even position, so that the record ends in front of the middle of the
-- maximum size, is read by `ReadData`, in one part from the same position of the same file, as it was
-- written, and both leave the position behind it.
pub read_whole-write_record_part :
    (n : ℕ) (buf : List ℕ) (v u : Drive)
    → IsWriting n v
    → n ≤ length buf
    → u.tape.file ≡ (write_record_part buf n v).1.tape.file
    → u.tape.tape_position ≡ v.tape.tape_position
    → u.tape.tar_file ≡ false
    → u.tape.byte_count ≡ n
    → u.tape.remaining_count ≡ n
    → ((write_record_part buf n v).0 ≡ ok tt)
      × ((read_whole n u).0 ≡ ok (take n buf))
      × ((read_whole n u).1.tape.tape_position ≡ (write_record_part buf n v).1.tape.tape_position)
read_whole-write_record_part n buf v u w l f p t b r =
    let ended = write_record_part-Written n buf v w l in
    let p' = v.tape.tape_position in
    let here =
      Written-IsRecordAt n p' (take n buf) _ ended.written w.data_size w.short w.even_size in
    let here' : IsRecordAt n u.tape.tape_position u.tape.file =
      subst (IsRecordAt n u.tape.tape_position) (sym f)
        (subst (λ q. IsRecordAt n q (write_record_part buf n v).1.tape.file) (sym p) here) in
    let (result, at) =
      read_whole-even n u (record { here = here'; image = t; byte_count = b }) r w.even_size in
    let same : window u.tape.file.bytes (u.tape.tape_position + 4) n ≡ take n buf =
      ap (λ q. window u.tape.file.bytes (q + 4) n) p
      ∙ ap (λ (g : TapeFile). window g.bytes (p' + 4) n) f
      ∙ ended.written.content in
    (ended.result, result ∙ ap (λ (xs : List ℕ). ok xs) same, omega (arith, at, p, ended.position))
