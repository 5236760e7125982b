-- ===== src/Devices/Tape/OddRecords.antt =====
-- A record of odd size cannot be read again (cpp/devices/tape.cpp): `ReadData` takes the position one
-- byte behind the begin of its data.
use piscsi.Common.{
  ℕ, ◌+◌, ◌*◌, ◌/◌, ◌%◌, ◌^◌, ◌<◌, ◌≡◌, ◌≢◌, sym, ap, ◌∙◌, Bool, true, false, List, arith, ◌==◌,
  get_or,
}
use piscsi.Scsi.{SenseKey, Asc}
use piscsi.Shared.SimhUtil.{from_little_endian, to_little_endian, pad}
use piscsi.Controllers.State.{Outcome, ok, throw}
use piscsi.Devices.Tape.{
  TapeFile, Drive, Motion, ◌>>=◌, ◌>>◌, window, set_tape, add_64, read_file, check_for_read_error,
}
use piscsi.Devices.Tape.Writing.{is_at_record_boundary, pass_data}
use piscsi.Devices.Tape.Reading.{
  Plan, begin_read, finish_read, read_bytes, end_read, check_trailer, raise_read_error,
}
use piscsi.Devices.Tape.Spacing.{behind_record-fields}
use piscsi.Devices.Tape.Parts.{length_mark, >>=-ok}
use piscsi.Devices.Tape.RoundTrip.{at_end}
use piscsi.Devices.Tape.ReadBack.{
  IsReading, read_whole, begin_read-opened, begin_read-position, behind_record-counts, opened,
  whole, read_bytes-window, pad-rest,
}

-- Read one byte too late, the length of a record of odd size below 2^24 is another number.
shifted :
    (g : ℕ → ℕ) (k n : ℕ)
    → window g k 4 ≡ length_mark n
    → n % 2 ≡ 1
    → n < 2 ^ 24
    → (from_little_endian (window g (k + 1) 4)).value ≢ n
unfolding window from_little_endian to_little_endian
shifted g k n w o h e =
    let b1 : g (k + 1) ≡ n / 2 ^ 8 % 2 ^ 8 = ap (λ xs. get_or xs 1 0) w in
    let b2 : g (k + 1 + 1) ≡ n / 2 ^ 16 % 2 ^ 8 = ap (λ xs. get_or xs 2 0) w in
    let b3 : g (k + 1 + 1 + 1) ≡ n / 2 ^ 24 % 2 ^ 4 + 0 * 2 ^ 4 = ap (λ xs. get_or xs 3 0) w in
    omega (arith, e, b1, b2, b3)

end_read-fails :
    (v : Drive)
    → let k = add_64 v.tape.record_start (pad v.tape.record_length) in
      ((from_little_endian (window v.tape.file.bytes k 4)).value == v.tape.record_length) ≡ false
      → (end_read true v).0 ≡ throw SenseKey.medium_error Asc.read_error
unfolding end_read read_bytes check_trailer raise_read_error read_file check_for_read_error
end_read-fails v e = ground (arith, e)

>>=-throw :
    {A B : Type 0} (m : Motion A) (f : A → Motion B) (k : SenseKey) (a : Asc) (v : Drive)
    → (m v).0 ≡ throw k a
    → ((m >>= f) v).0 ≡ throw k a
>>=-throw {A} {B} m f k a v e = on_result (m v) e
  where
    on_result :
        (r : Outcome A × Drive)
        → r.0 ≡ throw k a
        → (elim (r.0) as (λ _. Outcome B × Drive) [
          | ok x ↦ f x (r.1)
          | throw i j ↦ (throw i j, r.1)
        ]).0
          ≡ throw k a
    on_result (ok x, u) i = cc i
    on_result (throw i j, u) h = cc h

finish_read-fails :
    (n : ℕ) (bytes : List ℕ) (u u2 : Drive) (k : SenseKey) (a : Asc)
    → read_bytes n u ≡ (ok bytes, u)
    → is_at_record_boundary (pass_data n u) ≡ (ok true, u2)
    → (end_read true u2).0 ≡ throw k a
    → (finish_read n u).0 ≡ throw k a
unfolding finish_read
finish_read-fails n bytes u u2 k a read end closing =
    let keep : Drive → Outcome (List ℕ) × Drive = λ w. (ok bytes, w) in
    let rest : Bool → Motion (List ℕ) = λ e. end_read e >> keep in
    let all =
      >>=-ok (read_bytes n)
        (λ xs w. (is_at_record_boundary >>= λ e. end_read e >> λ x. (ok xs, x)) (pass_data n w))
        bytes u u read
      ∙ >>=-ok is_at_record_boundary rest true (pass_data n u) u2 end in
    ap (λ (x : Outcome (List ℕ) × Drive). x.0) all
    ∙ >>=-throw (end_read true) (λ _. keep) k a u2 closing

-- A record of good data with an odd size below 2^24, which stands on a SIMH image without errors with its
-- lengths as `WriteData` writes them, is not read by a request of its size: `ReadData` reports a read
-- error.
pub read_whole-odd :
    (n : ℕ) (v : Drive)
    → IsReading n v
    → v.tape.remaining_count ≡ n
    → n % 2 ≡ 1
    → n < 2 ^ 24
    → window v.tape.file.bytes (v.tape.tape_position + 4 + pad n) 4 ≡ length_mark n
    → (read_whole n v).0 ≡ throw SenseKey.medium_error Asc.read_error
read_whole-odd n v r rem o h w =
    let u = opened n v in
    let e = begin_read-opened n v r in
    let begun = >>=-ok (begin_read n true) (λ plan. finish_read plan.length) (whole n) v u e in
    let (_, at, _) = begin_read-position n v r in
    let position : u.tape.tape_position ≡ v.tape.tape_position + 5 =
      ap (λ (x : Outcome Plan × Drive). x.1.tape.tape_position) (sym e) ∙ omega (arith, at, o) in
    let (_, file, _) = behind_record-fields n v r.here in
    let size = ap (λ (f : TapeFile). f.size) file in
    let (_, remaining, tar) = behind_record-counts n v r.here.data_size in
    let odd = pad-rest n in
    let tail = r.here.tail in
    let bytes = window u.tape.file.bytes u.tape.tape_position n in
    let read =
      read_bytes-window n u (omega (arith, position, odd, o, size, tail.inside))
        (omega (arith, size, tail.bound)) (ap (λ (f : TapeFile). f.outcomes) file ∙ tail.good) in
    let u1 = pass_data n u in
    let none : u1.tape.remaining_count ≡ 0 = omega (arith, remaining, rem, h) in
    let u2 = set_tape (λ t. record t { initial = false }) u1 in
    let from : add_64 u2.tape.record_start (pad n) ≡ v.tape.tape_position + 4 + pad n + 1 =
      omega (arith, position, tail.inside, tail.bound) in
    let other = shifted v.tape.file.bytes (v.tape.tape_position + 4 + pad n) n w o h in
    let same : window u2.tape.file.bytes (add_64 u2.tape.record_start (pad n)) 4
        ≡ window v.tape.file.bytes (v.tape.tape_position + 4 + pad n + 1) 4 =
      ap (λ (f : TapeFile). window f.bytes (add_64 u2.tape.record_start (pad n)) 4) file
      ∙ ap (λ k. window v.tape.file.bytes k 4) from in
    let differs : ((from_little_endian
            (window u2.tape.file.bytes (add_64 u2.tape.record_start (pad n)) 4)).value
          == n)
        ≡ false =
      ground (arith, ap (λ xs. (from_little_endian xs).value) same, other) in
    ap (λ (x : Outcome (List ℕ) × Drive). x.0) begun
    ∙ finish_read-fails n bytes u u2 SenseKey.medium_error Asc.read_error read
        (at_end u1 (tar ∙ r.image) none) (end_read-fails u2 differs)
