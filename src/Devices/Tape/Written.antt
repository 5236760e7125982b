-- ===== src/Devices/Tape/Written.antt =====
-- What a write leaves in the file of a tape (cpp/devices/tape.cpp): the bytes, and those in front of
-- them.
use piscsi.Common.{
  ℕ, zero, suc, ◌+◌, ◌-◌, ◌*◌, ◌^◌, ◌≤◌, ◌<◌, ◌≡◌, refl, ap, ◌∙◌, true, ◌||◌, inl, inr, Bool-cases,
  List, [], ◌∷◌, arith, leb, length, get_or,
}
use piscsi.Shared.SimhUtil.{SimhClass, SimhMetaData, to_little_endian}
use piscsi.Controllers.State.{ok}
use piscsi.Devices.Tape.{
  TapeFile, Drive, Motion, ObjectType, window, write_file, is_negative, set_file, add_64,
  check_for_write_error, check_for_overflow,
}
use piscsi.Devices.Tape.Writing.{write_here, write_simh_meta_data, write_end_of_data, marker_value}

-- A file behind a write at a position: what stood in front of the position still stands there.
pub record Extends (p : ℕ) (f g : TapeFile) : Type 0 where
  pub below : (i : ℕ) → i < p → g.bytes i ≡ f.bytes i
  pub size : f.size ≤ g.size
  pub good : g.outcomes ≡ []
  pub bound : g.size < 2 ^ 62

-- The bytes written stand at the position.
pub record Wrote (p : ℕ) (bytes : List ℕ) (f g : TapeFile) : Type 0 where
  pub extends : Extends p f g
  pub there : window g.bytes p (length bytes) ≡ bytes
  pub inside : p + length bytes ≤ g.size

pub window-below :
    (f g : ℕ → ℕ) (p q n : ℕ)
    → ((i : ℕ) → i < p → g i ≡ f i)
    → q + n ≤ p
    → window g q n ≡ window f q n
unfolding window
window-below f g p q zero h l = refl
window-below f g p q (suc n) h l =
    let first = h q (omega arith) in
    let rest = window-below f g p (q + 1) n h (omega arith) in cc (first, rest)

window-at :
    (g : ℕ → ℕ) (p : ℕ) (xs : List ℕ)
    → ((i : ℕ) → i < length xs → g (p + i) ≡ get_or xs i 0)
    → window g p (length xs) ≡ xs
unfolding window
window-at g p [] h = refl
window-at g p (x ∷ xs) h =
    let here : g p ≡ x = ap g (omega arith) ∙ h 0 (omega arith) in
    let rest = window-at g (p + 1) xs (λ i l. ap g (omega arith) ∙ h (suc i) (omega arith)) in
    cc (here, rest)

write_file-Wrote :
    (p : ℕ) (bytes : List ℕ) (f : TapeFile)
    → f.outcomes ≡ []
    → f.size < 2 ^ 62
    → p + length bytes < 2 ^ 62
    → ((write_file p bytes f).0 ≡ true) × Wrote p bytes f (write_file p bytes f).1
unfolding write_file
write_file-Wrote p bytes f o b l =
    let good : (write_file p bytes f).0 ≡ true = ground (arith, o, l) in
    (
      good,
      record {
        extends = record {
          below = λ i h. ground (arith, o, l, h);
          size = ground (arith, o, l);
          good = ground (arith, o, l);
          bound = ground (arith, o, l, b);
        };
        there =
            window-at _ p bytes
              (λ i h. let back : p + i - p ≡ i = omega arith in ground (arith, o, l, h, back));
        inside = ground (arith, o, l);
      },
    )

-- A drive on whose tape `n` bytes fit behind the position, with a length of four bytes: the overflow
-- check of the meta data counts the position twice.
pub record HasRoom (n : ℕ) (v : Drive) : Type 0 where
  pub good : v.tape.file.outcomes ≡ []
  pub size : v.tape.file.size < 2 ^ 62
  pub room : 2 * (v.tape.tape_position + n) + 4 ≤ v.tape.max_file_size
  pub max : v.tape.max_file_size < 2 ^ 62

-- A call that succeeds and writes some file.
pub record Writes (P : TapeFile → Type 0) (m : Motion (Unit {0})) (v : Drive) : Type 0 where
  pub file : TapeFile
  pub result : m v ≡ (ok tt, set_file file v)
  pub holds : P file

pub write_here-Writes :
    (bytes : List ℕ) (v : Drive)
    → v.tape.file.outcomes ≡ []
    → v.tape.file.size < 2 ^ 62
    → v.tape.tape_position + length bytes < 2 ^ 62
    → Writes (Wrote v.tape.tape_position bytes v.tape.file) (write_here true bytes) v
unfolding write_here check_for_write_error
write_here-Writes bytes v o b l =
    let (good, wrote) = write_file-Wrote v.tape.tape_position bytes v.tape.file o b l in
    record {
      file = (write_file v.tape.tape_position bytes v.tape.file).1;
      result = ground (arith, good);
      holds = wrote;
    }

pub length-to_little_endian : (m : SimhMetaData) → length (to_little_endian m) ≡ 4
unfolding to_little_endian
length-to_little_endian m = refl

pub write_simh_meta_data-Writes :
    (cls : SimhClass) (value : ℕ) (v : Drive)
    → HasRoom 0 v
    → Writes
        (Wrote v.tape.tape_position
          (to_little_endian (record { cls = cls; value = value }))
          v.tape.file)
        (write_simh_meta_data true cls value)
        v
unfolding write_simh_meta_data check_for_overflow
write_simh_meta_data-Writes cls value v r =
    let bytes = to_little_endian (record { cls = cls; value = value }) in
    let four = length-to_little_endian (record { cls = cls; value = value }) in
    let w = write_here-Writes bytes v r.good r.size (omega (arith, four, r.room, r.max)) in
    record { file = w.file; result = ground (arith, w.result, r.room, r.max); holds = w.holds }

Extends-refl : (p : ℕ) (f : TapeFile) → f.outcomes ≡ [] → f.size < 2 ^ 62 → Extends p f f
Extends-refl p f o b = record { below = λ i h. refl; size = omega arith; good = o; bound = b }

pub write_end_of_data-Writes :
    (v : Drive)
    → HasRoom 0 v
    → Writes (Extends v.tape.tape_position v.tape.file) write_end_of_data v
unfolding write_end_of_data
write_end_of_data-Writes v r =
    let w =
      write_simh_meta_data-Writes SimhClass.private_marker (marker_value ObjectType.end_of_data) v
        r in
    let end = add_64 v.tape.tape_position 4 in
    elim (Bool-cases (is_negative end || leb end v.tape.file_size)) [
      | inl fits ↦ record {
        file = w.file;
        result = ground (arith, fits, w.result);
        holds = w.holds.extends;
      }
      | inr full ↦ record {
        file = v.tape.file;
        result = ground (arith, full);
        holds = Extends-refl _ _ r.good r.size;
      }
    ]

pub Wrote-Extends :
    (p q : ℕ) (bytes : List ℕ) (f g h : TapeFile)
    → p + length bytes ≤ q
    → Wrote p bytes f g
    → Extends q g h
    → Wrote p bytes f h
Wrote-Extends p q bytes f g h l w x = record {
  extends = record {
    below = λ i k. x.below i (omega (arith, l)) ∙ w.extends.below i k;
    size = omega (arith, w.extends.size, x.size);
    good = x.good;
    bound = x.bound;
  };
  there = window-below g.bytes h.bytes q p (length bytes) x.below l ∙ w.there;
  inside = omega (arith, w.inside, x.size);
}
