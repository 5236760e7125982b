-- ===== src/Devices/Tape/Overflow.antt =====
-- The maximum size of the file of a tape (cpp/devices/tape.cpp).
use piscsi.Common.{
  ℕ, ◌+◌, ◌^◌, ◌≤◌, ◌<◌, ◌≡◌, refl, sym, ap, ◌∙◌, Bool, true, false, List, [], ◌∷◌, arith, length,
  length-take-le, take, ◌==◌, if_intro,
}
use piscsi.Shared.SimhUtil.{SimhClass, SimhMetaData, to_little_endian}
use piscsi.Controllers.State.{Outcome, ok, throw}
use piscsi.Devices.Tape.{
  Drive, Motion, ◌>>=◌, ◌>>◌, ObjectType, set_file, add_64, write_file, check_for_overflow,
  check_for_write_error,
}
use piscsi.Devices.Tape.Seeking.{move_on}
use piscsi.Devices.Tape.Writing.{
  write_here, write_simh_meta_data, write_end_of_data, write_meta_data, is_at_record_boundary,
  begin_record, pass_data, write_record_data, write_trailer, leave_record, end_record, end_transfer,
  marker_value,
}
use piscsi.Devices.Tape.Written.{length-to_little_endian}

-- A file of at most `k` bytes, where the maximum is less, and a position near it.
pub record IsWithin (k : ℕ) (v : Drive) : Type 0 where
  pub size : v.tape.file.size ≤ k
  pub max : v.tape.max_file_size + 1 ≤ k
  pub position : v.tape.tape_position ≤ v.tape.max_file_size + 8
  pub bound : k < 2 ^ 60

-- A call keeps this, whether it fails or not.
abbrev pub KeepsWithin : {A : Type 0} → Motion A → Type 0
KeepsWithin m = (k : ℕ) (v : Drive) → IsWithin k v → IsWithin k (m v).1

pub >>=-IsWithin :
    {A B : Type 0} (m : Motion A) (f : A → Motion B) (k : ℕ) (v : Drive)
    → IsWithin k (m v).1
    → ((a : A) (u : Drive) → m v ≡ (ok a, u) → IsWithin k u → IsWithin k (f a u).1)
    → IsWithin k ((m >>= f) v).1
>>=-IsWithin {A} {B} m f k v h l = on_result (m v) refl h
  where
    on_result :
        (r : Outcome A × Drive)
        → m v ≡ r
        → IsWithin k r.1
        → IsWithin k
            (elim (r.0) as (λ _. Outcome B × Drive) [
              | ok a ↦ f a (r.1)
              | throw i j ↦ (throw i j, r.1)
            ]).1
    on_result (ok a, u) e x = l a u e x
    on_result (throw i j, u) e x = x

-- A write of `n` bytes at most after the check for them, and a move over `n` bytes.
checked_write :
    (good : Bool) (bytes : List ℕ) (n l : ℕ) (k : ℕ) (v : Drive)
    → length bytes ≤ n
    → n ≤ l
    → l < 2 ^ 61
    → IsWithin k v
    → let r = (check_for_overflow l >> write_here good bytes) v in
      IsWithin k r.1
      × (r.0 ≡ ok tt → v.tape.tape_position + n ≤ v.tape.max_file_size)
      × (r.1.tape.tape_position ≡ v.tape.tape_position)
      × (r.1.tape.max_file_size ≡ v.tape.max_file_size)
unfolding check_for_overflow write_here write_file check_for_write_error
checked_write good bytes n l k v b i j w = (
  record {
    size = ground (arith, b, i, j, w.size, w.max, w.position, w.bound);
    max = ground (arith, w.max);
    position = ground (arith, w.position);
    bound = w.bound;
  },
  λ e. ground (arith, e, b, i, j, w.max, w.position, w.bound),
  ground arith,
  ground arith,
)

-- What a write of meta data keeps: four bytes behind the position are within the maximum if it succeeds.
record Marks (k : ℕ) (v : Drive) (r : Outcome (Unit {0}) × Drive) : Type 0 where
  within : IsWithin k r.1
  fits : r.0 ≡ ok tt → v.tape.tape_position + 4 ≤ v.tape.max_file_size
  position : r.1.tape.tape_position ≡ v.tape.tape_position
  max : r.1.tape.max_file_size ≡ v.tape.max_file_size

write_simh_meta_data-Marks :
    (good : Bool) (cls : SimhClass) (value k : ℕ) (v : Drive)
    → IsWithin k v
    → Marks k v (write_simh_meta_data good cls value v)
unfolding write_simh_meta_data
write_simh_meta_data-Marks good cls value k v w =
    let m : SimhMetaData = record { cls = cls; value = value } in
    let four = length-to_little_endian m in
    let l : add_64 v.tape.tape_position 4 ≡ v.tape.tape_position + 4 =
      omega (arith, w.position, w.max, w.bound) in
    let (within, fits, at, max) =
      checked_write good (to_little_endian m) 4 (add_64 v.tape.tape_position 4) k v
        (omega (arith, four)) (omega (arith, l)) (omega (arith, l, w.position, w.max, w.bound)) w in
    record { within = within; fits = fits; position = at; max = max }

write_end_of_data-IsWithin : (k : ℕ) (v : Drive) → IsWithin k v → IsWithin k (write_end_of_data v).1
unfolding write_end_of_data
write_end_of_data-IsWithin k v w =
    if_intro (λ (r : Outcome (Unit {0}) × Drive). IsWithin k r.1) _
      (write_simh_meta_data-Marks true SimhClass.private_marker
        (marker_value ObjectType.end_of_data) k v w).within
      w

-- The same a position of at most 8 bytes further on.
move_on-IsWithin :
    (n k : ℕ) (v : Drive)
    → IsWithin k v
    → v.tape.tape_position + n ≤ v.tape.max_file_size + 8
    → IsWithin k (move_on n v)
move_on-IsWithin n k v w h = record {
  size = w.size;
  max = w.max;
  position = omega (arith, h, w.max, w.bound);
  bound = w.bound;
}

write_meta_data-IsWithin :
    (type : ObjectType) (n k : ℕ) (v : Drive)
    → IsWithin k v
    → IsWithin k (write_meta_data type n v).1
unfolding write_meta_data
write_meta_data-IsWithin type n k v w =
    let m = write_simh_meta_data-Marks true SimhClass.tape_mark_good_data_record n k v w in
    let P = λ (r : Outcome (Unit {0}) × Drive). IsWithin k r.1 in
    if_intro P v.tape.tar_file w (
      if_intro P _ (write_end_of_data-IsWithin k v w) (
        >>=-IsWithin (write_simh_meta_data true SimhClass.tape_mark_good_data_record n)
          (λ _ u. write_end_of_data (move_on 4 u)) k v m.within
          λ a u e x.
            let fits = m.fits (ap (λ (r : Outcome (Unit {0}) × Drive). r.0) e) in
            let at =
              ap (λ (r : Outcome (Unit {0}) × Drive). r.1.tape.tape_position) (sym e)
              ∙ m.position in
            let max =
              ap (λ (r : Outcome (Unit {0}) × Drive). r.1.tape.max_file_size) (sym e) ∙ m.max in
            write_end_of_data-IsWithin k (move_on 4 u)
              (move_on-IsWithin 4 k u x (omega (arith, fits, at, max)))))

-- The data of a part of a record end within the maximum if they are written.
pub record Passes (k : ℕ) (v : Drive) (r : Outcome (Unit {0}) × Drive) : Type 0 where
  pub within : IsWithin k r.1
  pub fits : r.0 ≡ ok tt → r.1.tape.tape_position ≤ r.1.tape.max_file_size

pub write_record_data-Passes :
    (buf : List ℕ) (n k : ℕ) (v : Drive)
    → n < 2 ^ 32
    → IsWithin k v
    → Passes k v (write_record_data buf n v)
unfolding write_record_data
write_record_data-Passes buf n k v h w =
    let (within, fits, at, max) =
      checked_write true (take n buf) n n k v (length-take-le n buf) (omega arith)
        (omega (arith, h)) w in
    on_result ((check_for_overflow n >> write_here true (take n buf)) v) within fits at max
  where
    on_result :
        (r : Outcome (Unit {0}) × Drive)
        → IsWithin k r.1
        → (r.0 ≡ ok tt → v.tape.tape_position + n ≤ v.tape.max_file_size)
        → r.1.tape.tape_position ≡ v.tape.tape_position
        → r.1.tape.max_file_size ≡ v.tape.max_file_size
        → Passes k v (elim (r.0) as (λ _. Outcome (Unit {0}) × Drive) [
          | ok a ↦ (ok tt, pass_data n (r.1))
          | throw i j ↦ (throw i j, r.1)
        ])
    on_result (ok a, u) x f p m =
        let end = f refl in
        let moved : add_64 u.tape.tape_position n ≤ u.tape.max_file_size =
          omega (arith, end, p, m, w.max, w.bound) in
        record {
          within = record {
            size = x.size;
            max = x.max;
            position = omega (arith, moved);
            bound = x.bound;
          };
          fits = λ _. moved;
        }
    on_result (throw i j, u) x f p m = record { within = x; fits = λ e. cc e }

write_trailer-IsWithin :
    (good : Bool) (k : ℕ) (v : Drive) → IsWithin k v → IsWithin k (write_trailer good v).1
unfolding write_trailer
write_trailer-IsWithin good k v w =
    let m =
      write_simh_meta_data-Marks good SimhClass.tape_mark_good_data_record v.tape.record_length k v
        w in
    >>=-IsWithin
      (write_simh_meta_data good SimhClass.tape_mark_good_data_record v.tape.record_length)
      (λ _. leave_record) k v m.within
      λ a u e x.
        let fits = m.fits (ap (λ (r : Outcome (Unit {0}) × Drive). r.0) e) in
        let at =
          ap (λ (r : Outcome (Unit {0}) × Drive). r.1.tape.tape_position) (sym e) ∙ m.position in
        let max = ap (λ (r : Outcome (Unit {0}) × Drive). r.1.tape.max_file_size) (sym e) ∙ m.max in
        let moved = move_on-IsWithin 4 k u x (omega (arith, fits, at, max)) in
        record {
          size = moved.size;
          max = moved.max;
          position = moved.position;
          bound = moved.bound;
        }

-- The byte that is added behind data of an odd size is not checked.
pub end_record-IsWithin :
    (end : Bool) (k : ℕ) (v : Drive)
    → v.tape.tape_position ≤ v.tape.max_file_size
    → IsWithin k v
    → IsWithin k (end_record end v).1
unfolding end_record write_file
end_record-IsWithin false k v h w = w
end_record-IsWithin true k v h w =
    let f = (write_file v.tape.tape_position (0 ∷ []) v.tape.file).1 in
    let size : f.size ≤ k = ground (arith, h, w.size, w.max) in
    let padded : IsWithin k (set_file f v) = record {
      size = size;
      max = w.max;
      position = w.position;
      bound = w.bound;
    } in
    if_intro (λ (r : Outcome (Unit {0}) × Drive). IsWithin k r.1) _
      (write_trailer-IsWithin true k v w)
      (write_trailer-IsWithin _ k _ (move_on-IsWithin 1 k (set_file f v) padded (omega (arith, h))))

pub is_at_record_boundary-IsWithin :
    (k : ℕ) (v : Drive) → IsWithin k v → IsWithin k (is_at_record_boundary v).1
unfolding is_at_record_boundary
is_at_record_boundary-IsWithin k v w =
    if_intro (λ (r : Outcome Bool × Drive). IsWithin k r.1) v.tape.tar_file w
      (record { size = w.size; max = w.max; position = w.position; bound = w.bound })

pub begin_record-IsWithin :
    (start : Bool) (k : ℕ) (v : Drive) → IsWithin k v → IsWithin k (begin_record start v).1
unfolding begin_record
begin_record-IsWithin false k v w = w
begin_record-IsWithin true k v w =
    write_meta_data-IsWithin ObjectType.block v.tape.record_length k v w

pub end_transfer-IsWithin : (k : ℕ) (v : Drive) → IsWithin k v → IsWithin k (end_transfer v).1
unfolding end_transfer
end_transfer-IsWithin k v w =
    if_intro (λ (r : Outcome (Unit {0}) × Drive). IsWithin k r.1) (v.tape.remaining_count == 0)
      (write_meta_data-IsWithin ObjectType.end_of_data 0 k v w) w
