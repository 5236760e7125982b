-- ===== src/Devices/Tape/Progress.antt =====
-- Each round of a search on a tape (cpp/devices/tape.cpp) moves on, or back, and keeps the file.
use piscsi.Common.{
  ℕ, zero, suc, ◌+◌, ◌-◌, ◌^◌, ◌≤◌, ◌<◌, ◌≡◌, ◌≢◌, ◌⊎◌, inl, inr, refl, ap, Bool, true, false,
  Option, some, List, arith, Bool-cases, if_intro, length, min, ltb, take,
}
use piscsi.Shared.SimhUtil.{
  SimhClass, SimhMetaData, end_of_medium, read_meta_data, from_little_endian, pad,
}
use piscsi.Controllers.State.{ok}
use piscsi.Devices.Tape.{
  TapeFile, Drive, window, is_negative, sub_64, add_64, raise_end_of_partition,
}
use piscsi.Devices.Tape.Seeking.{
  Found, Sight, sight, read_meta, read_here, read_next_meta_data, update_object_location, see, look,
  record_size,
}

pub length-window : (bytes : ℕ → ℕ) (p n : ℕ) → length (window bytes p n) ≡ n
unfolding window
length-window bytes p zero = refl
length-window bytes p (suc n) = ap suc (length-window bytes (p + 1) n)

-- Meta data behind the end of the file
abbrev pub the_end : SimhMetaData
the_end = record { cls = SimhClass.reserverd_marker; value = end_of_medium }

-- What `ReadMetaData` may give at a position.
pub record IsMeta (p : ℕ) (f : TapeFile) (m : SimhMetaData) (f' : TapeFile) : Type 0 where
  pub size : f'.size ≡ f.size
  pub at : (m ≡ the_end) ⊎ ((p + 4 ≤ f.size) × (m.value < 2 ^ 28))

value-bound : (bytes : List ℕ) → (from_little_endian bytes).value < 2 ^ 28
unfolding from_little_endian
value-bound bytes = omega arith

read_meta-size : (p : ℕ) (f : TapeFile) → (read_meta p f).1.size ≡ f.size
unfolding read_meta
read_meta-size p f =
    if_intro (λ (r : Option SimhMetaData × TapeFile). r.1.size ≡ f.size) (is_negative p) refl refl

pub read_meta-at :
    (p : ℕ) (f : TapeFile) (m : SimhMetaData)
    → (read_meta p f).0 ≡ some m
    → (m ≡ the_end) ⊎ ((p + 4 ≤ f.size) × (m.value < 2 ^ 28))
unfolding read_meta read_meta_data
read_meta-at p f m e =
    let bytes = window f.bytes p (min 4 (f.size - p)) in
    let n = length-window f.bytes p (min 4 (f.size - p)) in
    elim (Bool-cases (ltb (length bytes) 4)) [
      | inl short ↦ inl (ground (arith, e, short))
      | inr long ↦
          let v = value-bound (take 4 bytes) in
          let there : p + 4 ≤ f.size = ground (arith, n, long) in
          inr (there, ground (arith, e, long, v))
    ]

pub read_meta-value :
    (p : ℕ) (f : TapeFile) (m : SimhMetaData) → (read_meta p f).0 ≡ some m → m.value < 2 ^ 28
unfolding read_meta read_meta_data
read_meta-value p f m e =
    ground (arith, e, value-bound (take 4 (window f.bytes p (min 4 (f.size - p)))))

pub record_size-bound : (m : SimhMetaData) → m.value < 2 ^ 28 → record_size m < 2 ^ 29
unfolding pad
record_size-bound m h = ground (arith, h)

-- What `ReadNextMetaData` has read stands at the position.
pub next-read :
    (v w : Drive) (m : SimhMetaData)
    → read_next_meta_data false v ≡ (ok (some m), w)
    → ((read_meta v.tape.tape_position v.tape.file).0 ≡ some m)
      × (w.tape.file.size ≡ v.tape.file.size)
      × (w.tape.tape_position ≡ add_64 v.tape.tape_position 4)
unfolding read_next_meta_data read_here
next-read v w m e =
    let size = read_meta-size v.tape.tape_position v.tape.file in ground (arith, e, size)

pub next-read_back :
    (v w : Drive) (m : SimhMetaData)
    → let p = sub_64 v.tape.tape_position 4 in
      read_next_meta_data true v ≡ (ok (some m), w)
      → ((read_meta p v.tape.file).0 ≡ some m)
        × (is_negative p ≡ false)
        × (w.tape.file.size ≡ v.tape.file.size)
        × (w.tape.tape_position ≡ sub_64 p (record_size m))
unfolding read_next_meta_data read_here
next-read_back v w m e =
    let size = read_meta-size (sub_64 v.tape.tape_position 4) v.tape.file in ground (arith, e, size)

skipped-bound :
    (m : SimhMetaData) (n : ℕ) → m.value < 2 ^ 28 → sight m ≡ Sight.skipped n → n < 2 ^ 29
unfolding sight
skipped-bound m n h e = let b = record_size-bound m h in ground (arith, e, b)

-- A look at the meta data keeps the file, and moves on at most by a record, forward only.
pub record Looked (reverse : Bool) (v w : Drive) : Type 0 where
  pub size : w.tape.file.size ≡ v.tape.file.size
  pub back : reverse ≡ true → w.tape.tape_position ≡ v.tape.tape_position
  pub on :
      reverse ≡ false
      → v.tape.tape_position < 2 ^ 63
      → (v.tape.tape_position ≤ w.tape.tape_position)
        × (w.tape.tape_position ≤ v.tape.tape_position + 2 ^ 29)

pub look-Looked :
    (count : ℕ) (reverse : Bool) (m : SimhMetaData) (o : Option Found) (v w : Drive)
    → m.value < 2 ^ 28
    → look count reverse (some m) v ≡ (ok o, w)
    → Looked reverse v w
unfolding look see update_object_location raise_end_of_partition
look-Looked count reverse m o v w h e = on_sight (sight m) refl
  where
    on_sight : (x : Sight) → sight m ≡ x → Looked reverse v w
    on_sight (Sight.object type n) i = ground (arith, e, i)
    on_sight Sight.medium_end i = ground (arith, e, i)
    on_sight (Sight.skipped n) i = ground (arith, e, i, skipped-bound m n h i)

pub look-the_end :
    (count : ℕ) (reverse : Bool) (o : Option Found) (v w : Drive)
    → look count reverse (some the_end) v ≢ (ok o, w)
unfolding look see sight raise_end_of_partition
look-the_end count reverse o v w e = ground (arith, e)

pub look-meta_data :
    (count : ℕ) (reverse : Bool) (m : SimhMetaData) (f : Found) (v w : Drive)
    → look count reverse (some m) v ≡ (ok (some f), w)
    → f.meta_data ≡ m
unfolding look see update_object_location raise_end_of_partition
look-meta_data count reverse m f v w e = ground (arith, e)
