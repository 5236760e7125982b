-- ===== src/Devices/Tape/Searching.antt =====
-- `FindNextObject` of cpp/devices/tape.cpp ends.
use piscsi.Common.{
  ℕ, zero, suc, ◌^◌, ◌≤◌, ◌<◌, ◌≡◌, refl, ap, subst, Bool, true, false, Option, none, some, arith,
}
use piscsi.Shared.SimhUtil.{SimhMetaData}
use piscsi.Controllers.State.{ok}
use piscsi.Devices.Tape.{Drive, ObjectType, raise_end_of_data}
use piscsi.Devices.Tape.Seeking.{
  Found, read_next_meta_data, look, round, carry_on, read_simh_meta_data, rounds,
}
use piscsi.Devices.Tape.Finding.{
  Search, examine, count_object, search_round, find_from, carry_search, get_byte_count,
  raise_filemark, raise_filemark_with,
}
use piscsi.Devices.Tape.Progress.{
  read_meta-value, next-read, next-read_back, look-meta_data, record_size-bound,
}
use piscsi.Devices.Tape.Termination.{
  IsSound, Advances, left, >>=-eq-ok, >>=-same, look-none, read_simh_meta_data-Advances,
  read_simh_meta_data-fuel,
}

round-value :
    (count : ℕ) (reverse : Bool) (f : Found) (v w : Drive)
    → round count reverse v ≡ (ok (some f), w)
    → f.meta_data.value < 2 ^ 28
unfolding round
round-value count reverse f v w e =
    let (m, u, i, j) =
      >>=-eq-ok (read_next_meta_data reverse) (look count reverse) (some f) v w e in
    on_meta reverse m u i j
  where
    on_meta :
        (b : Bool) (m : Option SimhMetaData) (u : Drive)
        → read_next_meta_data b v ≡ (ok m, u)
        → look count b m u ≡ (ok (some f), w)
        → f.meta_data.value < 2 ^ 28
    on_meta b none u i j = absurd (look-none count b (some f) u w j)
    on_meta true (some m) u i j =
        let there = next-read_back v u m i in
        omega (
          arith,
          read_meta-value _ v.tape.file m there.0,
          ap (λ (x : SimhMetaData). x.value) (look-meta_data count true m f u w j),
        )
    on_meta false (some m) u i j =
        let there = next-read v u m i in
        omega (
          arith,
          read_meta-value _ v.tape.file m there.0,
          ap (λ (x : SimhMetaData). x.value) (look-meta_data count false m f u w j),
        )

read_simh_meta_data-value :
    (n count : ℕ) (reverse : Bool) (f : Found) (v w : Drive)
    → read_simh_meta_data n count reverse v ≡ (ok f, w)
    → f.meta_data.value < 2 ^ 28
unfolding read_simh_meta_data
read_simh_meta_data-value zero count reverse f v w e = cc e
read_simh_meta_data-value (suc n) count reverse f v w e =
    let more = read_simh_meta_data n count reverse in
    let (o, u, i, j) = >>=-eq-ok (round count reverse) (carry_on more) f v w e in
    on_object o u i j (read_simh_meta_data-value n count reverse f u w)
  where
    on_object :
        (o : Option Found) (u : Drive)
        → round count reverse v ≡ (ok o, u)
        → carry_on (read_simh_meta_data n count reverse) o u ≡ (ok f, w)
        → (read_simh_meta_data n count reverse u ≡ (ok f, w) → f.meta_data.value < 2 ^ 28)
        → f.meta_data.value < 2 ^ 28
    on_object none u i j further = further j
    on_object (some g) u i j further =
        let same : g ≡ f = cc j in
        subst (λ (x : Found). x.meta_data.value < 2 ^ 28) same (round-value count reverse g v u i)

-- `FindNextObject` keeps the file, and moves over a record at most.
record Examined (reverse : Bool) (m : SimhMetaData) (v w : Drive) : Type 0 where
  size : w.tape.file.size ≡ v.tape.file.size
  back : reverse ≡ true → w.tape.tape_position ≡ v.tape.tape_position
  on :
      reverse ≡ false
      → v.tape.tape_position < 2 ^ 63
      → m.value < 2 ^ 28
      → v.tape.tape_position ≤ w.tape.tape_position

examine-Examined :
    (type : ObjectType) (count : ℕ) (reverse read : Bool) (f : Found) (r : Search) (v w : Drive)
    → examine type count reverse read f v ≡ (ok r, w)
    → Examined reverse f.meta_data v w
unfolding examine count_object raise_end_of_data raise_filemark raise_filemark_with get_byte_count
examine-Examined type count reverse read f r v w e = record {
  size = ground (arith, e);
  back = λ b. ground (arith, e, b);
  on = λ b p q. ground (arith, e, b, p, record_size-bound f.meta_data q);
}

search_round-Advances :
    (type : ObjectType) (count : ℕ) (reverse read : Bool) (r : Search) (v w : Drive)
    → IsSound reverse v
    → search_round type count reverse read v ≡ (ok r, w)
    → IsSound reverse w × (left reverse w < left reverse v)
unfolding search_round
search_round-Advances type count reverse read r v w s e =
    let (f, u, i, j) =
      >>=-eq-ok (read_simh_meta_data (rounds v) count reverse) (examine type count reverse read) r v
        w e in
    let a = read_simh_meta_data-Advances (rounds v) count reverse f v u s i in
    let x = examine-Examined type count reverse read f r u w j in
    let value = read_simh_meta_data-value (rounds v) count reverse f v u i in
    on_direction reverse f u a x value
  where
    on_direction :
        (b : Bool) (f : Found) (u : Drive)
        → Advances b v u
        → Examined b f.meta_data u w
        → f.meta_data.value < 2 ^ 28
        → IsSound b w × (left b w < left b v)
    on_direction true f u a x value =
        let same = x.back refl in
        (
          record {
            size = omega (arith, a.sound.size, x.size);
            at = λ r. ground (arith, a.sound.at refl, same);
          },
          ground (arith, a.less, same),
        )
    on_direction false f u a x value =
        let from : u.tape.tape_position < 2 ^ 63 = omega (arith, a.near refl, a.sound.size) in
        let on = x.on refl from value in
        (
          record { size = omega (arith, a.sound.size, x.size); at = λ r. cc r },
          omega (arith, a.less, on, x.size),
        )

find_from-fuel :
    (n k : ℕ) (type : ObjectType) (count : ℕ) (reverse read : Bool) (v : Drive)
    → IsSound reverse v
    → left reverse v < n
    → left reverse v < k
    → find_from n type count reverse read v ≡ find_from k type count reverse read v
unfolding find_from
find_from-fuel zero k type count reverse read v s h l = elim h [ ]
find_from-fuel (suc n) zero type count reverse read v s h l = elim l [ ]
find_from-fuel (suc n) (suc k) type count reverse read v s h l =
    >>=-same (search_round type count reverse read)
      (carry_search (λ c. find_from n type c reverse read))
      (carry_search (λ c. find_from k type c reverse read)) v
      λ r u i.
        let (t, less) = search_round-Advances type count reverse read r v u s i in
        elim r
          as (λ x.
            carry_search (λ c. find_from n type c reverse read) x u
            ≡ carry_search (λ c. find_from k type c reverse read) x u) [
              | Search.hit m ↦ refl
              | Search.miss c ↦
                  find_from-fuel n k type c reverse read u t (omega (arith, less, h))
                    (omega (arith, less, l))
            ]

-- The loops of `FindNextObject` and `ReadSimhMetaData` end, on a file of less than 2^62 bytes and, in a
-- search backwards, from a position that is less than 2^63 or negative by at most 2^30: with the
-- fuel that they are given, or more of it, the results are the same.
pub find_next_object-fuel :
    (n : ℕ) (type : ObjectType) (count : ℕ) (reverse read : Bool) (v : Drive)
    → IsSound reverse v
    → rounds v ≤ n
    → (find_from n type count reverse read v ≡ find_from (rounds v) type count reverse read v)
      × (read_simh_meta_data n count reverse v ≡ read_simh_meta_data (rounds v) count reverse v)
find_next_object-fuel n type count reverse read v s h =
    let less : left reverse v < rounds v = left_less reverse in
    (
      find_from-fuel n (rounds v) type count reverse read v s (omega (arith, less, h)) less,
      read_simh_meta_data-fuel n (rounds v) count reverse v s (omega (arith, less, h)) less,
    )
  where
    left_less : (b : Bool) → left b v < rounds v
    left_less true = ground arith
    left_less false = omega arith
