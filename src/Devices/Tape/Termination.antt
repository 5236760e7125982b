-- ===== src/Devices/Tape/Termination.antt =====
-- The searches of cpp/devices/tape.cpp end: with the fuel that they are given, or more of it, the
-- result is the same.
use piscsi.Common.{
  ℕ, zero, suc, ◌+◌, ◌-◌, ◌^◌, ◌≤◌, ◌<◌, ◌≡◌, ◌≢◌, ◌⊎◌, inl, inr, refl, sym, ap, ◌∙◌, subst, Bool,
  Bool-cases, true, false, Option, none, some, arith, if◌then◌else◌, leb,
}
use piscsi.Shared.SimhUtil.{SimhMetaData}
use piscsi.Controllers.State.{Outcome, ok, throw}
use piscsi.Devices.Tape.{Drive, Motion, ◌>>=◌, is_negative, sub_64, raise_beginning_of_partition}
use piscsi.Devices.Tape.Seeking.{
  Found, read_next_meta_data, look, round, carry_on, read_simh_meta_data, record_size,
}
use piscsi.Devices.Tape.Progress.{
  read_meta-at, read_meta-value, next-read, next-read_back, look-Looked, look-the_end,
  record_size-bound,
}

-- The parts of a chain that succeeds.
pub >>=-eq-ok :
    {A B : Type 0} (m : Motion A) (f : A → Motion B) (b : B) (v w : Drive)
    → (m >>= f) v ≡ (ok b, w)
    → (a : A) × (u : Drive) × (m v ≡ (ok a, u)) × (f a u ≡ (ok b, w))
>>=-eq-ok {A} {B} m f b v w e = on_result (m v) refl e
  where
    on_result :
        (r : Outcome A × Drive)
        → m v ≡ r
        → (elim (r.0) as (λ _. Outcome B × Drive) [
          | ok a ↦ f a (r.1)
          | throw k c ↦ (throw k c, r.1)
        ])
          ≡ (ok b, w)
        → (a : A) × (u : Drive) × (m v ≡ (ok a, u)) × (f a u ≡ (ok b, w))
    on_result (ok a, u) i j = (a, u, i, j)
    on_result (throw k c, u) i j = cc j

-- What is left of the tape in the direction of a search.
abbrev pub left : Bool → Drive → ℕ
left true v = if is_negative v.tape.tape_position then 0 else v.tape.tape_position + 1
left false v = v.tape.file.size - v.tape.tape_position

-- A file has less than 2^62 bytes, and a position is not far in front of it.
pub record IsSound (reverse : Bool) (v : Drive) : Type 0 where
  pub size : v.tape.file.size < 2 ^ 62
  pub at :
      reverse ≡ true
      → (v.tape.tape_position < 2 ^ 63)
        ⊎ ((2 ^ 64 - 2 ^ 30 ≤ v.tape.tape_position) × (v.tape.tape_position < 2 ^ 64))

pub record Advances (reverse : Bool) (v w : Drive) : Type 0 where
  pub sound : IsSound reverse w
  pub less : left reverse w < left reverse v
  pub near : reverse ≡ false → w.tape.tape_position ≤ w.tape.file.size + 2 ^ 30

round-on :
    (count : ℕ) (o : Option Found) (v u w : Drive) (m : SimhMetaData)
    → IsSound false v
    → read_next_meta_data false v ≡ (ok (some m), u)
    → look count false (some m) u ≡ (ok o, w)
    → Advances false v w
round-on count o v u w m s e f =
    let (there, size, at) = next-read v u m e in
    let value = read_meta-value v.tape.tape_position v.tape.file m there in
    elim (read_meta-at v.tape.tape_position v.tape.file m there) [
      | inl end ↦
          absurd
            (look-the_end count false o u w (ap (λ x. look count false (some x) u) (sym end) ∙ f))
      | inr (inside, _) ↦
          let moved : u.tape.tape_position ≡ v.tape.tape_position + 4 =
            omega (arith, s.size, at, inside) in
          let looked = look-Looked count false m o u w value f in
          let (low, high) = looked.on refl (omega (arith, s.size)) in
          record {
            sound = record { size = omega (arith, s.size, size, looked.size); at = λ r. cc r };
            less = omega (arith, size, looked.size);
            near = λ _. omega (arith, size, looked.size);
          }
    ]

round-back :
    (count : ℕ) (o : Option Found) (v u w : Drive) (m : SimhMetaData)
    → IsSound true v
    → read_next_meta_data true v ≡ (ok (some m), u)
    → look count true (some m) u ≡ (ok o, w)
    → Advances true v w
round-back count o v u w m s e f =
    let (there, inside, size, at) = next-read_back v u m e in
    let p = sub_64 v.tape.tape_position 4 in
    let value = read_meta-value p v.tape.file m there in
    let n = record_size-bound m value in
    let looked = look-Looked count true m o u w value f in
    let same = looked.back refl in
    let from : v.tape.tape_position < 2 ^ 63 = elim (s.at refl) [
      | inl low ↦ low
      | inr (high, below) ↦ ground (arith, high, below, inside)
    ] in
    let enough : 4 ≤ v.tape.tape_position = ground (arith, inside, from) in
    record {
      sound = record {
        size = omega (arith, s.size, size, looked.size);
        at = λ _. elim (Bool-cases (leb (record_size m) p)) [
          | inl fits ↦ inl (ground (arith, fits, at, same, from, enough))
          | inr over ↦
              inr (ground (arith, over, at, same, from, enough, n), ground (arith, at, same))
        ];
      };
      less = ground (arith, at, same, from, enough, n);
      near = λ r. cc r;
    }

pub look-none :
    (count : ℕ) (reverse : Bool) (o : Option Found) (v w : Drive)
    → look count reverse none v ≢ (ok o, w)
unfolding look raise_beginning_of_partition
look-none count reverse o v w e = cc e

round-Advances :
    (count : ℕ) (reverse : Bool) (o : Option Found) (v w : Drive)
    → IsSound reverse v
    → round count reverse v ≡ (ok o, w)
    → Advances reverse v w
unfolding round
round-Advances count reverse o v w s e =
    let (m, u, i, j) = >>=-eq-ok (read_next_meta_data reverse) (look count reverse) o v w e in
    on_meta reverse m u s i j
  where
    on_meta :
        (b : Bool) (m : Option SimhMetaData) (u : Drive)
        → IsSound b v
        → read_next_meta_data b v ≡ (ok m, u)
        → look count b m u ≡ (ok o, w)
        → Advances b v w
    on_meta b none u s i j = absurd (look-none count b o u w j)
    on_meta true (some m) u s i j = round-back count o v u w m s i j
    on_meta false (some m) u s i j = round-on count o v u w m s i j

-- What `ReadSimhMetaData` finds lies ahead.
pub read_simh_meta_data-Advances :
    (n count : ℕ) (reverse : Bool) (found : Found) (v w : Drive)
    → IsSound reverse v
    → read_simh_meta_data n count reverse v ≡ (ok found, w)
    → Advances reverse v w
unfolding read_simh_meta_data
read_simh_meta_data-Advances zero count reverse found v w s e = cc e
read_simh_meta_data-Advances (suc n) count reverse found v w s e =
    let more = read_simh_meta_data n count reverse in
    let (o, u, i, j) = >>=-eq-ok (round count reverse) (carry_on more) found v w e in
    let a = round-Advances count reverse o v u s i in
    on_object o u a j (read_simh_meta_data-Advances n count reverse found u w a.sound)
  where
    on_object :
        (o : Option Found) (u : Drive)
        → Advances reverse v u
        → carry_on (read_simh_meta_data n count reverse) o u ≡ (ok found, w)
        → (read_simh_meta_data n count reverse u ≡ (ok found, w) → Advances reverse u w)
        → Advances reverse v w
    on_object none u a j further =
        let b = further j in
        record { sound = b.sound; less = omega (arith, a.less, b.less); near = b.near }
    on_object (some f) u a j further =
        subst (Advances reverse v) (ap (λ (x : Outcome Found × Drive). x.1) j) a

-- Two continuations that agree wherever a call leads give the same.
pub >>=-same :
    {A B : Type 0} (m : Motion A) (f g : A → Motion B) (v : Drive)
    → ((a : A) (u : Drive) → m v ≡ (ok a, u) → f a u ≡ g a u)
    → (m >>= f) v ≡ (m >>= g) v
>>=-same {A} {B} m f g v h = on_result (m v) refl
  where
    on_result :
        (r : Outcome A × Drive)
        → m v ≡ r
        → ◌≡◌ {A = Outcome B × Drive}
            (elim (r.0) as (λ _. Outcome B × Drive) [
              | ok a ↦ f a (r.1)
              | throw k c ↦ (throw k c, r.1)
            ])
            (elim (r.0) as (λ _. Outcome B × Drive) [
              | ok a ↦ g a (r.1)
              | throw k c ↦ (throw k c, r.1)
            ])
    on_result (ok a, u) i = h a u i
    on_result (throw k c, u) i = refl

-- With fuel for what is left, more of it changes nothing.
pub read_simh_meta_data-fuel :
    (n k count : ℕ) (reverse : Bool) (v : Drive)
    → IsSound reverse v
    → left reverse v < n
    → left reverse v < k
    → read_simh_meta_data n count reverse v ≡ read_simh_meta_data k count reverse v
unfolding read_simh_meta_data
read_simh_meta_data-fuel zero k count reverse v s h l = elim h [ ]
read_simh_meta_data-fuel (suc n) zero count reverse v s h l = elim l [ ]
read_simh_meta_data-fuel (suc n) (suc k) count reverse v s h l =
    >>=-same (round count reverse) (carry_on (read_simh_meta_data n count reverse))
      (carry_on (read_simh_meta_data k count reverse)) v
      λ o u i.
        let a = round-Advances count reverse o v u s i in
        elim o
          as (λ x.
            carry_on (read_simh_meta_data n count reverse) x u
            ≡ carry_on (read_simh_meta_data k count reverse) x u) [
              | none ↦
                  read_simh_meta_data-fuel n k count reverse u a.sound (omega (arith, a.less, h))
                    (omega (arith, a.less, l))
              | some f ↦ refl
            ]
