-- ===== src/Shared/MemoryUtil/Laws.antt =====
-- Round trips and frames of cpp/shared/memory_util.cpp.
use piscsi.Common.{
  inl, refl, ℕ, zero, suc, ◌+◌, ◌%◌, ◌^◌, ◌<◌, ◌≡◌, ◌⊎◌, ◌&&◌, List, [], ◌∷◌, arith, length, get_or,
  set, length-set, ltb, ◌==◌, if◌then◌else◌,
}
use piscsi.Shared.MemoryUtil.{get_int16, get_int32, set_int16, set_int32}

-- What a byte reads after one write.
get_or-set :
    (xs : List ℕ) (i j v : ℕ)
    → get_or (set xs i v) j 0 ≡ (if i == j && ltb i (length xs) then v else get_or xs j 0)
get_or-set [] i j v = ground arith
get_or-set (x ∷ xs) zero zero v = ground arith
get_or-set (x ∷ xs) zero (suc j) v = ground arith
get_or-set (x ∷ xs) (suc i) zero v = ground arith
get_or-set (x ∷ xs) (suc i) (suc j) v = ground (arith, get_or-set xs i j v)

-- A 16-bit number that is written within the bounds reads back, without its upper bits.
pub get_int16-set_int16 :
    (buf : List ℕ) (o v : ℕ) → o + 1 < length buf → get_int16 (set_int16 buf o v) o ≡ v % 2 ^ 16
unfolding get_int16 set_int16
get_int16-set_int16 buf o v h = simp (get_or-set, length-set) (ground arith)

-- A 32-bit number that is written within the bounds reads back, without its upper bits.
pub get_int32-set_int32 :
    (buf : List ℕ) (o v : ℕ) → o + 3 < length buf → get_int32 (set_int32 buf o v) o ≡ v % 2 ^ 32
unfolding get_int32 set_int32
get_int32-set_int32 buf o v h = simp (get_or-set, length-set) (ground arith)

-- The bytes beside a 32-bit number that is written keep their values.
pub get_or-set_int32 :
    (buf : List ℕ) (o v j : ℕ)
    → (j < o) ⊎ (o + 3 < j)
    → get_or (set_int32 buf o v) j 0 ≡ get_or buf j 0
unfolding set_int32
get_or-set_int32 buf o v j h = simp (get_or-set, length-set) (ground arith)

pub length-set_int32 : (buf : List ℕ) (o v : ℕ) → length (set_int32 buf o v) ≡ length buf
unfolding set_int32
length-set_int32 buf o v = simp length-set refl

-- A 32-bit number in front of one that is written keeps its value.
pub get_int32-set_int32_behind :
    (buf : List ℕ) (o p v : ℕ) → o + 3 < p → get_int32 (set_int32 buf p v) o ≡ get_int32 buf o
unfolding get_int32
get_int32-set_int32_behind buf o p v h = cc (
  get_or-set_int32 buf p v o (inl (omega arith)),
  get_or-set_int32 buf p v (o + 1) (inl (omega arith)),
  get_or-set_int32 buf p v (o + 2) (inl (omega arith)),
  get_or-set_int32 buf p v (o + 3) (inl (omega arith)),
)
