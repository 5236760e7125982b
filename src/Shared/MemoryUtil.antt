-- ===== src/Shared/MemoryUtil.antt =====
-- cpp/shared/memory_util.h and .cpp: big-endian numbers in a buffer of bytes. `|` of shifted bytes
-- is a sum. The overloads for `byte` and `uint8_t` are one function; a byte out of bounds, which
-- the assertions exclude, reads as 0 and is not written.
pub mod Laws
use piscsi.Common.{ℕ, ◌+◌, ◌*◌, ◌/◌, ◌%◌, ◌^◌, List, get_or, set}

-- `static_cast<uint8_t>(value >> k)`
abbrev pub byte_at : ℕ → ℕ → ℕ
byte_at value k = value / 2 ^ k % 2 ^ 8

unfoldable pub get_int16 : List ℕ → ℕ → ℕ
get_int16 buf offset = get_or buf offset 0 * 2 ^ 8 + get_or buf (offset + 1) 0

unfoldable pub get_int24 : List ℕ → ℕ → ℕ
get_int24 buf offset =
    get_or buf offset 0 * 2 ^ 16 + get_or buf (offset + 1) 0 * 2 ^ 8 + get_or buf (offset + 2) 0

unfoldable pub get_int32 : List ℕ → ℕ → ℕ
get_int32 buf offset =
    get_or buf offset 0 * 2 ^ 24
    + get_or buf (offset + 1) 0 * 2 ^ 16
    + get_or buf (offset + 2) 0 * 2 ^ 8
    + get_or buf (offset + 3) 0

unfoldable pub get_int64 : List ℕ → ℕ → ℕ
get_int64 buf offset =
    get_or buf offset 0 * 2 ^ 56
    + get_or buf (offset + 1) 0 * 2 ^ 48
    + get_or buf (offset + 2) 0 * 2 ^ 40
    + get_or buf (offset + 3) 0 * 2 ^ 32
    + get_or buf (offset + 4) 0 * 2 ^ 24
    + get_or buf (offset + 5) 0 * 2 ^ 16
    + get_or buf (offset + 6) 0 * 2 ^ 8
    + get_or buf (offset + 7) 0

unfoldable pub set_int16 : List ℕ → ℕ → ℕ → List ℕ
set_int16 buf offset value = set (set buf offset (byte_at value 8)) (offset + 1) (byte_at value 0)

unfoldable pub set_int32 : List ℕ → ℕ → ℕ → List ℕ
set_int32 buf offset value =
    let b0 = set buf offset (byte_at value 24) in
    let b1 = set b0 (offset + 1) (byte_at value 16) in
    let b2 = set b1 (offset + 2) (byte_at value 8) in set b2 (offset + 3) (byte_at value 0)

unfoldable pub set_int64 : List ℕ → ℕ → ℕ → List ℕ
set_int64 buf offset value =
    let b0 = set buf offset (byte_at value 56) in
    let b1 = set b0 (offset + 1) (byte_at value 48) in
    let b2 = set b1 (offset + 2) (byte_at value 40) in
    let b3 = set b2 (offset + 3) (byte_at value 32) in
    let b4 = set b3 (offset + 4) (byte_at value 24) in
    let b5 = set b4 (offset + 5) (byte_at value 16) in
    let b6 = set b5 (offset + 6) (byte_at value 8) in set b6 (offset + 7) (byte_at value 0)
