-- ===== src/Shared/CommandMetaData/Laws.antt =====
-- What the tables of cpp/shared/command_meta_data.cpp guarantee to the command phase.
use piscsi.Common.{
  ap, Bool-cases, inl, inr, ◌+◌, ℕ, zero, suc, ◌≤◌, ◌<◌, ◌≡◌, refl, Bool, true, ◌&&◌, ◌||◌, arith,
  leb, ◌/◌, ◌≢◌, ◌==◌, ==_iff, if◌then◌else◌,
}
use piscsi.Shared.CommandMetaData.{get_byte_count}

-- A test that holds of the `count` codes from `first` on.
passes_from : (ℕ → Bool) → (count first : ℕ) → Bool
passes_from test zero first = true
passes_from test (suc count) first = test first && passes_from test count (first + 1)

passes_from-at :
    (test : ℕ → Bool) (count first code : ℕ)
    → first ≤ code
    → code < first + count
    → passes_from test count first ≡ true
    → test code ≡ true
unfolding passes_from
passes_from-at test zero first code above below passed = absurd (omega arith)
passes_from-at test (suc count) first code above below passed = elim (Bool-cases (first == code)) [
  | inl at ↦ ground (arith, ap test ((==_iff first code).0 at))
  | inr ne ↦
      (let later : passes_from test count (first + 1) ≡ true = ground arith in
        passes_from-at test count (first + 1) code (ground arith) (omega arith) later)
]

-- The length of a CDB by the group code, the three upper bits of the operation code: SCSI-2 and SPC
-- have 6, 10, 16 and 12 bytes; group 3, which they reserve, has 10 here.
abbrev pub group_length : ℕ → ℕ
group_length group =
    if group == 0 then 6 else if leb group 3 then 10 else if group == 4 then 16 else 12

byte_count_table :
    passes_from (λ c. c == 0x1f || c == 0x7f || get_byte_count c == group_length (c / 32)) 192 0
    ≡ true
unfolding passes_from get_byte_count
byte_count_table = refl

-- The byte count of an operation code below 0xc0 is the one of its group, but for the escape byte
-- 0x1f and 0x7f, which stands for a variable length: no entry that overrides the four ranges changes
-- another length.
pub get_byte_count-group :
    (cmd : ℕ) → cmd < 0xc0 → cmd ≢ 0x1f → cmd ≢ 0x7f → get_byte_count cmd ≡ group_length (cmd / 32)
get_byte_count-group cmd h a b =
    let passed = passes_from-at _ 192 0 cmd (omega arith) h byte_count_table in
    (==_iff _ _).0 (ground (arith, passed, a, b))

short_table : passes_from (λ c. leb (get_byte_count c) 16) 256 0 ≡ true
unfolding passes_from get_byte_count
short_table = refl

pub get_byte_count-le : (cmd : ℕ) → cmd < 256 → get_byte_count cmd ≤ 16
get_byte_count-le cmd h = ground (arith, passes_from-at _ 256 0 cmd (omega arith) h short_table)
