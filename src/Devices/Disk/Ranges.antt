-- ===== src/Devices/Disk/Ranges.antt =====
-- The bounds of the sectors that a disk (cpp/devices/disk.cpp) accepts in a CDB.
use piscsi.Common.{
  ℕ, ◌+◌, ◌%◌, ◌^◌, ◌≤◌, ◌<◌, ◌≡◌, refl, sym, ap, ◌∙◌, ◌≢◌, Bool, not, ◌||◌, ◌==◌, arith,
}
use piscsi.Controllers.State.{Controller, Outcome, ok, throw, Action, ◌>>◌}
use piscsi.Controllers.Device.{check_ready}
use piscsi.Devices.Disk.{
  Disks, AccessMode, cdb_start, cdb_count, is_seek, check_range, check_and_get_start_and_count,
  check_address, validate_block_address,
}

-- A device that is ready is left as it is.
check_ready-ok :
    {X : Type 0} (lun : ℕ) (s : Controller X)
    → (check_ready lun s).0 ≡ ok tt
    → check_ready lun s ≡ (ok tt, s)
unfolding check_ready
check_ready-ok lun s h = ground arith

-- What follows a successful check is called in the same state.
pub ready_then-ok :
    {X A : Type 0} (lun : ℕ) (k : Action X A) (s : Controller X) (a : A)
    → ((check_ready lun >> k) s).0 ≡ ok a
    → (check_ready lun >> k) s ≡ k s
ready_then-ok {X} {A} lun k s a h = on (check_ready lun s).0 refl
  where
    on : (o : Outcome (Unit {0})) → (check_ready lun s).0 ≡ o → (check_ready lun >> k) s ≡ k s
    on (ok tt) e = ground (arith, check_ready-ok lun s e)
    on (throw b c) e = ground (arith, e, h)

check_range-bounds :
    (mode : AccessMode) (lun : ℕ) (s : Controller Disks) (valid : Bool) (start count : ℕ)
    → start + count < 2 ^ 64
    → (check_range mode lun s).0 ≡ ok (valid, start, count)
    → start + count ≤ (s.extra.storage lun).blocks
unfolding check_range
check_range-bounds mode lun s valid start count small h = ground arith

-- An accepted start sector and count lie on the disk, unless their sum has more than 64 bits.
pub check_and_get_start_and_count-bounds :
    (mode : AccessMode) (lun : ℕ) (s : Controller Disks) (valid : Bool) (start count : ℕ)
    → start + count < 2 ^ 64
    → (check_and_get_start_and_count mode lun s).0 ≡ ok (valid, start, count)
    → start + count ≤ (s.extra.storage lun).blocks
unfolding check_and_get_start_and_count
check_and_get_start_and_count-bounds mode lun s valid start count small h =
    let same = ready_then-ok lun (check_range mode lun) s (valid, start, count) h in
    check_range-bounds mode lun s valid start count small (ap (λ r. r.0) (sym same) ∙ h)

check_range-wrap :
    (mode : AccessMode) (lun : ℕ) (s : Controller Disks)
    → (s.extra.storage lun).blocks ≢ 0
    → 2 ^ 64 ≤ cdb_start mode s + cdb_count mode s
    → cdb_start mode s + cdb_count mode s ≤ 2 ^ 64 + (s.extra.storage lun).blocks
    → (s.extra.storage lun).blocks < 2 ^ 64
    → check_range mode lun s
      ≡ (ok (not (cdb_count mode s == 0) || is_seek mode, cdb_start mode s, cdb_count mode s), s)
unfolding check_range
check_range-wrap mode lun s some_blocks over under fits =
    let rest : (cdb_start mode s + cdb_count mode s) % 2 ^ 64 ≤ (s.extra.storage lun).blocks =
      omega arith in
    ground (arith, rest, some_blocks)

-- A disk that is ready accepts a range far behind its end if the sum of start sector and count, by
-- its wrap-around, is not above the number of blocks.
pub check_and_get_start_and_count-wrap :
    (mode : AccessMode) (lun : ℕ) (s : Controller Disks)
    → check_ready lun s ≡ (ok tt, s)
    → (s.extra.storage lun).blocks ≢ 0
    → 2 ^ 64 ≤ cdb_start mode s + cdb_count mode s
    → cdb_start mode s + cdb_count mode s ≤ 2 ^ 64 + (s.extra.storage lun).blocks
    → (s.extra.storage lun).blocks < 2 ^ 64
    → check_and_get_start_and_count mode lun s
      ≡ (ok (not (cdb_count mode s == 0) || is_seek mode, cdb_start mode s, cdb_count mode s), s)
unfolding check_and_get_start_and_count
check_and_get_start_and_count-wrap mode lun s ready some_blocks over under fits =
    cc (ready, check_range-wrap mode lun s some_blocks over under fits)

check_address-bounds :
    (mode : AccessMode) (lun : ℕ) (s : Controller Disks) (sector : ℕ)
    → (check_address mode lun s).0 ≡ ok sector
    → sector < (s.extra.storage lun).blocks
unfolding check_address
check_address-bounds mode lun s sector h = ground arith

-- A sector that is accepted for READ LONG and WRITE LONG is one of the disk.
pub validate_block_address-bounds :
    (mode : AccessMode) (lun : ℕ) (s : Controller Disks) (sector : ℕ)
    → (validate_block_address mode lun s).0 ≡ ok sector
    → sector < (s.extra.storage lun).blocks
unfolding validate_block_address
validate_block_address-bounds mode lun s sector h =
    let same = ready_then-ok lun (check_address mode lun) s sector h in
    check_address-bounds mode lun s sector (ap (λ r. r.0) (sym same) ∙ h)
