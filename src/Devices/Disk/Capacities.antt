-- ===== src/Devices/Disk/Capacities.antt =====
-- What READ CAPACITY of a disk (cpp/devices/disk.cpp) replies.
use piscsi.Common.{
  ℕ, ◌-◌, ◌^◌, ◌≤◌, ◌<◌, ◌≡◌, ◌≢◌, ◌∙◌, List, if◌then◌else◌, ltb, arith, length, pos, min,
}
use piscsi.Shared.MemoryUtil.{get_int32, set_int32}
use piscsi.Shared.MemoryUtil.Laws.{
  get_int32-set_int32, get_int32-set_int32_behind, length-set_int32,
}
use piscsi.Controllers.State.{Controller, ok}
use piscsi.Controllers.Device.{data_in_phase, check_ready}
use piscsi.Devices.Disk.{Disks}
use piscsi.Devices.Disk.Capacity.{report_capacity_10, read_capacity_10_command}

-- A disk that is ready and has sectors replies to READ CAPACITY(10) with eight bytes: the number of
-- its last sector, or 0xffffffff if it is larger, and the size of its sectors.
pub read_capacity_10_command-reply :
    (lun : ℕ) (s : Controller Disks)
    → check_ready lun s ≡ (ok tt, s)
    → (s.extra.storage lun).blocks ≢ 0
    → 8 ≤ length s.buffer
    → (s.extra.storage lun).block_size < 2 ^ 32
    → (b : List ℕ) × (read_capacity_10_command lun s
        ≡ data_in_phase (pos 8) (record s { buffer = b }))
      × (get_int32 b 0 ≡ min ((s.extra.storage lun).blocks - 1) 0xffffffff)
      × (get_int32 b 4 ≡ (s.extra.storage lun).block_size)
unfolding read_capacity_10_command report_capacity_10
read_capacity_10_command-reply lun s ready some_blocks room small =
    let d = s.extra.storage lun in
    let shown = if ltb 0xffffffff (d.blocks - 1) then 0xffffffff else d.blocks - 1 in
    let b = set_int32 (set_int32 s.buffer 0 shown) 4 d.block_size in
    (
      b,
      ground (arith, ready, some_blocks),
      get_int32-set_int32_behind (set_int32 s.buffer 0 shown) 0 4 d.block_size (omega arith)
          ∙ get_int32-set_int32 s.buffer 0 shown (omega arith)
          ∙ ground arith,
      get_int32-set_int32 (set_int32 s.buffer 0 shown) 4 d.block_size
            (omega (arith, length-set_int32 s.buffer 0 shown))
          ∙ ground arith,
    )
