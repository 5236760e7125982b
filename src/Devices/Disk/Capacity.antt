-- ===== src/Devices/Disk/Capacity.antt =====
-- The commands of cpp/devices/disk.cpp that report the capacity or nothing but their status, each as
-- it is on a disk that is ready and as a whole.
use piscsi.Common.{
  ℕ, ◌+◌, ◌-◌, ◌*◌, ◌/◌, ◌%◌, ◌^◌, Bool, not, List, [], ◌∷◌, if◌then◌else◌, ltb, ◌==◌, min, pos,
  write_at, replicate, test_bit,
}
use piscsi.Scsi.{SenseKey, Asc}
use piscsi.Shared.MemoryUtil.{get_int16, get_int32, set_int32, set_int64}
use piscsi.Base.PrimaryDevice.{PrimaryDevice}
use piscsi.Controllers.State.{throw, Action, ◌>>◌, get_cdb_byte, set_current_length}
use piscsi.Controllers.Device.{status_phase, data_in_phase, check_ready, with_device}
use piscsi.Devices.Disk.{Disks, AccessMode, with_size}
use piscsi.Devices.Disk.Long.{long_command}

-- `FormatUnit`
unfoldable pub accept_format : ℕ → Action Disks (Unit {0})
accept_format lun s =
    if test_bit 4 (get_cdb_byte 1 s)
    then (throw SenseKey.illegal_request Asc.invalid_field_in_cdb, s)
    else status_phase s

unfoldable pub format_unit_command : ℕ → Action Disks (Unit {0})
format_unit_command lun = check_ready lun >> accept_format lun

-- `ReadDefectData10`
unfoldable pub read_defect_data_10_command : Action Disks (Unit {0})
unfolding set_current_length
read_defect_data_10_command s =
    let n = min (get_int16 s.cdb 7) 4 in
    let s1 = set_current_length (pos n) s in
    data_in_phase (pos n) (record s1 { buffer = write_at s1.buffer 0 (replicate n 0) })

-- `ReadCapacity10`
unfoldable pub report_capacity_10 : ℕ → Action Disks (Unit {0})
report_capacity_10 lun = with_size lun λ d s.
    let capacity = d.blocks - 1 in
    let shown = if ltb 0xffffffff capacity then 0xffffffff else capacity in
    let buf = set_int32 (set_int32 s.buffer 0 shown) 4 d.block_size in
    if d.blocks == 0
    then (throw SenseKey.illegal_request Asc.medium_not_present, s)
    else data_in_phase (pos 8) (record s { buffer = buf })

unfoldable pub read_capacity_10_command : ℕ → Action Disks (Unit {0})
read_capacity_10_command lun = check_ready lun >> report_capacity_10 lun

-- `ReadCapacity16`
unfoldable pub report_capacity_16 : ℕ → Action Disks (Unit {0})
report_capacity_16 lun = with_size lun λ d s.
    let cleared = write_at s.buffer 0 (replicate 32 0) in
    let buf = set_int32 (set_int64 cleared 0 (d.blocks - 1)) 8 d.block_size in
    if d.blocks == 0
    then (throw SenseKey.illegal_request Asc.medium_not_present, s)
    else data_in_phase (pos (min 32 (get_int32 s.cdb 10))) (record s { buffer = buf })

unfoldable pub read_capacity_16_command : ℕ → Action Disks (Unit {0})
read_capacity_16_command lun = check_ready lun >> report_capacity_16 lun

-- The loop of `ReadFormatCapacities` over the block sizes: the end of the list and the buffer.
unfoldable pub list_capacities : ℕ → List ℕ → ℕ → List ℕ → ℕ × List ℕ
list_capacities bytes [] offset buf = (offset, buf)
list_capacities bytes (size ∷ sizes) offset buf =
    let b1 = set_int32 buf offset (bytes / size % 2 ^ 32) in
    list_capacities bytes sizes (offset + 8) (set_int32 b1 (offset + 4) size)

-- `ReadFormatCapacities`
unfoldable pub list_format_capacities : ℕ → PrimaryDevice → Action Disks (Unit {0})
list_format_capacities lun p s =
    let d = s.extra.storage lun in
    let b1 = set_int32 s.buffer 4 (d.blocks % 2 ^ 32) in
    let b2 = set_int32 b1 8 d.block_size in
    let sizes = if not p.device.read_only then d.supported_block_sizes else [] in
    let (offset, b3) = list_capacities (d.block_size * d.blocks % 2 ^ 64) sizes 12 b2 in
    data_in_phase (pos (min offset (get_int16 s.cdb 7)))
      (record s { buffer = set_int32 b3 0 (offset - 4) })

unfoldable pub report_format_capacities : ℕ → Action Disks (Unit {0})
report_format_capacities lun = with_device lun (list_format_capacities lun)

unfoldable pub read_format_capacities_command : ℕ → Action Disks (Unit {0})
read_format_capacities_command lun = check_ready lun >> report_format_capacities lun

-- `ReadCapacity16_ReadLong16`
unfoldable pub read_capacity_16_read_long_16_command : ℕ → Action Disks (Unit {0})
read_capacity_16_read_long_16_command lun s =
    let action = get_cdb_byte 1 s % 2 ^ 5 in
    if action == 0x10
    then read_capacity_16_command lun s
    else if action == 0x11
    then long_command AccessMode.rw16 12 Bool.false lun s
    else (throw SenseKey.illegal_request Asc.invalid_field_in_cdb, s)
