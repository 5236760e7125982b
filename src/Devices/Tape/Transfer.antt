-- ===== src/Devices/Tape/Transfer.antt =====
-- The tape drive of a LUN of a controller, and the transfers of cpp/devices/tape.cpp: `Locate`,
-- `Read`, `Write`, `ReadData` and `WriteData`.
use piscsi.Common.{
  ℕ, ◌*◌, ◌/◌, ◌%◌, ◌^◌, Bool, true, false, not, ◌&&◌, ◌||◌, List, if◌then◌else◌, ◌==◌, min, pos,
  test_bit, write_at,
}
use piscsi.Scsi.{SenseKey, Asc, StatusCode}
use piscsi.Shared.MemoryUtil.{get_int24, get_int32, get_int64}
use piscsi.Base.PrimaryDevice.{set_information}
use piscsi.Controllers.State.{
  Controller, Outcome, ok, throw, Action, raise_if, run, get_cdb_byte, update_device,
  set_current_length, set_transfer_size, set_controller_status,
}
use piscsi.Controllers.State
use piscsi.Controllers.Device.{
  status_phase, data_in_phase, data_out_phase, check_ready, with_device,
}
use piscsi.Devices.StorageDevice.{Storages, check_write_preconditions}
use piscsi.Devices.Tape.{
  Tape, Drive, Motion, ◌>>=◌, set_tape, set_device, cdb_byte, reset_positions,
}
use piscsi.Devices.Tape.Finding.{get_byte_count, find_object}
use piscsi.Devices.Tape.Writing.{is_at_record_boundary, write_record_part}
use piscsi.Devices.Tape.Reading.{Plan, begin_read, finish_read}

abbrev pub Tapes : Type 0
Tapes = Storages Tape

unfoldable pub update_tape : ℕ → (Tape → Tape) → Controller Tapes → Controller Tapes
update_tape lun f s = record s {
  extra = record (s.extra) { unit = λ l. if l == lun then f (s.extra.unit l) else s.extra.unit l };
}

-- What a method of the drive leaves, in the controller.
abbrev pub put_drive : ℕ → Drive → Controller Tapes → Controller Tapes
put_drive lun v s = update_tape lun (λ _. v.tape) (update_device lun (λ _. v.device) s)

-- A method of the drive of a LUN.
unfoldable pub on_drive : {A : Type 0} → ℕ → Motion A → Action Tapes A
unfolding update_tape update_device
on_drive lun m = with_device lun λ d s.
    let (r, v) = m (record {
      device = d;
      block_size = (s.extra.storage lun).block_size;
      cdb = s.cdb;
      tape = s.extra.unit lun;
    }) in
    (r, put_drive lun v s)

-- A method of the drive that does not fail.
abbrev pub change : (Drive → Drive) → Motion (Unit {0})
change f v = (ok tt, f v)

-- `Locate` where the image is a tar file
unfoldable pub locate_in_tar : ℕ → Bool → Motion Bool
locate_in_tar identifier bt v =
    let here = λ (p l : ℕ). set_tape (λ t. record t { tape_position = p; object_location = l }) v in
    if bt && not (identifier % v.block_size == 0)
    then (throw SenseKey.illegal_request Asc.invalid_field_in_cdb, v)
    else if bt
    then (ok true, here identifier (identifier / v.block_size))
    else (ok true, here (identifier * v.block_size % 2 ^ 64) identifier)

-- `Locate` on a drive that is ready
unfoldable pub locate : Bool → Motion Bool
unfolding reset_positions locate_in_tar
locate locate_16 v =
    let identifier = if locate_16 then get_int64 v.cdb 4 else get_int32 v.cdb 3 in
    let bt = test_bit 2 (cdb_byte 1 v) in
    let rewound = reset_positions v in
    if test_bit 1 (cdb_byte 1 v)
    then (throw SenseKey.illegal_request Asc.invalid_field_in_cdb, v)
    else if v.tape.tar_file
    then locate_in_tar identifier bt v
    else if bt && not (identifier == 0)
    then (throw SenseKey.illegal_request Asc.invalid_field_in_cdb, v)
    else if identifier == 0
    then (ok true, rewound)
    else find_object (identifier % 2 ^ 32) rewound

-- The exception of the commands that locate an object before a transfer
unfoldable pub expect_located : Bool → Motion (Unit {0})
unfolding set_information
expect_located true v = (ok tt, v)
expect_located false v = (
  throw SenseKey.no_sense Asc.locate_operation_failure,
  set_device (set_information (get_int24 v.cdb 12)) v,
)

abbrev pub locate_now : Motion (Unit {0})
locate_now = locate true >>= expect_located

abbrev pub set_expl : Bool → Motion (Unit {0})
set_expl b = change (set_tape (λ t. record t { expl = b }))

unfoldable pub locate_ready : ℕ → Action Tapes (Unit {0})
locate_ready lun = State.◌>>◌ (check_ready lun) (on_drive lun locate_now)

-- `expl` is set; an explicit address is located first.
unfoldable pub locate_explicit : ℕ → Bool → Action Tapes (Unit {0})
locate_explicit lun false = on_drive lun (set_expl false)
locate_explicit lun true = State.◌>>◌ (on_drive lun (set_expl true)) (locate_ready lun)

-- What `CheckBlockLength` and `ReadData` do to the controller.
unfoldable pub apply_plan : ℕ → Plan → Action Tapes (Unit {0})
unfolding set_transfer_size set_current_length
apply_plan lun plan s =
    let size = (s.extra.storage lun).block_size in
    let checked =
      if plan.check_condition then set_controller_status StatusCode.check_condition s else s in
    let sized =
      set_current_length (pos size)
        (set_transfer_size (s.extra.unit lun).byte_count size checked) in
    (ok tt, if plan.resized then sized else checked)

-- The bytes that have been read, in the buffer.
unfoldable pub put_bytes : ℕ → List ℕ → Action Tapes ℕ
put_bytes n bytes s = (ok n, record s { buffer = write_at s.buffer 0 bytes })

unfoldable pub finish_data : ℕ → ℕ → Action Tapes ℕ
finish_data lun n = State.◌>>=◌ (on_drive lun (finish_read n)) (put_bytes n)

unfoldable pub transfer_plan : ℕ → Plan → Action Tapes ℕ
transfer_plan lun plan = State.◌>>◌ (apply_plan lun plan) (finish_data lun plan.length)

-- `ReadData`
unfoldable pub read_data : ℕ → Action Tapes ℕ
read_data lun s =
    State.◌>>=◌ (on_drive lun (is_at_record_boundary >>= begin_read s.chunk_size))
      (transfer_plan lun) s

-- `Read` from the byte count on
unfoldable pub start_read : ℕ → ℕ → Action Tapes (Unit {0})
unfolding update_tape set_transfer_size set_current_length
start_read lun n s =
    let size = (s.extra.storage lun).block_size in
    let counted = update_tape lun (λ t. record t { byte_count = n }) s in
    let started =
      update_tape lun (λ t. record t { blocks_read = 0; remaining_count = n; initial = true })
        counted in
    let sized = set_current_length (pos size) (set_transfer_size n size started) in
    if n == 0
    then status_phase counted
    else State.◌>>=◌ (read_data lun) (λ k. data_in_phase (pos k)) sized

-- FIXED and SILI together, and a partition, are refused.
abbrev pub refuses_read : Bool → Controller Tapes → Bool
refuses_read read_16 s =
    (test_bit 0 (get_cdb_byte 1 s) && test_bit 1 (get_cdb_byte 1 s))
    || (read_16 && not (get_cdb_byte 3 s == 0))

unfoldable pub check_cdb : (Controller Tapes → Bool) → Action Tapes (Unit {0})
check_cdb refuses s = raise_if (refuses s) SenseKey.illegal_request Asc.invalid_field_in_cdb s

unfoldable pub read_located : ℕ → Action Tapes (Unit {0})
read_located lun = State.◌>>=◌ (on_drive lun get_byte_count) (start_read lun)

unfoldable pub read_valid : ℕ → Bool → Action Tapes (Unit {0})
read_valid lun read_16 = State.◌>>◌ (locate_explicit lun read_16) (read_located lun)

unfoldable pub read_checked : ℕ → Bool → Action Tapes (Unit {0})
read_checked lun read_16 = State.◌>>◌ (check_cdb (refuses_read read_16)) (read_valid lun read_16)

-- `Read`
unfoldable pub read : ℕ → Bool → Action Tapes (Unit {0})
read lun read_16 = State.◌>>◌ (check_ready lun) (read_checked lun read_16)

-- `Write` from the byte count on
unfoldable pub start_write : ℕ → ℕ → Action Tapes (Unit {0})
unfolding update_tape set_transfer_size
start_write lun n s =
    let size = (s.extra.storage lun).block_size in
    let chunk = min n size in
    let counted = update_tape lun (λ t. record t { byte_count = n }) s in
    let started =
      update_tape lun
        (λ t. record t {
          remaining_count = n;
          record_length = if t.fixed then size else n;
          initial = true;
        })
        counted in
    if n == 0
    then status_phase counted
    else data_out_phase (pos chunk) (set_transfer_size n chunk started)

-- FCS, LCS and a partition are refused.
abbrev pub refuses_write : Bool → Controller Tapes → Bool
refuses_write write_16 s =
    write_16
    && (test_bit 2 (get_cdb_byte 1 s)
        || test_bit 3 (get_cdb_byte 1 s)
        || not (get_cdb_byte 3 s == 0))

unfoldable pub write_located : ℕ → Action Tapes (Unit {0})
write_located lun = State.◌>>=◌ (on_drive lun get_byte_count) (start_write lun)

unfoldable pub write_valid : ℕ → Bool → Action Tapes (Unit {0})
write_valid lun write_16 = State.◌>>◌ (locate_explicit lun write_16) (write_located lun)

unfoldable pub write_allowed : ℕ → Bool → Action Tapes (Unit {0})
write_allowed lun write_16 = State.◌>>◌ (check_write_preconditions lun) (write_valid lun write_16)

unfoldable pub write_checked : ℕ → Bool → Action Tapes (Unit {0})
write_checked lun write_16 =
    State.◌>>◌ (check_cdb (refuses_write write_16)) (write_allowed lun write_16)

-- `Write`
unfoldable pub write : ℕ → Bool → Action Tapes (Unit {0})
write lun write_16 = State.◌>>◌ (check_ready lun) (write_checked lun write_16)

-- `WriteData`
unfoldable pub write_data : ℕ → ℕ → Action Tapes ℕ
write_data lun chunk_size s =
    State.◌>>=◌ (on_drive lun (write_record_part s.buffer chunk_size)) (λ _ t. (ok chunk_size, t)) s
