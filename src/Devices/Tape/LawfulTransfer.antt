-- ===== src/Devices/Tape/LawfulTransfer.antt =====
-- `Read`, `Write`, `ReadData` and `WriteData` of cpp/devices/tape.cpp keep the agreement of lines and
-- phase.
use piscsi.Common.{ℕ, refl, Bool, true, false, if_intro, ◌==◌, pos, if◌then◌else◌}
use piscsi.Scsi.{StatusCode}
use piscsi.Controllers.State.{
  Controller, Action, update_device, set_current_length, set_transfer_size, get_cdb_byte,
  set_controller_status,
}
use piscsi.Controllers.State
use piscsi.Controllers.Device.{status_phase, data_in_phase}
use piscsi.Controllers.Laws.Lines.{IsConsistent, same_bus}
use piscsi.Controllers.Laws.Primary.{
  KeepsConsistent, Kept, keep, with_device-KeepsConsistent, ready_then-KeepsConsistent,
  >>=-KeepsConsistent, status_phase-KeepsConsistent, data_in_phase-KeepsConsistent,
  data_out_phase-KeepsConsistent,
}
use piscsi.Devices.StorageDevice.{check_write_preconditions}
use piscsi.Devices.StorageDevice.Laws.{check_write_preconditions-KeepsConsistent}
use piscsi.Devices.Tape.{Tape, Drive, Motion}
use piscsi.Devices.Tape.Finding.{get_byte_count}
use piscsi.Devices.Tape
use piscsi.Devices.Tape.Writing.{write_record_part, is_at_record_boundary}
use piscsi.Devices.Tape.Reading.{Plan, finish_read, begin_read}
use piscsi.Devices.Tape.Transfer.{
  Tapes, on_drive, update_tape, locate_explicit, apply_plan, finish_data, transfer_plan, read_data,
  start_read, read_located, check_cdb, read_checked, read, refuses_read, start_write, refuses_write,
  write_located, write_checked, write, write_data, set_expl, locate_now, locate_ready, put_bytes,
  read_valid, write_allowed, write_valid,
}
use piscsi.Devices.Tape.Commands.{then_status}

pub on_drive-KeepsConsistent :
    {A : Type 0} (lun : ℕ) (m : Motion A) → KeepsConsistent (on_drive lun m)
unfolding on_drive update_tape update_device
on_drive-KeepsConsistent lun m = with_device-KeepsConsistent lun _ λ d s c. same_bus c refl refl

pub check_cdb-KeepsConsistent :
    (refuses : Controller Tapes → Bool) → KeepsConsistent (check_cdb refuses)
unfolding check_cdb
check_cdb-KeepsConsistent refuses s c = c

pub then-KeepsConsistent :
    {B : Type 0} (m : Action Tapes (Unit {0})) (k : Action Tapes B)
    → KeepsConsistent m
    → KeepsConsistent k
    → KeepsConsistent (State.◌>>◌ m k)
then-KeepsConsistent m k h l = >>=-KeepsConsistent m (λ _. k) h (λ _. l)

pub on_drive_then-KeepsConsistent :
    {A B : Type 0} (lun : ℕ) (m : Motion A) (k : A → Action Tapes B)
    → ((a : A) → KeepsConsistent (k a))
    → KeepsConsistent (State.◌>>=◌ (on_drive lun m) k)
on_drive_then-KeepsConsistent lun m k l =
    >>=-KeepsConsistent (on_drive lun m) k (on_drive-KeepsConsistent lun m) l

pub then_status-KeepsConsistent :
    (lun : ℕ) (m : Motion (Unit {0})) → KeepsConsistent (then_status lun m)
then_status-KeepsConsistent lun m =
    on_drive_then-KeepsConsistent lun m (λ _. status_phase) (λ _. status_phase-KeepsConsistent)

locate_explicit-KeepsConsistent : (lun : ℕ) (b : Bool) → KeepsConsistent (locate_explicit lun b)
unfolding locate_explicit locate_ready
locate_explicit-KeepsConsistent lun false = on_drive-KeepsConsistent lun (set_expl false)
locate_explicit-KeepsConsistent lun true =
    then-KeepsConsistent (on_drive lun (set_expl true)) (locate_ready lun)
      (on_drive-KeepsConsistent lun (set_expl true))
      (ready_then-KeepsConsistent lun (on_drive lun locate_now)
        (on_drive-KeepsConsistent lun locate_now))

apply_plan-KeepsConsistent : (lun : ℕ) (plan : Plan) → KeepsConsistent (apply_plan lun plan)
unfolding apply_plan set_transfer_size set_current_length
apply_plan-KeepsConsistent lun plan s c =
    let checked =
      if plan.check_condition then set_controller_status StatusCode.check_condition s else s in
    let c1 : IsConsistent checked =
      if_intro IsConsistent plan.check_condition (same_bus c refl refl) c in
    if_intro IsConsistent plan.resized (same_bus c1 refl refl) c1

finish_data-KeepsConsistent : (lun n : ℕ) → KeepsConsistent (finish_data lun n)
unfolding finish_data put_bytes
finish_data-KeepsConsistent lun n =
    on_drive_then-KeepsConsistent lun (finish_read n) (put_bytes n)
      λ bytes s c. same_bus c refl refl

transfer_plan-KeepsConsistent : (lun : ℕ) (plan : Plan) → KeepsConsistent (transfer_plan lun plan)
unfolding transfer_plan
transfer_plan-KeepsConsistent lun plan =
    then-KeepsConsistent (apply_plan lun plan) (finish_data lun plan.length)
      (apply_plan-KeepsConsistent lun plan) (finish_data-KeepsConsistent lun plan.length)

pub read_data-KeepsConsistent : (lun : ℕ) → KeepsConsistent (read_data lun)
unfolding read_data
read_data-KeepsConsistent lun s c =
    on_drive_then-KeepsConsistent lun (Tape.◌>>=◌ is_at_record_boundary (begin_read s.chunk_size))
      (transfer_plan lun) (transfer_plan-KeepsConsistent lun) s c

pub write_data-KeepsConsistent : (lun n : ℕ) → KeepsConsistent (write_data lun n)
unfolding write_data
write_data-KeepsConsistent lun n s c =
    on_drive_then-KeepsConsistent lun (write_record_part s.buffer n) (λ _ t. (State.ok n, t))
      (λ _ t d. d) s c

start_read-KeepsConsistent : (lun n : ℕ) → KeepsConsistent (start_read lun n)
unfolding start_read update_tape set_transfer_size set_current_length
start_read-KeepsConsistent lun n s c =
    let answer =
      >>=-KeepsConsistent (read_data lun) (λ k. data_in_phase (pos k))
        (read_data-KeepsConsistent lun) (λ k. data_in_phase-KeepsConsistent (pos k)) in
    let all : Kept (start_read lun n s) =
      if_intro Kept (n == 0) (keep (status_phase-KeepsConsistent _ (same_bus c refl refl)))
        (keep (answer _ (same_bus c refl refl))) in
    all.kept

pub read-KeepsConsistent : (lun : ℕ) (b : Bool) → KeepsConsistent (read lun b)
unfolding read read_checked read_valid read_located
read-KeepsConsistent lun b = ready_then-KeepsConsistent lun (read_checked lun b) (
    then-KeepsConsistent (check_cdb (refuses_read b)) (read_valid lun b)
      (check_cdb-KeepsConsistent (refuses_read b))
      (then-KeepsConsistent (locate_explicit lun b) (read_located lun)
        (locate_explicit-KeepsConsistent lun b)
        (on_drive_then-KeepsConsistent lun get_byte_count (start_read lun)
          (start_read-KeepsConsistent lun))))

start_write-KeepsConsistent : (lun n : ℕ) → KeepsConsistent (start_write lun n)
unfolding start_write update_tape set_transfer_size
start_write-KeepsConsistent lun n s c =
    let all : Kept (start_write lun n s) =
      if_intro Kept (n == 0) (keep (status_phase-KeepsConsistent _ (same_bus c refl refl)))
        (keep (data_out_phase-KeepsConsistent _ _ (same_bus c refl refl))) in
    all.kept

pub write-KeepsConsistent : (lun : ℕ) (b : Bool) → KeepsConsistent (write lun b)
unfolding write write_checked write_allowed write_valid write_located
write-KeepsConsistent lun b = ready_then-KeepsConsistent lun (write_checked lun b) (
    then-KeepsConsistent (check_cdb (refuses_write b)) (write_allowed lun b)
      (check_cdb-KeepsConsistent (refuses_write b))
      (then-KeepsConsistent (check_write_preconditions lun) (write_valid lun b)
        (check_write_preconditions-KeepsConsistent lun)
        (then-KeepsConsistent (locate_explicit lun b) (write_located lun)
          (locate_explicit-KeepsConsistent lun b)
          (on_drive_then-KeepsConsistent lun get_byte_count (start_write lun)
            (start_write-KeepsConsistent lun)))))
