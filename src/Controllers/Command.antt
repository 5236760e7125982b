-- ===== src/Controllers/Command.antt =====
-- The COMMAND phase of cpp/controllers/controller.cpp: receiving a CDB and executing it.
use piscsi.Common.{
  ℕ, ◌-◌, true, false, ◌&&◌, ◌||◌, not, Option, none, some, if◌then◌else◌, ◌==◌, test_bit, ℤ, pos,
  negsuc, get_or, set, take, write_at, replicate,
}
use piscsi.Scsi.{BusPhase, StatusCode, SenseKey, Asc, sense_code, asc_code, inquiry, request_sense}
use piscsi.Shared.CommandMetaData.{get_byte_count}
use piscsi.Buses.Bus.Handshake.{command_hand_shake}
use piscsi.Buses.Lines.{Pin}
use piscsi.Base.PrimaryDevice.{PrimaryDevice}
use piscsi.Base.PrimaryDevice
use piscsi.Controllers.State.{
  Controller, Outcome, ok, throw, Action, is_command, set_line, set_phase_lines, set_current_length,
  set_transfer_size, reset_offset, set_controller_status, get_cdb_byte, opcode, get_effective_lun,
  update_device, has_device,
}
use piscsi.Controllers.Phases.{error, enter_data_in, raise_deferred_error}
use piscsi.Controllers.Device.{check_reservation}

-- The virtual functions of the devices that the controller calls, by LUN. `write_data` and
-- `mode_select` are given the offset and the length from the buffer that the source passes.
pub record Handlers (X : Type 0) : Type 0 where
  pub dispatch : ℕ → ℕ → Action X (Unit {0})
  pub read_data : ℕ → Action X ℕ
  pub write_data : ℕ → ℕ → ℕ → Action X ℕ
  pub mode_select : ℕ → ℕ → Action X (Unit {0})

module _ {X : Type 0} where
  -- `catch (const ScsiException &e) { Error(e.get_sense_key(), e.get_asc()); }`
  unfoldable pub catch_error : Outcome (Unit {0}) × Controller X → Controller X
  catch_error (ok _, s) = s
  catch_error (throw k a, s) = error k a StatusCode.check_condition s

  -- `ProvideSenseData`. `DataIn` is called in the COMMAND phase.
  unfoldable pub provide_sense_data : Controller X → Controller X
  unfolding set_current_length
  provide_sense_data s =
      let s1 = set_current_length (pos 18) s in
      let b0 = set (write_at s1.buffer 0 (replicate 18 0)) 0 0x70 in
      let b2 = set b0 2 (sense_code s.deferred_sense_key) in
      let b12 = set (set b2 7 10) 12 (asc_code s.deferred_asc) in
      enter_data_in (record s1 {
        buffer = b12;
        deferred_sense_key = SenseKey.no_sense;
        deferred_asc = Asc.no_additional_sense_information;
      })

module _ {X : Type 0} (h : Handlers X) where
  -- `Execute` from `CheckReservation` on; a device is there.
  unfoldable pub dispatch_on : Option PrimaryDevice → ℕ → Controller X → Controller X
  dispatch_on none lun s = s
  dispatch_on (some d) lun s =
      let (allowed, s') = check_reservation d s in
      if allowed then catch_error (h.dispatch lun (opcode s) s') else s'

  -- `Execute` on the device of a LUN
  unfoldable pub execute_on : ℕ → Controller X → Controller X
  unfolding update_device
  execute_on lun s =
      let s1 =
        update_device lun PrimaryDevice.reset_status (set_controller_status StatusCode.good s) in
      if opcode s == request_sense
      then dispatch_on (s.luns lun) lun s
      else dispatch_on (s1.luns lun) lun s1

  -- `Execute`
  unfoldable pub execute : Controller X → Controller X
  unfolding set_current_length set_transfer_size get_effective_lun
  execute s0 =
      let s = set_transfer_size 0 0 (reset_offset (set_current_length (pos 0) s0)) in
      let lun = get_effective_lun s in
      if has_device lun s
      then execute_on lun s
      else if opcode s == inquiry || opcode s == request_sense
      then execute_on 0 s
      else error SenseKey.illegal_request Asc.logical_unit_not_supported StatusCode.check_condition
          s

  -- `Command` once the control byte has been evaluated
  unfoldable pub run_command : Controller X → Controller X
  run_command s =
      if not (sense_code s.deferred_sense_key == 0) && opcode s == request_sense
      then provide_sense_data s
      else execute (record s {
        deferred_sense_key = SenseKey.no_sense;
        deferred_asc = Asc.no_additional_sense_information;
      })

  -- `Command` after a hand-shake of `actual_count` bytes
  unfoldable pub accept_cdb : ℕ → Controller X → Controller X
  accept_cdb actual_count s =
      let count = get_byte_count (get_or s.buffer 0 0) in
      let s1 = record s { cdb = write_at s.cdb 0 (take count s.buffer) } in
      let control = get_cdb_byte (count - 1) s1 in
      let s2 = record s1 { linked = test_bit 0 control; flag = test_bit 1 control } in
      if not (actual_count == count)
      then raise_deferred_error SenseKey.aborted_command Asc.command_phase_error
          (set_line Pin.rst true s1)
      else if s2.flag && not s2.linked
      then raise_deferred_error SenseKey.illegal_request Asc.invalid_field_in_cdb s2
      else run_command s2

  -- `Command` by the result of the hand-shake
  unfoldable pub after_command_hand_shake : ℤ → Controller X → Controller X
  after_command_hand_shake (pos count) s =
      if count == 0
      then raise_deferred_error SenseKey.illegal_request Asc.invalid_command_operation_code s
      else accept_cdb count s
  after_command_hand_shake (negsuc _) s =
      raise_deferred_error SenseKey.aborted_command Asc.command_phase_error
        (set_line Pin.rst true s)

  -- `Command`
  unfoldable pub command : Controller X → Controller X
  command s =
      let s1 = set_phase_lines false true false (record s { phase = BusPhase.command }) in
      let (count, buf, bus') = command_hand_shake s1.buffer s1.bus in
      if is_command s.phase
      then s
      else after_command_hand_shake count (record s1 { buffer = buf; bus = bus' })
