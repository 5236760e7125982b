-- ===== src/Controllers/Phases.antt =====
-- The bus phases of cpp/controllers/controller.cpp that do not run a command: entering a phase,
-- `Error`, `BusFree`, `Send` and `Status`.
--
-- The source's functions call one another in a circle. Here what follows `Send` in the DATA IN and
-- MESSAGE IN phases is an argument, and a call whose branch the phase decides is a call of that
-- branch; the comments say where.
use piscsi.Common.{
  ℕ, true, false, ◌&&◌, ◌||◌, not, [], if◌then◌else◌, ◌==◌, pos, negsuc, pos_part, eq_ℤ, length,
  drop, take,
}
use piscsi.Scsi.{
  BusPhase, StatusCode, SenseKey, Asc, MessageCode, status_code, sense_code, asc_code, message_code,
}
use piscsi.Buses.Bus.Handshake.{send_hand_shake}
use piscsi.Buses.Lines.{Pin}
use piscsi.Base.PrimaryDevice
use piscsi.Controllers.State.{
  Controller, is_bus_free, is_selection, is_status, is_data_in, is_msg_in, get_line, set_line,
  acquire_bus, set_phase_lines, set_current_length, set_transfer_size, update_transfer_length,
  update_offset_and_length, reset_offset, set_controller_status, set_buffer_byte, get_effective_lun,
  update_device, has_device,
}

module _ {X : Type 0} where
  abbrev set_phase : BusPhase → Controller X → Controller X
  set_phase p s = record s { phase = p }

  -- `Selection` outside the SELECTION phase
  unfoldable pub enter_selection : Controller X → Controller X
  enter_selection s = set_line Pin.bsy true (set_phase BusPhase.selection s)

  -- `BusFree` outside the BUS FREE phase
  unfoldable pub leave_bus : Controller X → Controller X
  leave_bus s =
      let s1 = set_line Pin.req false (set_phase BusPhase.bus_free s) in
      let s2 = set_line Pin.bsy false (set_phase_lines false false false s1) in
      record s2 { status = StatusCode.good; identified_lun = negsuc 0; atn_msg = false }

  -- `BusFree`. `Selection` is called in the BUS FREE phase, so it enters the SELECTION phase.
  unfoldable pub bus_free : Controller X → Controller X
  bus_free s =
      if not (is_bus_free s.phase)
      then leave_bus s
      else if get_line Pin.sel s && not (get_line Pin.bsy s)
      then enter_selection s
      else s

  -- `Status` outside the STATUS phase
  unfoldable pub enter_status : Controller X → Controller X
  unfolding set_current_length set_transfer_size
  enter_status s =
      let s1 = set_phase_lines false true true (set_phase BusPhase.status s) in
      let s2 = set_transfer_size 1 1 (set_current_length (pos 1) (reset_offset s1)) in
      let byte =
        if s.linked && status_code s.status == status_code StatusCode.good
        then status_code StatusCode.intermediate
        else status_code s.status in
      set_buffer_byte 0 byte s2

  -- `MsgIn` outside the MESSAGE IN phase
  unfoldable pub enter_msg_in : Controller X → Controller X
  enter_msg_in s = reset_offset (set_phase_lines true true true (set_phase BusPhase.msg_in s))

  -- `MsgOut` outside the MESSAGE OUT phase
  unfoldable pub enter_msg_out : Controller X → Controller X
  unfolding set_current_length set_transfer_size
  enter_msg_out s =
      let s1 = if is_selection s.phase then record s { atn_msg = true; msg_bytes = [] } else s in
      let s2 = set_phase_lines true true false (set_phase BusPhase.msg_out s1) in
      set_transfer_size 1 1 (set_current_length (pos 1) (reset_offset s2))

  -- `Error`. Where it calls `Status` the phase is not STATUS.
  unfoldable pub error : SenseKey → Asc → StatusCode → Controller X → Controller X
  unfolding get_effective_lun update_device
  error sense_key asc status s0 =
      let s = acquire_bus s0 in
      let effective_lun = get_effective_lun s in
      let unsupported = asc_code asc == asc_code Asc.logical_unit_not_supported in
      let lun = if unsupported || not (has_device effective_lun s) then 0 else effective_lun in
      let signalled =
        if sense_code sense_key == 0 && asc_code asc == 0
        then s
        else update_device lun (PrimaryDevice.set_status sense_key asc) s in
      if get_line Pin.rst s || is_status s.phase || is_msg_in s.phase
      then bus_free s
      else enter_status (set_controller_status status signalled)

  -- The message byte after the status byte, at the end of the STATUS phase.
  abbrev message_byte : Controller X → ℕ
  message_byte s =
      if s.linked
      then (if s.flag
          then message_code MessageCode.linked_command_complete_with_flag
          else message_code MessageCode.linked_command_complete)
      else message_code MessageCode.command_complete

  -- `Send` after the last byte: the switch on the phase.
  unfoldable pub end_of_send :
      BusPhase → (Controller X → Controller X) → Controller X → Controller X
  unfolding set_current_length set_transfer_size
  end_of_send BusPhase.msg_in end_of_message s = end_of_message s
  end_of_send BusPhase.data_in end_of_message s = enter_status s
  end_of_send BusPhase.status end_of_message s =
      let s1 = set_transfer_size 1 1 (set_current_length (pos 1) s) in
      enter_msg_in (set_buffer_byte 0 (message_byte s1) s1)
  end_of_send _ end_of_message s = s

  -- `Send` with bytes left in the buffer.
  unfoldable pub send_bytes : Controller X → Controller X
  unfolding update_offset_and_length
  send_bytes s =
      let n = pos_part s.current_length in
      let (sent, bus') = send_hand_shake (take n (drop s.offset s.buffer)) s.bus in
      let s1 = record s { bus = bus' } in
      if eq_ℤ (pos (length sent)) s.current_length
      then update_offset_and_length s1
      else error SenseKey.aborted_command Asc.data_phase_error StatusCode.check_condition
          (set_line Pin.rst true s1)

  -- `Send`
  unfoldable pub send :
      (Controller X → Controller X) → (Controller X → Controller X) → Controller X → Controller X
  unfolding update_transfer_length
  send transfer_to_host end_of_message s =
      let s1 = update_transfer_length s.chunk_size s in
      if not (eq_ℤ s.current_length (pos 0))
      then send_bytes s
      else if s1.remaining_length == 0
      then end_of_send s1.phase end_of_message s1
      else if is_data_in s1.phase
      then transfer_to_host s1
      else s1

  -- `Status`. In the STATUS phase `Send` calls neither of its arguments.
  unfoldable pub status : Controller X → Controller X
  status s = if is_status s.phase then send (λ t. t) (λ t. t) s else enter_status s

  -- `DataIn` and `DataOut` from the change of the phase on
  unfoldable pub start_data_in : Controller X → Controller X
  start_data_in s = reset_offset (set_phase_lines false false true (set_phase BusPhase.data_in s))

  unfoldable pub start_data_out : Controller X → Controller X
  start_data_out s =
      reset_offset (set_phase_lines false false false (set_phase BusPhase.data_out s))

  -- `DataIn` outside the DATA IN phase
  unfoldable pub enter_data_in : Controller X → Controller X
  enter_data_in s = if eq_ℤ s.current_length (pos 0) then status s else start_data_in s

  -- `DataOut` outside the DATA OUT phase
  unfoldable pub enter_data_out : Controller X → Controller X
  unfolding set_current_length
  enter_data_out s =
      if eq_ℤ s.current_length (pos 0)
      then status s
      else if eq_ℤ s.current_length (negsuc 0)
      then start_data_out (set_current_length (pos 0) s)
      else start_data_out s

  -- `RaiseDeferredError`
  unfoldable pub raise_deferred_error : SenseKey → Asc → Controller X → Controller X
  raise_deferred_error k a s =
      error k a StatusCode.check_condition (record s { deferred_sense_key = k; deferred_asc = a })
