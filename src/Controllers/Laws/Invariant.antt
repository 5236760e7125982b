-- ===== src/Controllers/Laws/Invariant.antt =====
-- The agreement of lines and phase through a whole step of the controller.
use piscsi.Common.{ℕ, Bool, false, not, ◌&&◌, ◌||◌, refl, if_intro, arith, pos_part, ◌==◌}
use piscsi.Scsi.{BusPhase, StatusCode, SenseKey, Asc, mode_select_6, mode_select_10}
use piscsi.Buses.Bus.Laws.{receive_hand_shake-Releases}
use piscsi.Controllers.State.{
  Controller, Outcome, ok, throw, set_current_length, set_transfer_size, update_transfer_length,
  update_offset_and_length, reset_flags, get_effective_lun, opcode,
}
use piscsi.Controllers.Command.{Handlers}
use piscsi.Controllers.Transfer.{
  parse_message, xfer_msg, process_message, process_end_of_message, transfer_to_host,
  transfer_from_host, receive_bytes, with_length, is_generic, end_of_receive, continue_receive,
  receive_chunk, receive, send_phase,
}
use piscsi.Controllers.Process.{leave_selection, process_phase, process}
use piscsi.Controllers.Laws.Lines.{
  IsConsistent, same_bus, acquire_bus-IsConsistent, reset-IsConsistent, bus_free-IsConsistent,
  enter_msg_out-IsConsistent, error-IsConsistent, moved-IsConsistent, set_rst-IsConsistent,
  send-IsConsistent, status-IsConsistent,
}
use piscsi.Controllers.Laws.Lawful.{
  IsLawful, after_read_data-IsConsistent, after_write_data-IsConsistent,
  parse_messages-IsConsistent, command-IsConsistent,
}

module _ {X : Type 0} (h : Handlers X) (law : IsLawful h) where
  process_message-IsConsistent :
      (s : Controller X) → IsConsistent s → IsConsistent (process_message h s)
  unfolding process_message parse_message set_current_length set_transfer_size
  process_message-IsConsistent s c = if_intro IsConsistent _ (same_bus c refl refl) (
      command-IsConsistent h law _ (
        if_intro IsConsistent s.atn_msg
          (parse_messages-IsConsistent false s.msg_bytes (record s { atn_msg = false })
            (same_bus c refl refl))
          c))

  process_end_of_message-IsConsistent :
      (s : Controller X) → IsConsistent s → IsConsistent (process_end_of_message h s)
  unfolding process_end_of_message reset_flags
  process_end_of_message-IsConsistent s c =
      if_intro IsConsistent _ (command-IsConsistent h law _ (same_bus c refl refl))
        (bus_free-IsConsistent s c)

  transfer_to_host-IsConsistent :
      (s : Controller X) → IsConsistent s → IsConsistent (transfer_to_host h s)
  unfolding transfer_to_host
  transfer_to_host-IsConsistent s c = after_read_data-IsConsistent _ (law.read_data _ s c)

  pub send_phase-IsConsistent : (s : Controller X) → IsConsistent s → IsConsistent (send_phase h s)
  unfolding send_phase
  send_phase-IsConsistent s c =
      send-IsConsistent _ _ s transfer_to_host-IsConsistent process_end_of_message-IsConsistent c

  with_length-IsConsistent :
      (n : ℕ) (r : Outcome (Unit {0}) × Controller X)
      → IsConsistent r.1
      → IsConsistent (with_length n r).1
  with_length-IsConsistent n (ok _, s) c = c
  with_length-IsConsistent n (throw k a, s) c = c

  transfer_from_host-IsConsistent :
      (n : ℕ) (s : Controller X) → IsConsistent s → IsConsistent (transfer_from_host h n s).1
  unfolding transfer_from_host
  transfer_from_host-IsConsistent n s c =
      if_intro (λ (r : Bool × Controller X). IsConsistent r.1)
        ((opcode s == mode_select_6 || opcode s == mode_select_10)
          && not (is_generic (get_effective_lun s) s))
        (after_write_data-IsConsistent _ (with_length-IsConsistent n _ (law.mode_select _ _ s c)))
        (after_write_data-IsConsistent _ (law.write_data _ _ _ s c))

  end_of_receive-IsConsistent :
      (p : BusPhase) (s : Controller X) → IsConsistent s → IsConsistent (end_of_receive h p s)
  unfolding end_of_receive
  end_of_receive-IsConsistent BusPhase.data_out s c = status-IsConsistent s c
  end_of_receive-IsConsistent BusPhase.msg_out s c = process_message-IsConsistent s c
  end_of_receive-IsConsistent _ s c = c

  continue_receive-IsConsistent :
      (s : Controller X) → IsConsistent s → IsConsistent (continue_receive h s)
  unfolding continue_receive
  continue_receive-IsConsistent s c = if_intro IsConsistent _ (end_of_receive-IsConsistent _ s c) c

  receive_bytes-IsConsistent : (s : Controller X) → IsConsistent s → IsConsistent (receive_bytes s)
  unfolding receive_bytes update_offset_and_length
  receive_bytes-IsConsistent s c =
      let shaken = receive_hand_shake-Releases (pos_part s.current_length) s.bus c.target c.req in
      let c1 = moved-IsConsistent s _ c shaken in
      if_intro IsConsistent _ (same_bus c1 refl refl)
        (error-IsConsistent _ _ _ _ (set_rst-IsConsistent _ (same_bus c1 refl refl)))

  receive_chunk-IsConsistent :
      (p : BusPhase) (n : ℕ) (s : Controller X)
      → IsConsistent s
      → IsConsistent (receive_chunk h p n s)
  unfolding receive_chunk update_transfer_length xfer_msg
  receive_chunk-IsConsistent BusPhase.data_out n s c =
      let c1 = transfer_from_host-IsConsistent n s c in
      if_intro IsConsistent _ (continue_receive-IsConsistent _ c1) c1
  receive_chunk-IsConsistent BusPhase.msg_out n s c =
      let c1 : IsConsistent (update_transfer_length n s) = same_bus c refl refl in
      continue_receive-IsConsistent _ (if_intro IsConsistent s.atn_msg (same_bus c1 refl refl) c1)
  receive_chunk-IsConsistent _ n s c = continue_receive-IsConsistent s c

  pub receive-IsConsistent : (s : Controller X) → IsConsistent s → IsConsistent (receive h s)
  unfolding receive
  receive-IsConsistent s c =
      if_intro IsConsistent _ (receive_chunk-IsConsistent _ _ s c) (receive_bytes-IsConsistent s c)

  leave_selection-IsConsistent :
      (s : Controller X) → IsConsistent s → IsConsistent (leave_selection h s)
  unfolding leave_selection
  leave_selection-IsConsistent s c =
      if_intro IsConsistent _
        (if_intro IsConsistent _ (enter_msg_out-IsConsistent s c) (command-IsConsistent h law s c))
        c

  process_phase-IsConsistent :
      (p : BusPhase) (s : Controller X) → IsConsistent s → IsConsistent (process_phase h p s).1
  unfolding process_phase
  process_phase-IsConsistent BusPhase.bus_free s c = bus_free-IsConsistent s c
  process_phase-IsConsistent BusPhase.selection s c = leave_selection-IsConsistent s c
  process_phase-IsConsistent BusPhase.command s c = command-IsConsistent h law s c
  process_phase-IsConsistent BusPhase.data_in s c = send_phase-IsConsistent s c
  process_phase-IsConsistent BusPhase.data_out s c = receive-IsConsistent s c
  process_phase-IsConsistent BusPhase.status s c = send_phase-IsConsistent s c
  process_phase-IsConsistent BusPhase.msg_in s c = send_phase-IsConsistent s c
  process_phase-IsConsistent BusPhase.msg_out s c = receive-IsConsistent s c
  process_phase-IsConsistent _ s c = c

  -- A step of the controller keeps the agreement of its phase with the lines that it drives, if the
  -- devices do, whatever the initiator has scheduled, with resets and time-outs.
  pub process-IsConsistent : (s : Controller X) → IsConsistent s → IsConsistent (process h s).1
  unfolding process
  process-IsConsistent s0 c0 =
      let c = acquire_bus-IsConsistent s0 c0 in
      let c1 = process_phase-IsConsistent s0.phase _ c in
      ground (
        arith,
        reset-IsConsistent _ c,
        c1,
        error-IsConsistent SenseKey.aborted_command Asc.internal_target_failure
            StatusCode.check_condition _ c1,
      )
