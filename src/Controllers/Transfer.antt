-- ===== src/Controllers/Transfer.antt =====
-- The data and message phases of cpp/controllers/controller.cpp: `Send`, `Receive`, and what
-- follows when all bytes have been transferred.
use piscsi.Common.{
  ℕ, Bool, true, false, ◌&&◌, ◌||◌, not, none, some, List, [], ◌∷◌, ◌++◌, if◌then◌else◌, ◌==◌, ltb,
  leb, pos, pos_part, eq_ℤ, get_or, write_at, ◌%◌, ◌^◌,
}
use piscsi.Scsi.{
  BusPhase, StatusCode, SenseKey, Asc, MessageCode, message_code, mode_select_6, mode_select_10,
}
use piscsi.Buses.Bus.Handshake.{receive_hand_shake}
use piscsi.Buses.Lines.{Pin}
use piscsi.Base.Device.{PbDeviceType}
use piscsi.Base.PrimaryDevice.{PrimaryDevice}
use piscsi.Base.PrimaryDevice
use piscsi.Controllers.State.{
  Controller, Outcome, ok, throw, get_line, set_line, set_current_length, set_transfer_size,
  update_transfer_length, update_offset_and_length, reset_offset, set_buffer_byte, opcode,
  get_effective_lun, update_device, reset_flags,
}
use piscsi.Controllers.Phases.{error, status, bus_free, enter_msg_in, send}
use piscsi.Controllers.Command.{Handlers, command}

-- `BUS DEVICE RESET`
unfoldable pub reset_device : PrimaryDevice → PrimaryDevice
reset_device d =
    PrimaryDevice.discard_reservation (record d { device = record (d.device) { reset = true } })

module _ {X : Type 0} where
  -- The rejection of an extended message. `MsgIn` is called in the MESSAGE OUT phase.
  unfoldable pub reject_message : Controller X → Controller X
  unfolding set_current_length set_transfer_size
  reject_message s =
      enter_msg_in (set_buffer_byte 0 0x07 (set_transfer_size 1 1 (set_current_length (pos 1) s)))

  -- The loop of `ParseMessage` over the message bytes, and whether a message was extended.
  unfoldable pub parse_messages : Bool → List ℕ → Controller X → Controller X
  unfolding get_effective_lun update_device
  parse_messages extended [] s = s
  parse_messages true (m ∷ ms) s = reject_message s
  parse_messages false (m ∷ ms) s =
      let identified = record s { identified_lun = pos (m % 2 ^ 5) } in
      let rest = parse_messages (m == 0x01) ms (if leb 0x80 m then identified else s) in
      if m == message_code MessageCode.abort
      then bus_free s
      else if m == message_code MessageCode.bus_device_reset
      then bus_free (update_device (get_effective_lun s) reset_device s)
      else rest

  -- `ParseMessage`
  unfoldable pub parse_message : Controller X → Controller X
  parse_message s = parse_messages false s.msg_bytes s

  -- `XferMsg`
  unfoldable pub xfer_msg : Controller X → Controller X
  xfer_msg s =
      if s.atn_msg then record s { msg_bytes = s.msg_bytes ++ get_or s.buffer 0 0 ∷ [] } else s

  -- The rest of `TransferToHost` after `ReadData`
  unfoldable pub after_read_data : Outcome ℕ × Controller X → Controller X
  unfolding set_current_length
  after_read_data (ok _, s) =
      let next = if ltb s.remaining_length s.chunk_size then s.remaining_length else s.chunk_size in
      if s.remaining_length == 0 then s else reset_offset (set_current_length (pos next) s)
  after_read_data (throw k a, s) = error k a StatusCode.check_condition s

  -- The rest of `TransferFromHost` after the device has taken the data
  unfoldable pub after_write_data : Outcome ℕ × Controller X → Bool × Controller X
  unfolding update_transfer_length set_current_length
  after_write_data (ok transferred, s) =
      let s1 = update_transfer_length transferred s in
      (true, reset_offset (set_current_length (pos s1.chunk_size) s1))
  after_write_data (throw k a, s) = (false, error k a StatusCode.check_condition s)

  -- `device->GetType() != SCSG`
  abbrev pub is_generic : ℕ → Controller X → Bool
  is_generic lun s = elim (s.luns lun) [
    | none ↦ false
    | some d ↦ elim d.device.type [ PbDeviceType.scsg ↦ true | _ ↦ false ]
  ]

  -- The result of `ModeSelect` with the length that the source sets beforehand
  abbrev pub with_length : ℕ → Outcome (Unit {0}) × Controller X → Outcome ℕ × Controller X
  with_length n (ok _, s) = (ok n, s)
  with_length n (throw k a, s) = (throw k a, s)

  -- `Receive` with bytes missing in the buffer
  unfoldable pub receive_bytes : Controller X → Controller X
  unfolding update_offset_and_length
  receive_bytes s =
      let (count, bytes, bus') = receive_hand_shake (pos_part s.current_length) s.bus in
      let s1 = record s { bus = bus'; buffer = write_at s.buffer s.offset bytes } in
      if eq_ℤ (pos count) s.current_length
      then update_offset_and_length s1
      else error SenseKey.aborted_command Asc.data_phase_error StatusCode.check_condition
          (set_line Pin.rst true s1)

module _ {X : Type 0} (h : Handlers X) where
  -- `ProcessMessage`
  unfoldable pub process_message : Controller X → Controller X
  unfolding set_current_length set_transfer_size
  process_message s =
      let parsed = if s.atn_msg then parse_message (record s { atn_msg = false }) else s in
      if get_line Pin.atn s
      then set_transfer_size 1 1 (set_current_length (pos 1) (reset_offset s))
      else command h parsed

  -- `ProcessEndOfMessage`
  unfoldable pub process_end_of_message : Controller X → Controller X
  unfolding reset_flags
  process_end_of_message s = if s.atn_msg || s.linked then command h (reset_flags s) else bus_free s

  -- `TransferToHost`
  unfoldable pub transfer_to_host : Controller X → Controller X
  unfolding get_effective_lun
  transfer_to_host s = after_read_data (h.read_data (get_effective_lun s) s)

  -- `TransferFromHost`
  unfoldable pub transfer_from_host : ℕ → Controller X → Bool × Controller X
  unfolding get_effective_lun
  transfer_from_host n s =
      let lun = get_effective_lun s in
      if (opcode s == mode_select_6 || opcode s == mode_select_10) && not (is_generic lun s)
      then after_write_data (with_length n (h.mode_select lun s.offset s))
      else after_write_data (h.write_data lun s.offset n s)

  -- `Receive` when all has been transferred: the second switch on the phase.
  unfoldable pub end_of_receive : BusPhase → Controller X → Controller X
  end_of_receive BusPhase.data_out s = status s
  end_of_receive BusPhase.msg_out s = process_message s
  end_of_receive _ s = s

  unfoldable pub continue_receive : Controller X → Controller X
  continue_receive s = if s.remaining_length == 0 then end_of_receive s.phase s else s

  -- `Receive` after a chunk of `n` bytes: the first switch on the phase.
  unfoldable pub receive_chunk : BusPhase → ℕ → Controller X → Controller X
  unfolding update_transfer_length
  receive_chunk BusPhase.data_out n s =
      let (taken, s1) = transfer_from_host n s in if taken then continue_receive s1 else s1
  receive_chunk BusPhase.msg_out n s = continue_receive (xfer_msg (update_transfer_length n s))
  receive_chunk _ n s = continue_receive s

  -- `Receive`
  unfoldable pub receive : Controller X → Controller X
  receive s =
      let n = if ltb s.chunk_size s.remaining_length then s.chunk_size else s.remaining_length in
      if eq_ℤ s.current_length (pos 0) then receive_chunk s.phase n s else receive_bytes s

  -- `Send`, in all phases.
  unfoldable pub send_phase : Controller X → Controller X
  send_phase s = send transfer_to_host process_end_of_message s
