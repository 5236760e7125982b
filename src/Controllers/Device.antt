-- ===== src/Controllers/Device.antt =====
-- The command handlers of cpp/base/primary_device.cpp that all devices share. They run in the
-- COMMAND phase of the controller, on the device of one LUN.
use piscsi.Common.{
  ℕ, ◌+◌, Bool, true, false, ◌&&◌, ◌||◌, not, Option, none, some, List, if◌then◌else◌, ◌==◌,
  test_bit, min, ℤ, pos, eq_ℤ, length, take, set, zero, suc, ◌^◌, ◌%◌, replicate, write_at,
}
use piscsi.Scsi.{
  StatusCode, SenseKey, Asc, level_code, sense_code, inquiry, request_sense,
  release_release_element_6, prevent_allow_medium_removal, test_unit_ready, report_luns,
  reserve_reserve_element_6, send_diagnostic,
}
use piscsi.Shared.MemoryUtil.{get_int16, get_int32, set_int16}
use piscsi.Base.PrimaryDevice.{PrimaryDevice, not_reserved}
use piscsi.Base.PrimaryDevice
use piscsi.Base.PrimaryDevice.Sense.{sense_data}
use piscsi.Controllers.State.{
  Controller, ok, throw, Action, ◌>>=◌, ◌>>◌, raise, raise_if, run, get_cdb_byte, opcode,
  set_current_length, copy_to_buffer, set_buffer_byte, get_effective_lun, update_device, has_device,
}
use piscsi.Controllers.Phases.{error, status, enter_data_in, enter_data_out}

module _ {X : Type 0} where
  -- `StatusPhase`, `DataInPhase` and `DataOutPhase`
  unfoldable pub status_phase : Action X (Unit {0})
  status_phase = run status

  unfoldable pub data_in_phase : ℤ → Action X (Unit {0})
  unfolding set_current_length
  data_in_phase n = run (λ s. enter_data_in (set_current_length n s))

  unfoldable pub data_out_phase : ℤ → Action X (Unit {0})
  unfolding set_current_length
  data_out_phase n = run (λ s. enter_data_out (set_current_length n s))

  -- A read of the device's state; a device is there for every call.
  abbrev pub with_device : {A : Type 0} → ℕ → (PrimaryDevice → Action X A) → Action X A
  with_device lun f s = elim (s.luns lun) [
    | none ↦ (throw SenseKey.illegal_request Asc.logical_unit_not_supported, s)
    | some d ↦ f d s
  ]

  -- The commands that `CheckReservation` lets pass although the device is reserved.
  abbrev pub is_exempt : Controller X → Bool
  is_exempt s =
      opcode s == inquiry
      || opcode s == request_sense
      || opcode s == release_release_element_6
      || (opcode s == prevent_allow_medium_removal && not (test_bit 0 (get_cdb_byte 4 s)))

  -- `CheckReservation`
  unfoldable pub check_reservation : PrimaryDevice → Controller X → Bool × Controller X
  check_reservation d s =
      if eq_ℤ d.reserving_initiator not_reserved || eq_ℤ d.reserving_initiator s.initiator_id
      then (true, s)
      else if is_exempt s
      then (true, s)
      else (
        false,
        error SenseKey.illegal_request Asc.no_additional_sense_information
            StatusCode.reservation_conflict s,
      )

  -- `CheckReady`: the two conditions are reported once.
  unfoldable pub check_ready : ℕ → Action X (Unit {0})
  unfolding update_device
  check_ready lun = with_device lun λ d s.
      if d.device.reset
      then (
        throw SenseKey.unit_attention Asc.power_on_or_reset,
        update_device lun (λ e. record e { device = record (e.device) { reset = false } }) s,
      )
      else if d.device.attn
      then (
        throw SenseKey.unit_attention Asc.not_ready_to_ready_change,
        update_device lun (λ e. record e { device = record (e.device) { attn = false } }) s,
      )
      else if not d.device.ready
      then (throw SenseKey.not_ready Asc.medium_not_present, s)
      else (ok tt, s)

  -- `HandleRequestSense`
  unfoldable pub handle_request_sense : ℕ → Action X (List ℕ)
  handle_request_sense lun = with_device lun λ d s.
      if sense_code d.sense_key == 0 && not d.device.ready
      then (throw SenseKey.not_ready Asc.medium_not_present, s)
      else (ok (sense_data (get_cdb_byte 4 s) d), s)

  -- The reply of `RequestSense` by the device `d` that was addressed, on the sense data `buf`.
  unfoldable pub reply_sense : ℕ → List ℕ → PrimaryDevice → Action X (Unit {0})
  unfolding copy_to_buffer update_device
  reply_sense lun buf d s =
      let requested =
        if get_cdb_byte 4 s == 0 && level_code d.level == 1 then 4 else get_cdb_byte 4 s in
      let n = min (length buf) requested in
      let s1 = copy_to_buffer (take n buf) s in
      data_in_phase (pos n) (update_device lun PrimaryDevice.reset_status s1)

  -- The report of `RequestSense` for the device `source`, by the device `lun` that was addressed.
  unfoldable pub report_sense : ℕ → ℕ → Action X (Unit {0})
  report_sense lun source = do
    buf ← handle_request_sense source
    with_device lun (reply_sense lun buf)

  -- `RequestSense`
  unfoldable pub request_sense_command : ℕ → Action X (Unit {0})
  unfolding get_effective_lun
  request_sense_command lun s =
      let effective_lun = get_effective_lun s in
      let signalled =
        error SenseKey.illegal_request Asc.logical_unit_not_supported StatusCode.good s in
      if test_bit 0 (get_cdb_byte 1 s)
      then (throw SenseKey.illegal_request Asc.invalid_field_in_cdb, s)
      else if has_device effective_lun s
      then report_sense lun effective_lun s
      else report_sense lun 0 signalled

  -- `Inquiry`, on the data of `InquiryInternal` of the derived class.
  unfoldable pub inquiry_command : List ℕ → Action X (Unit {0})
  unfolding copy_to_buffer get_effective_lun
  inquiry_command buf s =
      let n = min (length buf) (get_int16 s.cdb 3) in
      let s1 = copy_to_buffer (take n buf) s in
      let s2 = if has_device (get_effective_lun s1) s1 then s1 else set_buffer_byte 0 0x7f s1 in
      if not (get_cdb_byte 1 s % 2 ^ 5 == 0) || not (get_cdb_byte 2 s == 0)
      then (throw SenseKey.illegal_request Asc.invalid_field_in_cdb, s)
      else data_in_phase (pos n) s2

  -- The loop of `ReportLuns` over the LUNs from `lun` on: the buffer and the size of the list.
  unfoldable pub list_luns : ℕ → ℕ → ℕ → Controller X → List ℕ → ℕ × List ℕ
  list_luns zero lun size s buf = (size, buf)
  list_luns (suc n) lun size s buf =
      let known = has_device lun s in
      let size' = if known then size + 8 else size in
      list_luns n (lun + 1) size' s (if known then set buf (size' + 7) lun else buf)

  -- `ReportLuns`
  unfoldable pub report_luns_command : Action X (Unit {0})
  unfolding set_int16
  report_luns_command s =
      let allocation_length = get_int32 s.cdb 6 in
      let cleared = write_at s.buffer 0 (replicate (min (length s.buffer) allocation_length) 0) in
      let (size, buf) = list_luns 32 0 0 s cleared in
      let s1 = record s { buffer = set_int16 buf 2 size } in
      if not (get_cdb_byte 2 s == 0)
      then (throw SenseKey.illegal_request Asc.invalid_field_in_cdb, s)
      else data_in_phase (pos (min allocation_length (size + 8))) s1

  -- `SendDiagnostic`
  unfoldable pub send_diagnostic_command : Action X (Unit {0})
  send_diagnostic_command = do
    raise_if' (λ s. not (get_cdb_byte 3 s == 0) || not (get_cdb_byte 4 s == 0))
    status_phase
    where
      raise_if' : (Controller X → Bool) → Action X (Unit {0})
      raise_if' c s = raise_if (c s) SenseKey.illegal_request Asc.invalid_field_in_cdb s

  -- `RESERVE(6)` and `RELEASE(6)`
  unfoldable pub reserve_command : ℕ → Action X (Unit {0})
  unfolding update_device
  reserve_command lun s =
      let reserve = λ (d : PrimaryDevice). record d { reserving_initiator = s.initiator_id } in
      status_phase (update_device lun reserve s)

  unfoldable pub release_command : ℕ → Action X (Unit {0})
  unfolding update_device
  release_command lun s = status_phase (update_device lun PrimaryDevice.discard_reservation s)

  -- `commands` as `PrimaryDevice::Init` fills it, for the data of `InquiryInternal`.
  unfoldable pub primary_commands : (Controller X → List ℕ) → ℕ → ℕ → Option (Action X (Unit {0}))
  primary_commands inquiry_data lun cmd =
      if cmd == test_unit_ready
      then some (check_ready lun >> status_phase)
      else if cmd == inquiry
      then some (λ s. inquiry_command (inquiry_data s) s)
      else if cmd == report_luns
      then some report_luns_command
      else if cmd == request_sense
      then some (request_sense_command lun)
      else if cmd == reserve_reserve_element_6
      then some (reserve_command lun)
      else if cmd == release_release_element_6
      then some (release_command lun)
      else if cmd == send_diagnostic
      then some send_diagnostic_command
      else none

  -- `PrimaryDevice::Dispatch`, on the array `commands` of a device.
  unfoldable pub dispatch : (ℕ → Option (Action X (Unit {0}))) → ℕ → Action X (Unit {0})
  dispatch commands cmd = elim (commands cmd) [
    | none ↦ raise SenseKey.illegal_request Asc.invalid_command_operation_code
    | some command ↦ command
  ]

  -- `PrimaryDevice::ReadData` and `PrimaryDevice::ModeSelect`, for the devices without their own.
  unfoldable pub default_read_data : Action X ℕ
  default_read_data s = (ok 0, s)

  unfoldable pub default_mode_select : Action X (Unit {0})
  default_mode_select = raise SenseKey.illegal_request Asc.invalid_field_in_cdb
