-- ===== src/Controllers/Laws/Lawful.antt =====
-- The agreement of lines and phase in the parts of a step of the controller, up to the COMMAND
-- phase: the devices are known only by the law that their functions keep it.
use piscsi.Common.{
  ℕ, ◌%◌, ◌^◌, Bool, true, false, not, ◌&&◌, refl, List, [], ◌∷◌, if_intro, arith, ℤ, pos, negsuc,
  get_or, write_at, take, test_bit, ◌-◌, none, some, Option, ◌==◌, leb,
}
use piscsi.Scsi.{BusPhase, StatusCode, SenseKey, Asc}
use piscsi.Shared.CommandMetaData.{get_byte_count}
use piscsi.Buses.Bus.Laws.{command_hand_shake-Releases}
use piscsi.Base.PrimaryDevice.{PrimaryDevice}
use piscsi.Controllers.State.{
  Controller, Outcome, ok, throw, set_phase_lines, set_current_length, set_transfer_size,
  update_transfer_length, update_device, get_effective_lun, reset_offset, get_cdb_byte,
}
use piscsi.Controllers.Device.{check_reservation}
use piscsi.Controllers.Command.{
  Handlers, catch_error, provide_sense_data, dispatch_on, execute_on, execute, run_command,
  accept_cdb, after_command_hand_shake, command,
}
use piscsi.Controllers.Transfer.{
  reject_message, reset_device, parse_messages, after_read_data, after_write_data,
}
use piscsi.Controllers.Laws.Lines.{
  IsConsistent, same_bus, bus_free-IsConsistent, enter_msg_in-IsConsistent, error-IsConsistent,
  moved-IsConsistent, set_rst-IsConsistent, enter_data_in-IsConsistent,
  raise_deferred_error-IsConsistent,
}

-- The law of the devices' functions, also where they throw.
pub record IsLawful {X : Type 0} (h : Handlers X) : Type 0 where
  pub dispatch :
      (lun cmd : ℕ) (s : Controller X) → IsConsistent s → IsConsistent (h.dispatch lun cmd s).1
  pub read_data : (lun : ℕ) (s : Controller X) → IsConsistent s → IsConsistent (h.read_data lun s).1
  pub write_data :
      (lun offset n : ℕ) (s : Controller X)
      → IsConsistent s
      → IsConsistent (h.write_data lun offset n s).1
  pub mode_select :
      (lun n : ℕ) (s : Controller X) → IsConsistent s → IsConsistent (h.mode_select lun n s).1

module _ {X : Type 0} where
  pub catch_error-IsConsistent :
      (r : Outcome (Unit {0}) × Controller X) → IsConsistent r.1 → IsConsistent (catch_error r)
  unfolding catch_error
  catch_error-IsConsistent (ok _, s) c = c
  catch_error-IsConsistent (throw k a, s) c = error-IsConsistent k a _ s c

  pub check_reservation-IsConsistent :
      (d : PrimaryDevice) (s : Controller X)
      → IsConsistent s
      → IsConsistent (check_reservation d s).1
  unfolding check_reservation
  check_reservation-IsConsistent d s c = ground (
    arith,
    error-IsConsistent SenseKey.illegal_request Asc.no_additional_sense_information
        StatusCode.reservation_conflict s c,
  )

  pub after_read_data-IsConsistent :
      (r : Outcome ℕ × Controller X) → IsConsistent r.1 → IsConsistent (after_read_data r)
  unfolding after_read_data set_current_length
  after_read_data-IsConsistent (ok _, s) c = if_intro IsConsistent _ c (same_bus c refl refl)
  after_read_data-IsConsistent (throw k a, s) c = error-IsConsistent k a _ s c

  pub after_write_data-IsConsistent :
      (r : Outcome ℕ × Controller X) → IsConsistent r.1 → IsConsistent (after_write_data r).1
  unfolding after_write_data update_transfer_length set_current_length
  after_write_data-IsConsistent (ok _, s) c = same_bus c refl refl
  after_write_data-IsConsistent (throw k a, s) c = error-IsConsistent k a _ s c

  pub reject_message-IsConsistent :
      (s : Controller X) → IsConsistent s → IsConsistent (reject_message s)
  unfolding reject_message set_current_length set_transfer_size
  reject_message-IsConsistent s c = enter_msg_in-IsConsistent _ (same_bus c refl refl)

  pub parse_messages-IsConsistent :
      (e : Bool) (ms : List ℕ) (s : Controller X)
      → IsConsistent s
      → IsConsistent (parse_messages e ms s)
  unfolding parse_messages update_device
  parse_messages-IsConsistent e [] s c = c
  parse_messages-IsConsistent true (m ∷ ms) s c = reject_message-IsConsistent s c
  parse_messages-IsConsistent false (m ∷ ms) s c =
      let reset = update_device (get_effective_lun s) reset_device s in
      let identified = record s { identified_lun = pos (m % 2 ^ 5) } in
      if_intro IsConsistent (m == 0x06) (bus_free-IsConsistent s c) (
        if_intro IsConsistent (m == 0x0c) (bus_free-IsConsistent reset (same_bus c refl refl)) (
          parse_messages-IsConsistent (m == 0x01) ms _
            (if_intro IsConsistent (leb 0x80 m) {x = identified} (same_bus c refl refl) c)))

module _ {X : Type 0} (h : Handlers X) (law : IsLawful h) where
  pub dispatch_on-IsConsistent :
      (o : Option PrimaryDevice) (lun : ℕ) (s : Controller X)
      → IsConsistent s
      → IsConsistent (dispatch_on h o lun s)
  unfolding dispatch_on
  dispatch_on-IsConsistent none lun s c = c
  dispatch_on-IsConsistent (some d) lun s c =
      let c' = check_reservation-IsConsistent d s c in
      if_intro IsConsistent _ (catch_error-IsConsistent _ (law.dispatch lun _ _ c')) c'

  pub execute_on-IsConsistent :
      (lun : ℕ) (s : Controller X) → IsConsistent s → IsConsistent (execute_on h lun s)
  unfolding execute_on update_device
  execute_on-IsConsistent lun s c =
      if_intro IsConsistent _ (dispatch_on-IsConsistent _ lun s c)
        (dispatch_on-IsConsistent _ lun _ (same_bus c refl refl))

  pub execute-IsConsistent : (s : Controller X) → IsConsistent s → IsConsistent (execute h s)
  unfolding execute set_current_length set_transfer_size
  execute-IsConsistent s0 c0 =
      let s = set_transfer_size 0 0 (reset_offset (set_current_length (pos 0) s0)) in
      let c : IsConsistent s = same_bus c0 refl refl in
      if_intro IsConsistent _ (execute_on-IsConsistent _ s c)
        (if_intro IsConsistent _ (execute_on-IsConsistent 0 s c) (error-IsConsistent _ _ _ s c))

  pub run_command-IsConsistent :
      (s : Controller X) → IsConsistent s → IsConsistent (run_command h s)
  unfolding run_command provide_sense_data set_current_length
  run_command-IsConsistent s c =
      if_intro IsConsistent _ (enter_data_in-IsConsistent _ (same_bus c refl refl))
        (execute-IsConsistent _ (same_bus c refl refl))

  pub accept_cdb-IsConsistent :
      (n : ℕ) (s : Controller X) → IsConsistent s → IsConsistent (accept_cdb h n s)
  unfolding accept_cdb
  accept_cdb-IsConsistent n s c =
      let count = get_byte_count (get_or s.buffer 0 0) in
      let s1 = record s { cdb = write_at s.cdb 0 (take count s.buffer) } in
      let control = get_cdb_byte (count - 1) s1 in
      let s2 = record s1 { linked = test_bit 0 control; flag = test_bit 1 control } in
      let c1 : IsConsistent s1 = same_bus c refl refl in
      let c2 : IsConsistent s2 = same_bus c refl refl in
      if_intro IsConsistent (not (n == count))
        (raise_deferred_error-IsConsistent SenseKey.aborted_command Asc.command_phase_error _
          (set_rst-IsConsistent s1 c1))
        (if_intro IsConsistent (s2.flag && not s2.linked)
          (raise_deferred_error-IsConsistent SenseKey.illegal_request Asc.invalid_field_in_cdb s2
            c2)
          (run_command-IsConsistent s2 c2))

  pub after_command_hand_shake-IsConsistent :
      (n : ℤ) (s : Controller X) → IsConsistent s → IsConsistent (after_command_hand_shake h n s)
  unfolding after_command_hand_shake
  after_command_hand_shake-IsConsistent (pos n) s c =
      if_intro IsConsistent _ (raise_deferred_error-IsConsistent _ _ s c)
        (accept_cdb-IsConsistent n s c)
  after_command_hand_shake-IsConsistent (negsuc n) s c =
      raise_deferred_error-IsConsistent _ _ _ (set_rst-IsConsistent s c)

  pub command-IsConsistent : (s : Controller X) → IsConsistent s → IsConsistent (command h s)
  unfolding command
  command-IsConsistent s c =
      let s1 = set_phase_lines false true false (record s { phase = BusPhase.command }) in
      let c1 : IsConsistent s1 = ground arith in
      let shaken = command_hand_shake-Releases s1.buffer s1.bus in
      let c2 = moved-IsConsistent s1 _ c1 shaken in
      if_intro IsConsistent _ c (after_command_hand_shake-IsConsistent _ _ (same_bus c2 refl refl))
