-- ===== src/Controllers/Laws/Primary.antt =====
-- The commands that all devices share (cpp/base/primary_device.cpp) keep the law that the controller
-- expects of a device.
use piscsi.Common.{
  ℕ, refl, not, ◌||◌, Option, none, some, if◌then◌else◌, if_intro, arith, ℤ, List, length, min,
  take, ◌==◌, test_bit, ◌%◌, ◌^◌,
}
use piscsi.Scsi.{
  SenseKey, Asc, StatusCode, test_unit_ready, inquiry, report_luns, request_sense,
  reserve_reserve_element_6, release_release_element_6, send_diagnostic,
}
use piscsi.Shared.MemoryUtil.{get_int16}
use piscsi.Base.PrimaryDevice.{PrimaryDevice}
use piscsi.Controllers.State.{
  Controller, Action, Outcome, ok, throw, ◌>>=◌, ◌>>◌, raise, set_current_length, copy_to_buffer,
  update_device, get_effective_lun, has_device, get_cdb_byte,
}
use piscsi.Controllers.Phases.{error}
use piscsi.Controllers.Device.{
  status_phase, data_in_phase, data_out_phase, with_device, check_ready, handle_request_sense,
  reply_sense, report_sense, request_sense_command, inquiry_command, report_luns_command,
  send_diagnostic_command, reserve_command, release_command, primary_commands, dispatch,
}
use piscsi.Controllers.Laws.Lines.{
  IsConsistent, same_bus, status-IsConsistent, enter_data_in-IsConsistent,
  enter_data_out-IsConsistent, error-IsConsistent,
}

module _ {X : Type 0} where
  -- A call keeps the agreement of lines and phase, whatever it returns.
  abbrev pub KeepsConsistent : {A : Type 0} → Action X A → Type 0
  KeepsConsistent m = (s : Controller X) → IsConsistent s → IsConsistent (m s).1

  abbrev pub Result : {A : Type 0} → Outcome A × Controller X → Type 0
  Result r = IsConsistent r.1

  -- The same as a family, for calls with nested conditions.
  pub record Kept {A : Type 0} (r : Outcome A × Controller X) : Type 0 where
    pub kept : IsConsistent r.1

  pub keep : {A : Type 0} {r : Outcome A × Controller X} → Result r → Kept r
  keep c = record { kept = c }

  pub with_device-KeepsConsistent :
      {A : Type 0} (lun : ℕ) (f : PrimaryDevice → Action X A)
      → ((d : PrimaryDevice) → KeepsConsistent (f d))
      → KeepsConsistent (with_device lun f)
  with_device-KeepsConsistent {A} lun f k s c = on_device (s.luns lun)
    where
      on_device :
          (o : Option PrimaryDevice)
          → Result {A = A} (elim o [
            | none ↦ (throw SenseKey.illegal_request Asc.logical_unit_not_supported, s)
            | some d ↦ f d s
          ])
      on_device none = c
      on_device (some d) = k d s c

  pub >>=-KeepsConsistent :
      {A B : Type 0} (m : Action X A) (f : A → Action X B)
      → KeepsConsistent m
      → ((a : A) → KeepsConsistent (f a))
      → KeepsConsistent (m >>= f)
  >>=-KeepsConsistent {A} {B} m f k l s c = after (m s) (k s c)
    where
      after :
          (r : Outcome A × Controller X)
          → Result r
          → Result {A = B} (elim (r.0) [ ok a ↦ f a (r.1) | throw e a ↦ (throw e a, r.1) ])
      after (ok a, t) d = l a t d
      after (throw e a, t) d = d

  pub check_ready-KeepsConsistent : (lun : ℕ) → KeepsConsistent (check_ready lun)
  unfolding check_ready update_device
  check_ready-KeepsConsistent lun = with_device-KeepsConsistent lun _ λ d s c. ground (arith, c)

  pub status_phase-KeepsConsistent : KeepsConsistent status_phase
  unfolding status_phase
  status_phase-KeepsConsistent s c = status-IsConsistent s c

  pub data_in_phase-KeepsConsistent : (n : ℤ) → KeepsConsistent (data_in_phase n)
  unfolding data_in_phase set_current_length
  data_in_phase-KeepsConsistent n s c = enter_data_in-IsConsistent _ (same_bus c refl refl)

  pub ready_then-KeepsConsistent :
      {B : Type 0} (lun : ℕ) (k : Action X B)
      → KeepsConsistent k
      → KeepsConsistent (check_ready lun >> k)
  ready_then-KeepsConsistent lun k h =
      >>=-KeepsConsistent (check_ready lun) (λ _. k) (check_ready-KeepsConsistent lun) (λ _. h)

  pub data_out_phase-KeepsConsistent : (n : ℤ) → KeepsConsistent (data_out_phase n)
  unfolding data_out_phase set_current_length
  data_out_phase-KeepsConsistent n s c = enter_data_out-IsConsistent _ (same_bus c refl refl)

  handle_request_sense-KeepsConsistent : (lun : ℕ) → KeepsConsistent (handle_request_sense lun)
  unfolding handle_request_sense
  handle_request_sense-KeepsConsistent lun =
      with_device-KeepsConsistent lun _ λ d s c. if_intro Result _ c c

  reply_sense-KeepsConsistent :
      (lun : ℕ) (buf : List ℕ) (d : PrimaryDevice) → KeepsConsistent (reply_sense lun buf d)
  unfolding reply_sense copy_to_buffer update_device set_current_length
  reply_sense-KeepsConsistent lun buf d s c =
      data_in_phase-KeepsConsistent _ _ (same_bus c refl refl)

  report_sense-KeepsConsistent : (lun source : ℕ) → KeepsConsistent (report_sense lun source)
  unfolding report_sense
  report_sense-KeepsConsistent lun source =
      >>=-KeepsConsistent (handle_request_sense source)
        (λ buf. with_device lun (reply_sense lun buf)) (handle_request_sense-KeepsConsistent source)
        λ buf.
          with_device-KeepsConsistent lun (reply_sense lun buf)
            (reply_sense-KeepsConsistent lun buf)

  request_sense_command-KeepsConsistent : (lun : ℕ) → KeepsConsistent (request_sense_command lun)
  unfolding request_sense_command
  request_sense_command-KeepsConsistent lun s c =
      let k = SenseKey.illegal_request in
      let signalled = error k Asc.logical_unit_not_supported StatusCode.good s in
      let known = report_sense lun (get_effective_lun s) s in
      let unknown = report_sense lun 0 signalled in
      let present = has_device (get_effective_lun s) s in
      if_intro (Result {A = Unit {0}}) (test_bit 0 (get_cdb_byte 1 s))
        {x = (throw k Asc.invalid_field_in_cdb, s)} {y = if present then known else unknown} c
        (if_intro (Result {A = Unit {0}}) present {x = known} {y = unknown}
          (report_sense-KeepsConsistent lun _ s c)
          (report_sense-KeepsConsistent lun 0 signalled (error-IsConsistent _ _ _ s c)))

  inquiry_command-KeepsConsistent : (buf : List ℕ) → KeepsConsistent (inquiry_command buf)
  unfolding inquiry_command copy_to_buffer set_current_length
  inquiry_command-KeepsConsistent buf s c =
      let s1 = copy_to_buffer (take (min (length buf) (get_int16 s.cdb 3)) buf) s in
      if_intro Result (not (get_cdb_byte 1 s % 2 ^ 5 == 0) || not (get_cdb_byte 2 s == 0)) c (
        data_in_phase-KeepsConsistent _ _ (
          if_intro IsConsistent (has_device (get_effective_lun s1) s1) {x = s1}
            (same_bus c refl refl) (same_bus c refl refl)))

  report_luns_command-KeepsConsistent : KeepsConsistent report_luns_command
  unfolding report_luns_command
  report_luns_command-KeepsConsistent s c =
      if_intro Result (not (get_cdb_byte 2 s == 0)) c
        (data_in_phase-KeepsConsistent _ _ (same_bus c refl refl))

  send_diagnostic_command-KeepsConsistent : KeepsConsistent send_diagnostic_command
  unfolding send_diagnostic_command
  send_diagnostic_command-KeepsConsistent =
      >>=-KeepsConsistent _ _ (λ s c. c) λ _. status_phase-KeepsConsistent

  reserve_command-KeepsConsistent : (lun : ℕ) → KeepsConsistent (reserve_command lun)
  unfolding reserve_command update_device
  reserve_command-KeepsConsistent lun s c = status_phase-KeepsConsistent _ (same_bus c refl refl)

  release_command-KeepsConsistent : (lun : ℕ) → KeepsConsistent (release_command lun)
  unfolding release_command update_device
  release_command-KeepsConsistent lun s c = status_phase-KeepsConsistent _ (same_bus c refl refl)

  -- A function of the command array, where there is one.
  abbrev pub Entry : Option (Action X (Unit {0})) → Type 0
  Entry none = Unit {0}
  Entry (some m) = KeepsConsistent m

  Entry-Result :
      (o : Option (Action X (Unit {0}))) (s : Controller X)
      → IsConsistent s
      → Entry o
      → Result {A = Unit {0}} (
          (elim o as (λ _. Action X (Unit {0})) [
            | none ↦ raise SenseKey.illegal_request Asc.invalid_command_operation_code
            | some m ↦ m
          ])
            s)
  Entry-Result none s c k = c
  Entry-Result (some m) s c k = k s c

  pub primary_commands-Entry :
      (inquiry_data : Controller X → List ℕ) (lun cmd : ℕ)
      → Entry (primary_commands inquiry_data lun cmd)
  unfolding primary_commands
  primary_commands-Entry inquiry_data lun cmd =
      if_intro Entry (cmd == test_unit_ready)
        (>>=-KeepsConsistent (check_ready lun) (λ _. status_phase) (check_ready-KeepsConsistent lun)
          λ _. status_phase-KeepsConsistent)
        (if_intro Entry (cmd == inquiry)
          (λ s c. inquiry_command-KeepsConsistent (inquiry_data s) s c)
          (if_intro Entry (cmd == report_luns) report_luns_command-KeepsConsistent (
            if_intro Entry (cmd == request_sense) (request_sense_command-KeepsConsistent lun) (
              if_intro Entry (cmd == reserve_reserve_element_6)
                (reserve_command-KeepsConsistent lun)
                (if_intro Entry (cmd == release_release_element_6)
                  (release_command-KeepsConsistent lun)
                  (if_intro Entry (cmd == send_diagnostic) send_diagnostic_command-KeepsConsistent
                    tt))))))

  -- The dispatch on an array whose functions keep the agreement.
  pub dispatch-KeepsConsistent :
      (commands : ℕ → Option (Action X (Unit {0}))) (cmd : ℕ)
      → Entry (commands cmd)
      → KeepsConsistent (dispatch commands cmd)
  unfolding dispatch
  dispatch-KeepsConsistent commands cmd k s c = Entry-Result (commands cmd) s c k

  -- Every command that `PrimaryDevice` implements, and the rejection of the others, keep the
  -- agreement of lines and phase.
  pub dispatch-primary_commands-IsConsistent :
      (inquiry_data : Controller X → List ℕ) (lun cmd : ℕ) (s : Controller X)
      → IsConsistent s
      → IsConsistent (dispatch (primary_commands inquiry_data lun) cmd s).1
  unfolding dispatch
  dispatch-primary_commands-IsConsistent inquiry_data lun cmd s c =
      Entry-Result (primary_commands inquiry_data lun cmd) s c
        (primary_commands-Entry inquiry_data lun cmd)
