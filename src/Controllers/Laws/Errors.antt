-- ===== src/Controllers/Laws/Errors.antt =====
-- How the controller reports errors: cpp/controllers/controller.cpp, `Error` and `Execute`.
use piscsi.Common.{
  if_false, if_true, ℕ, ◌≡◌, ◌≢◌, ap, ◌∙◌, refl, Bool, true, false, not, ◌&&◌, ◌||◌, some,
  if◌then◌else◌, arith, pos, get_or, length, List, [], ◌∷◌, ◌++◌, replicate, get_or-set_self, eq_ℤ,
  ◌-◌, ◌<◌, ◌==◌, ◌%◌, ◌^◌,
}
use piscsi.Scsi.{
  BusPhase, StatusCode, SenseKey, Asc, sense_code, asc_code, status_code, request_sense,
}
use piscsi.Buses.Lines.{Pin}
use piscsi.Base.PrimaryDevice.{PrimaryDevice, not_reserved}
use piscsi.Base.PrimaryDevice
use piscsi.Base.PrimaryDevice.Sense.{sense_data}
use piscsi.Base.PrimaryDevice.SenseLaws.{sense_data-codes}
use piscsi.Controllers.State.{
  Controller, Outcome, ok, get_cdb_byte, is_status, is_msg_in, get_line, acquire_bus,
  set_current_length, set_transfer_size, get_effective_lun, update_device, has_device, opcode,
  reset_offset, set_controller_status,
}
use piscsi.Controllers.Phases.{bus_free, enter_status, error}
use piscsi.Controllers.Device.{check_reservation, is_exempt, handle_request_sense}
use piscsi.Controllers.Command.{Handlers, catch_error, dispatch_on, execute_on, execute}

-- The buffer has room for the status byte.
status_room : (xs : List ℕ) → 0 < length (xs ++ replicate (1 - length xs) 0)
status_room [] = omega arith
status_room (x ∷ xs) = omega arith

module _ {X : Type 0} where
  -- The byte that is sent in the STATUS phase: only GOOD changes, to INTERMEDIATE in a chain of
  -- linked commands.
  pub enter_status-byte :
      (s : Controller X)
      → get_or (enter_status s).buffer 0 0
        ≡ (if s.linked && status_code s.status == 0 then 0x10 else status_code s.status)
  unfolding enter_status set_current_length set_transfer_size
  enter_status-byte s =
      get_or-set_self (s.buffer ++ replicate (1 - length s.buffer) 0) 0 _ 0 (status_room s.buffer)

  enter_status-keeps :
      (s : Controller X)
      → ((enter_status s).phase ≡ BusPhase.status)
        × ((enter_status s).luns ≡ s.luns)
        × ((enter_status s).extra ≡ s.extra)
  unfolding enter_status set_current_length set_transfer_size
  enter_status-keeps s = (refl, refl, refl)

  acquire_bus-lun : (s : Controller X) → get_effective_lun (acquire_bus s) ≡ get_effective_lun s
  unfolding get_effective_lun
  acquire_bus-lun s = refl

  -- The conditions of `Error` by name.
  error-branches :
      (k : SenseKey) (a : Asc) (c : StatusCode) (s0 : Controller X)
      → error k a c s0 ≡ (
          let s = acquire_bus s0 in
          let lun = get_effective_lun s in
          if get_line Pin.rst s || is_status s.phase || is_msg_in s.phase
          then bus_free s
          else enter_status (
              set_controller_status c (
                if sense_code k == 0 && asc_code a == 0
                then s
                else update_device
                    (if asc_code a == asc_code Asc.logical_unit_not_supported
                        || not (has_device lun s)
                      then 0
                      else lun)
                    (PrimaryDevice.set_status k a)
                    s)))
  unfolding error
  error-branches k a c s0 = refl

  update_device_extra :
      (lun : ℕ) (f : PrimaryDevice → PrimaryDevice) (s : Controller X)
      → (update_device lun f s).extra ≡ s.extra
  unfolding update_device
  update_device_extra lun f s = refl

  update_device_self :
      (lun : ℕ) (f : PrimaryDevice → PrimaryDevice) (s : Controller X) (d : PrimaryDevice)
      → s.luns lun ≡ some d
      → (update_device lun f s).luns lun ≡ some (f d)
  unfolding update_device
  update_device_self lun f s d e = ground (arith, e)

  -- An error outside the STATUS and MESSAGE IN phases, without a reset, that is about the device of
  -- the addressed LUN: the STATUS phase, with the status byte of the error also if commands are
  -- linked, and the sense key and code in that device.
  error-status :
      (k : SenseKey) (a : Asc) (c : StatusCode) (s : Controller X) (d : PrimaryDevice)
      → get_line Pin.rst (acquire_bus s) ≡ false
      → (is_status s.phase || is_msg_in s.phase) ≡ false
      → s.luns (get_effective_lun s) ≡ some d
      → asc_code a ≢ asc_code Asc.logical_unit_not_supported
      → sense_code k ≢ 0
      → status_code c ≢ 0
      → ((error k a c s).phase ≡ BusPhase.status)
        × (get_or (error k a c s).buffer 0 0 ≡ status_code c)
        × ((error k a c s).luns (get_effective_lun s) ≡ some (PrimaryDevice.set_status k a d))
        × ((error k a c s).extra ≡ s.extra)
  error-status k a c s0 d r p l e n g =
      let s = acquire_bus s0 in
      let lun = get_effective_lun s0 in
      let at : get_effective_lun s ≡ lun = acquire_bus-lun s0 in
      let c1 : (get_line Pin.rst s || is_status s.phase || is_msg_in s.phase) ≡ false =
        ground arith in
      let c2 : (sense_code k == 0 && asc_code a == 0) ≡ false = ground arith in
      let c3 : (asc_code a == asc_code Asc.logical_unit_not_supported
            || not (has_device (get_effective_lun s) s))
          ≡ false =
        ground arith in
      let f = PrimaryDevice.set_status k a in
      let t = set_controller_status c (update_device lun f s) in
      let signal = if_false _ _ c2 ∙ ap (λ n. update_device n f s) (if_false _ _ c3 ∙ at) in
      let enter = ap (λ u. enter_status (set_controller_status c u)) signal in
      let branch : error k a c s0 ≡ enter_status t =
        error-branches k a c s0 ∙ if_false _ _ c1 ∙ enter in
      let keeps = enter_status-keeps t in
      let kept : (t.linked && status_code c == 0) ≡ false = ground arith in
      (
        ap (λ u. u.phase) branch ∙ keeps.0,
        ap (λ u. get_or u.buffer 0 0) branch ∙ enter_status-byte t ∙ if_false _ _ kept,
        ap (λ u. u.luns lun) branch ∙ ap (λ m. m lun) keeps.1 ∙ update_device_self lun f s d l,
        ap (λ u. u.extra) branch ∙ keeps.2 ∙ update_device_extra lun f s,
      )

  -- The LUN in whose device `Error` keeps the sense data.
  abbrev pub sense_lun : Asc → Controller X → ℕ
  sense_lun a s =
      if asc_code a == asc_code Asc.logical_unit_not_supported
        || not (has_device (get_effective_lun s) s)
      then 0
      else get_effective_lun s

  -- What REQUEST SENSE reports of a LUN.
  pub record Reports (k : SenseKey) (a : Asc) (r : Outcome (List ℕ) × Controller X) : Type 0 where
    pub bytes : List ℕ
    pub result : r.0 ≡ ok bytes
    pub key : get_or bytes 2 0 % 2 ^ 4 ≡ sense_code k
    pub code : get_or bytes 12 0 ≡ asc_code a

  handle_request_sense-Reports :
      (k : SenseKey) (a : Asc) (lun : ℕ) (s : Controller X) (d : PrimaryDevice)
      → s.luns lun ≡ some (PrimaryDevice.set_status k a d)
      → sense_code k ≢ 0
      → Reports k a (handle_request_sense lun s)
  unfolding handle_request_sense PrimaryDevice.set_status
  handle_request_sense-Reports k a lun s d e n =
      let u = PrimaryDevice.set_status k a d in
      let bytes = sense_data (get_cdb_byte 4 s) u in
      let (key, code) = sense_data-codes (get_cdb_byte 4 s) u in
      record { bytes = bytes; result = ground (arith, e, n); key = key; code = code }

  -- `Error` outside the STATUS and MESSAGE IN phases and without a reset, with a sense key: the STATUS
  -- phase with the status byte, which for GOOD is INTERMEDIATE if commands are linked, and REQUEST SENSE
  -- reports the key and the code. This is the device of the addressed LUN, or that of LUN 0 if there is
  -- none or the code says that the LUN is not supported.
  pub error-sense :
      (k : SenseKey) (a : Asc) (c : StatusCode) (s : Controller X) (d : PrimaryDevice)
      → get_line Pin.rst (acquire_bus s) ≡ false
      → (is_status s.phase || is_msg_in s.phase) ≡ false
      → s.luns (sense_lun a s) ≡ some d
      → sense_code k ≢ 0
      → ((error k a c s).phase ≡ BusPhase.status)
        × (get_or (error k a c s).buffer 0 0
            ≡ (if s.linked && status_code c == 0 then 0x10 else status_code c))
        × Reports k a (handle_request_sense (sense_lun a s) (error k a c s))
  unfolding update_device get_effective_lun
  error-sense k a c s0 d r p l e =
      let s = acquire_bus s0 in
      let lun = sense_lun a s0 in
      let at : get_effective_lun s ≡ get_effective_lun s0 = acquire_bus-lun s0 in
      let c1 : (get_line Pin.rst s || is_status s.phase || is_msg_in s.phase) ≡ false =
        ground arith in
      let c2 : (sense_code k == 0 && asc_code a == 0) ≡ false = ground arith in
      let f = PrimaryDevice.set_status k a in
      let t = set_controller_status c (update_device lun f s) in
      let enter = ap (λ u. enter_status (set_controller_status c u)) (if_false _ _ c2) in
      let branch : error k a c s0 ≡ enter_status t =
        error-branches k a c s0 ∙ if_false _ _ c1 ∙ enter in
      let keeps = enter_status-keeps t in
      let kept : (error k a c s0).luns lun ≡ some (f d) =
        ap (λ u. u.luns lun) branch ∙ ap (λ m. m lun) keeps.1 ∙ update_device_self lun f s d l in
      (
        ap (λ u. u.phase) branch ∙ keeps.0,
        ap (λ u. get_or u.buffer 0 0) branch ∙ enter_status-byte t,
        handle_request_sense-Reports k a lun (error k a c s0) d kept e,
      )

  check_reservation-reserved :
      (d : PrimaryDevice) (s : Controller X)
      → eq_ℤ d.reserving_initiator not_reserved ≡ false
      → eq_ℤ d.reserving_initiator s.initiator_id ≡ false
      → is_exempt s ≡ false
      → check_reservation d s ≡ (
        false,
        error SenseKey.illegal_request Asc.no_additional_sense_information
            StatusCode.reservation_conflict s,
      )
  unfolding check_reservation
  check_reservation-reserved d s a b c =
      let free : (eq_ℤ d.reserving_initiator not_reserved
            || eq_ℤ d.reserving_initiator s.initiator_id)
          ≡ false =
        ground arith in
      if_false _ _ free ∙ if_false _ _ c

module _ {X : Type 0} (h : Handlers X) where
  dispatch_on-reserved :
      (d : PrimaryDevice) (lun : ℕ) (s : Controller X)
      → eq_ℤ d.reserving_initiator not_reserved ≡ false
      → eq_ℤ d.reserving_initiator s.initiator_id ≡ false
      → is_exempt s ≡ false
      → dispatch_on h (some d) lun s
        ≡ error SenseKey.illegal_request Asc.no_additional_sense_information
            StatusCode.reservation_conflict s
  unfolding dispatch_on
  dispatch_on-reserved d lun s a b c =
      ap
        (λ (r : Bool × Controller X).
          if r.0 then catch_error (h.dispatch lun (opcode s) r.1) else r.1)
        (check_reservation-reserved d s a b c)

  -- `Execute` of a command from an initiator other than the one that has reserved the device of the
  -- addressed LUN, outside the STATUS and MESSAGE IN phases and without a reset, where the command
  -- is not one of those that are exempt: RESERVATION CONFLICT as status. The state of the device
  -- classes is unchanged, and the device keeps its reservation, with its sense data set.
  pub execute-reserved :
      (s : Controller X) (d : PrimaryDevice)
      → get_line Pin.rst (acquire_bus s) ≡ false
      → (is_status s.phase || is_msg_in s.phase) ≡ false
      → s.luns (get_effective_lun s) ≡ some d
      → eq_ℤ d.reserving_initiator not_reserved ≡ false
      → eq_ℤ d.reserving_initiator s.initiator_id ≡ false
      → is_exempt s ≡ false
      → ((execute h s).phase ≡ BusPhase.status)
        × (get_or (execute h s).buffer 0 0 ≡ status_code StatusCode.reservation_conflict)
        × ((execute h s).luns (get_effective_lun s)
            ≡ some (
                PrimaryDevice.set_status SenseKey.illegal_request
                  Asc.no_additional_sense_information
                  (PrimaryDevice.reset_status d)))
        × ((execute h s).extra ≡ s.extra)
  unfolding execute execute_on update_device set_current_length set_transfer_size
      PrimaryDevice.reset_status get_effective_lun
  execute-reserved s0 d r p l a b e =
      let s = set_transfer_size 0 0 (reset_offset (set_current_length (pos 0) s0)) in
      let lun = get_effective_lun s0 in
      let s1 =
        update_device lun PrimaryDevice.reset_status (set_controller_status StatusCode.good s) in
      let d1 = PrimaryDevice.reset_status d in
      let at : s1.luns lun ≡ some d1 = update_device_self lun PrimaryDevice.reset_status s d l in
      let sense : (opcode s == request_sense) ≡ false = ground arith in
      let present : has_device lun s ≡ true = ground arith in
      let branch : execute h s0 ≡ dispatch_on h (some d1) lun s1 =
        if_true _ _ present ∙ if_false _ _ sense ∙ ap (λ o. dispatch_on h o lun s1) at in
      let reject = branch ∙ dispatch_on-reserved d1 lun s1 a b e in
      let result =
        error-status SenseKey.illegal_request Asc.no_additional_sense_information
          StatusCode.reservation_conflict s1 d1 r p at (ground arith) (ground arith)
          (ground arith) in
      (
        ap (λ u. u.phase) reject ∙ result.0,
        ap (λ u. get_or u.buffer 0 0) reject ∙ result.1,
        ap (λ u. u.luns lun) reject ∙ result.2,
        ap (λ u. u.extra) reject ∙ result.3,
      )
