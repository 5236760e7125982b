-- ===== src/Controllers/Laws/Lines.antt =====
-- The signal lines and the phase of the controller agree, whatever the devices and the initiator do.
use piscsi.Common.{Bool, true, false, ◌&&◌, ◌≡◌, refl, if_intro, arith, pos_part, take, drop}
use piscsi.Scsi.{BusPhase, StatusCode, SenseKey, Asc}
use piscsi.Buses.Lines.{Pin}
use piscsi.Buses.Bus.Signals.{phase_of, acquire}
use piscsi.Buses.Bus.Signals
use piscsi.Buses.Bus.Laws.{Releases, acquire-driven, send_hand_shake-Releases}
use piscsi.Controllers.State.{
  Controller, is_bus_free, acquire_bus, set_line, set_current_length, update_transfer_length,
  update_offset_and_length, update_device, reset, set_controller_status,
}
use piscsi.Controllers.Phases.{
  enter_selection, leave_bus, bus_free, enter_status, enter_msg_in, enter_msg_out, error,
  end_of_send, send_bytes, send, status, start_data_in, start_data_out, enter_data_in,
  enter_data_out, raise_deferred_error,
}

-- MSG, C/D and I/O by phase, from the table in bus.cpp.
abbrev pub msg_of : BusPhase → Bool
msg_of BusPhase.msg_in = true
msg_of BusPhase.msg_out = true
msg_of _ = false

abbrev pub cd_of : BusPhase → Bool
cd_of BusPhase.command = true
cd_of BusPhase.status = true
cd_of BusPhase.msg_in = true
cd_of BusPhase.msg_out = true
cd_of _ = false

abbrev pub io_of : BusPhase → Bool
io_of BusPhase.data_in = true
io_of BusPhase.status = true
io_of BusPhase.msg_in = true
io_of _ = false

-- The phases that a target takes part in here, and those in which information is transferred.
abbrev pub is_used : BusPhase → Bool
is_used BusPhase.arbitration = false
is_used BusPhase.reselection = false
is_used BusPhase.reserved = false
is_used _ = true

abbrev pub is_transfer : BusPhase → Bool
is_transfer BusPhase.bus_free = false
is_transfer BusPhase.selection = false
is_transfer p = is_used p

-- The target drives the lines of its phase, REQ and SEL are free, and so is BSY on a free bus.
pub record IsConsistent {X : Type 0} (s : Controller X) : Type 0 where
  pub target : s.bus.target_mode ≡ true
  pub used : is_used s.phase ≡ true
  pub req : s.bus.driven.req ≡ false
  pub sel : s.bus.driven.sel ≡ false
  pub free : (is_bus_free s.phase && s.bus.driven.bsy) ≡ false
  pub msg : s.bus.driven.msg ≡ msg_of s.phase
  pub cd : s.bus.driven.cd ≡ cd_of s.phase
  pub io : s.bus.driven.io ≡ io_of s.phase

-- What an initiator reads off the lines while the target asserts BSY is the phase of the
-- controller, in all phases that transfer information.
pub phase_of-IsConsistent :
    {X : Type 0} (s : Controller X)
    → IsConsistent s
    → s.bus.driven.bsy ≡ true
    → is_transfer s.phase ≡ true
    → phase_of s.bus.driven ≡ s.phase
phase_of-IsConsistent s c b t = ground arith

-- Only the phase and the bus count.
pub same_bus :
    {X : Type 0} {s t : Controller X}
    → IsConsistent s
    → t.phase ≡ s.phase
    → t.bus ≡ s.bus
    → IsConsistent t
same_bus c p b = ground arith

module _ {X : Type 0} where
  pub acquire_bus-IsConsistent : (s : Controller X) → IsConsistent s → IsConsistent (acquire_bus s)
  acquire_bus-IsConsistent s c = ground (arith, acquire-driven s.bus)

  pub reset-IsConsistent : (s : Controller X) → IsConsistent s → IsConsistent (reset s)
  unfolding reset Signals.reset
  reset-IsConsistent s c = ground arith

  pub bus_free-IsConsistent : (s : Controller X) → IsConsistent s → IsConsistent (bus_free s)
  unfolding bus_free leave_bus enter_selection
  bus_free-IsConsistent s c = ground arith

  pub enter_status-IsConsistent :
      (s : Controller X) → IsConsistent s → IsConsistent (enter_status s)
  unfolding enter_status
  enter_status-IsConsistent s c = ground arith

  pub enter_msg_in-IsConsistent :
      (s : Controller X) → IsConsistent s → IsConsistent (enter_msg_in s)
  unfolding enter_msg_in
  enter_msg_in-IsConsistent s c = ground arith

  pub enter_msg_out-IsConsistent :
      (s : Controller X) → IsConsistent s → IsConsistent (enter_msg_out s)
  unfolding enter_msg_out
  enter_msg_out-IsConsistent s c = ground arith

  pub error-IsConsistent :
      (k : SenseKey) (a : Asc) (c : StatusCode) (s : Controller X)
      → IsConsistent s
      → IsConsistent (error k a c s)
  unfolding error update_device
  error-IsConsistent k a c s i =
      let i' = acquire_bus-IsConsistent s i in
      if_intro IsConsistent _ (bus_free-IsConsistent _ i') (
        enter_status-IsConsistent _ (
          if_intro (λ t. IsConsistent (set_controller_status c t)) _ {x = acquire_bus s}
            (same_bus i' refl refl) (same_bus i' refl refl)))

  pub moved-IsConsistent :
      (s : Controller X) (b : Signals.Bus)
      → IsConsistent s
      → Releases s.bus b
      → IsConsistent (record s { bus = b })
  moved-IsConsistent s b c r = ground arith

  pub set_rst-IsConsistent :
      (s : Controller X) → IsConsistent s → IsConsistent (set_line Pin.rst true s)
  set_rst-IsConsistent s c = ground arith

  send_bytes-IsConsistent : (s : Controller X) → IsConsistent s → IsConsistent (send_bytes s)
  unfolding send_bytes update_offset_and_length
  send_bytes-IsConsistent s c =
      let bytes = take (pos_part s.current_length) (drop s.offset s.buffer) in
      let s1 = moved-IsConsistent s _ c (send_hand_shake-Releases bytes s.bus c.target c.req) in
      if_intro IsConsistent _ (same_bus s1 refl refl)
        (error-IsConsistent _ _ _ _ (set_rst-IsConsistent _ s1))

  end_of_send-IsConsistent :
      (p : BusPhase) (f : Controller X → Controller X) (s : Controller X)
      → IsConsistent (f s)
      → IsConsistent s
      → IsConsistent (end_of_send p f s)
  unfolding end_of_send
  end_of_send-IsConsistent BusPhase.msg_in f s g c = g
  end_of_send-IsConsistent BusPhase.data_in f s g c = enter_status-IsConsistent s c
  end_of_send-IsConsistent BusPhase.status f s g c =
      enter_msg_in-IsConsistent _ (same_bus c refl refl)
  end_of_send-IsConsistent _ f s g c = c

  pub send-IsConsistent :
      (to_host end_of_message : Controller X → Controller X) (s : Controller X)
      → ((t : Controller X) → IsConsistent t → IsConsistent (to_host t))
      → ((t : Controller X) → IsConsistent t → IsConsistent (end_of_message t))
      → IsConsistent s
      → IsConsistent (send to_host end_of_message s)
  unfolding send update_transfer_length
  send-IsConsistent to_host end_of_message s f g c =
      let c1 = same_bus {t = update_transfer_length s.chunk_size s} c refl refl in
      if_intro IsConsistent _ (send_bytes-IsConsistent s c) (
        if_intro IsConsistent _ (end_of_send-IsConsistent _ _ _ (g _ c1) c1)
          (if_intro IsConsistent _ (f _ c1) c1))

  pub status-IsConsistent : (s : Controller X) → IsConsistent s → IsConsistent (status s)
  unfolding status
  status-IsConsistent s c =
      if_intro IsConsistent _ (send-IsConsistent _ _ s (λ t d. d) (λ t d. d) c)
        (enter_status-IsConsistent s c)

  start_data_in-IsConsistent : (s : Controller X) → IsConsistent s → IsConsistent (start_data_in s)
  unfolding start_data_in
  start_data_in-IsConsistent s c = ground arith

  start_data_out-IsConsistent :
      (s : Controller X) → IsConsistent s → IsConsistent (start_data_out s)
  unfolding start_data_out
  start_data_out-IsConsistent s c = ground arith

  pub enter_data_in-IsConsistent :
      (s : Controller X) → IsConsistent s → IsConsistent (enter_data_in s)
  unfolding enter_data_in
  enter_data_in-IsConsistent s c =
      if_intro IsConsistent _ (status-IsConsistent s c) (start_data_in-IsConsistent s c)

  pub enter_data_out-IsConsistent :
      (s : Controller X) → IsConsistent s → IsConsistent (enter_data_out s)
  unfolding enter_data_out set_current_length
  enter_data_out-IsConsistent s c = if_intro IsConsistent _ (status-IsConsistent s c) (
      if_intro IsConsistent _ (start_data_out-IsConsistent _ (same_bus c refl refl))
        (start_data_out-IsConsistent s c))

  pub raise_deferred_error-IsConsistent :
      (k : SenseKey) (a : Asc) (s : Controller X)
      → IsConsistent s
      → IsConsistent (raise_deferred_error k a s)
  unfolding raise_deferred_error
  raise_deferred_error-IsConsistent k a s c = error-IsConsistent k a _ _ (same_bus c refl refl)
