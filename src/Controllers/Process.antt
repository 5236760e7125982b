-- ===== src/Controllers/Process.antt =====
-- `Controller::Process` of cpp/controllers/controller.cpp, the table of phases of
-- cpp/controllers/phase_handler.cpp, and `AbstractController::ProcessOnController`.
use piscsi.Common.{Bool, true, false, ◌&&◌, not, if◌then◌else◌}
use piscsi.Scsi.{BusPhase, StatusCode, SenseKey, Asc}
use piscsi.Buses.Lines.{Pin}
use piscsi.Controllers.State.{Controller, is_bus_free, get_line, acquire_bus, reset}
use piscsi.Controllers.Phases.{error, bus_free, enter_msg_out}
use piscsi.Controllers.Command.{Handlers, command}
use piscsi.Controllers.Transfer.{send_phase, receive}

module _ {X : Type 0} (h : Handlers X) where
  -- `Selection` in the SELECTION phase: a MESSAGE OUT phase if ATN is asserted, or the command.
  unfoldable pub leave_selection : Controller X → Controller X
  leave_selection s =
      if not (get_line Pin.sel s) && get_line Pin.bsy s
      then (if get_line Pin.atn s then enter_msg_out s else command h s)
      else s

  -- `ProcessPhase`, on the table of `PhaseHandler::Init`. Each function is called in its own phase.
  unfoldable pub process_phase : BusPhase → Controller X → Bool × Controller X
  process_phase BusPhase.bus_free s = (true, bus_free s)
  process_phase BusPhase.arbitration s = (false, s)
  process_phase BusPhase.selection s = (true, leave_selection s)
  process_phase BusPhase.reselection s = (false, s)
  process_phase BusPhase.command s = (true, command h s)
  process_phase BusPhase.data_in s = (true, send_phase h s)
  process_phase BusPhase.data_out s = (true, receive h s)
  process_phase BusPhase.status s = (true, send_phase h s)
  process_phase BusPhase.msg_in s = (true, send_phase h s)
  process_phase BusPhase.msg_out s = (true, receive h s)
  process_phase BusPhase.reserved s = (false, s)

  -- `Process`
  unfoldable pub process : Controller X → Bool × Controller X
  process s0 =
      let s = acquire_bus s0 in
      let (handled, s1) = process_phase s.phase s in
      if get_line Pin.rst s
      then (false, reset s)
      else if not handled
      then (
        false,
        error SenseKey.aborted_command Asc.internal_target_failure StatusCode.check_condition s1,
      )
      else (not (is_bus_free s1.phase), s1)
