-- ===== src/Controllers/Laws/Reach.antt =====
-- What an initiator observes over any sequence of steps of `Controller::Process`
-- (cpp/controllers/controller.cpp), with an initiator that may do anything between them.
use piscsi.Common.{true, ◌≡◌, List, arith}
use piscsi.Buses.Bus.Signals.{Sample, phase_of}
use piscsi.Controllers.State.{Controller}
use piscsi.Controllers.Command.{Handlers}
use piscsi.Controllers.Process.{process}
use piscsi.Controllers.Laws.Lines.{IsConsistent, is_transfer, phase_of-IsConsistent}
use piscsi.Controllers.Laws.Lawful.{IsLawful}
use piscsi.Controllers.Laws.Invariant.{process-IsConsistent}

-- The states that follow `s`: after a step of the controller, or when the other side has changed
-- what it is going to drive.
pub data Reach {X : Type 0} (h : Handlers X) (s : Controller X) : Controller X → Type 0 where
  here : Reach h s s
  step : {t : Controller X} → Reach h s t → Reach h s (process h t).1
  turn :
      {t : Controller X} (schedule : List Sample)
      → Reach h s t
      → Reach h s (record t { bus = record (t.bus) { schedule = schedule } })

module _ {X : Type 0} (h : Handlers X) (law : IsLawful h) (s : Controller X)
    (c : IsConsistent s) where
  Reach-IsConsistent : (t : Controller X) → Reach h s t → IsConsistent t
  Reach-IsConsistent _ here = c
  Reach-IsConsistent _ (step r) = process-IsConsistent h law _ (Reach-IsConsistent _ r)
  Reach-IsConsistent _ (turn {t} schedule r) = let i = Reach-IsConsistent t r in ground arith

  -- In every state that can be reached, while the target asserts BSY, the phase that its lines
  -- encode by the table of the bus is the phase of the controller, if it is one of the six that
  -- transfer information.
  pub Reach-phase_of :
      (t : Controller X)
      → Reach h s t
      → t.bus.driven.bsy ≡ true
      → is_transfer t.phase ≡ true
      → phase_of t.bus.driven ≡ t.phase
  Reach-phase_of t r b i = phase_of-IsConsistent t (Reach-IsConsistent t r) b i
