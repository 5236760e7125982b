-- ===== src/Buses/Bus/Signals.antt =====
-- The signals of cpp/buses/bus.h, and `WaitSignal` and `GetPhase` of cpp/buses/bus.cpp.
--
-- What the other side of the bus does is a schedule: one `Sample` for each time that `Acquire`
-- reads the lines, with the lines and the data byte that the other side drives then, and whether
-- the 3 s of `WaitSignal` have passed after it. When the schedule has run out the other side
-- drives nothing, and waiting times out. A line that this side sets shows at once. The interrupt
-- switches, the settle delay and the DaynaPort delay change no state and are left out.
use piscsi.Common.{ℕ, Bool, true, false, List, [], ◌∷◌, if◌then◌else◌, not, same}
use piscsi.Scsi.{BusPhase}
use piscsi.Buses.Lines.{Lines, Pin, no_lines, get_line, set_line, join_lines, phases}

pub record Sample : Type 0 where
  pub lines : Lines
  pub dat : ℕ
  pub late : Bool

-- `driven` is what this side asserts, `signals` what it has last read.
pub record Bus : Type 0 where
  pub target_mode : Bool
  pub driven : Lines
  pub signals : Lines
  pub dat : ℕ
  pub schedule : List Sample

abbrev pub get_signal : Pin → Bus → Bool
get_signal pin b = get_line pin b.signals

abbrev pub set_signal : Pin → Bool → Bus → Bus
set_signal pin state b = record b {
  driven = set_line pin state b.driven;
  signals = set_line pin state b.signals;
}

-- `GetDAT` and `SetDAT`
abbrev pub get_dat : Bus → ℕ
get_dat b = b.dat

abbrev pub set_dat : ℕ → Bus → Bus
set_dat d b = record b { dat = d }

abbrev pub read_sample : Sample → List Sample → Bus → Bus
read_sample s rest b = record b {
  signals = join_lines b.driven s.lines;
  dat = s.dat;
  schedule = rest;
}

unfoldable pub acquire : Bus → Bus
acquire b = elim b.schedule [
  | [] ↦ record b { signals = b.driven }
  | s ∷ rest ↦ read_sample s rest b
]

-- `Bus::Reset`: this side releases all lines.
unfoldable pub reset : Bus → Bus
reset b = record b { driven = no_lines; signals = no_lines; dat = 0 }

-- The loop of `WaitSignal` over the samples that are left.
unfoldable pub wait_for : List Sample → Pin → Bool → Bus → Bool × Bus
wait_for [] pin state b =
    let b' = record b { signals = b.driven; schedule = [] } in (same (get_signal pin b') state, b')
wait_for (s ∷ rest) pin state b =
    let b' = read_sample s rest b in
    let later = wait_for rest pin state b' in
    if same (get_signal pin b') state
    then (true, b')
    else if get_signal Pin.rst b'
    then (false, b')
    else if s.late
    then (false, b')
    else later

unfoldable pub wait_signal : Pin → Bool → Bus → Bool × Bus
unfolding wait_for
wait_signal pin state b = wait_for b.schedule pin state b

-- The phase that a side reads off the signals.
abbrev pub phase_of : Lines → BusPhase
phase_of l =
    if l.sel
    then BusPhase.selection
    else if not l.bsy
    then BusPhase.bus_free
    else phases l.msg l.cd l.io

-- `Bus::GetPhase`
unfoldable pub get_phase : Bus → BusPhase × Bus
unfolding acquire
get_phase b = let b' = acquire b in (phase_of b'.signals, b')
