-- ===== src/Controllers/State.antt =====
-- The state of a controller: cpp/controllers/phase_handler.h, abstract_controller.h and .cpp, and
-- the fields of controller.h.
--
-- `X` is the state that the derived device classes add, for all LUNs of the controller. The script
-- generator, the loggers and the shutdown mode are left out. An `int` that is never negative is a
-- number; `current_length` may be -1, which enforces a DATA OUT phase.
use piscsi.Common.{
  ℕ, ◌+◌, ◌-◌, ◌^◌, ◌/◌, Bool, true, false, ◌||◌, Option, none, some, List, ◌++◌, if◌then◌else◌,
  ltb, leb, ◌==◌, ℤ, pos, negsuc, pos_part, length, get_or, set, write_at, replicate,
}
use piscsi.Scsi.{BusPhase, StatusCode, SenseKey, Asc}
use piscsi.Buses.Bus.Signals.{Bus}
use piscsi.Buses.Bus.Signals
use piscsi.Buses.Lines.{Pin}
use piscsi.Base.Device.{PbDeviceType}
use piscsi.Base.PrimaryDevice.{PrimaryDevice}
use piscsi.Base.PrimaryDevice

-- How a call ends: with a value, or with a `ScsiException`.
pub data Outcome (A : Type 0) : Type 0 where
  ok : A → Outcome A
  throw : SenseKey → Asc → Outcome A

pub record Controller (X : Type 0) : Type 0 where
  pub phase : BusPhase
  pub bus : Bus
  pub cdb : List ℕ
  pub buffer : List ℕ
  pub offset : ℕ
  pub remaining_length : ℕ
  pub current_length : ℤ
  pub chunk_size : ℕ
  pub status : StatusCode
  pub luns : ℕ → Option PrimaryDevice
  pub target_id : ℕ
  pub initiator_id : ℤ
  pub identified_lun : ℤ
  pub atn_msg : Bool
  pub linked : Bool
  pub flag : Bool
  pub deferred_sense_key : SenseKey
  pub deferred_asc : Asc
  pub msg_bytes : List ℕ
  pub extra : X

-- A call of a method. What it has written stays written after an exception.
abbrev pub Action : Type 0 → Type 0 → Type 0
Action X A = Controller X → Outcome A × Controller X

infixl 5 ◌>>=◌ ◌>>◌
abbrev pub ◌>>=◌ : {X A B : Type 0} → Action X A → (A → Action X B) → Action X B
◌>>=◌ m f s = let (r, s') = m s in elim r [ ok a ↦ f a s' | throw k a ↦ (throw k a, s') ]

abbrev pub ◌>>◌ : {X B : Type 0} → Action X (Unit {0}) → Action X B → Action X B
m >> k = m >>= λ _. k

abbrev pub raise : {X A : Type 0} → SenseKey → Asc → Action X A
raise k a s = (throw k a, s)

abbrev pub raise_if : {X : Type 0} → Bool → SenseKey → Asc → Action X (Unit {0})
raise_if c k a s = (if c then throw k a else ok tt, s)

abbrev pub run : {X : Type 0} → (Controller X → Controller X) → Action X (Unit {0})
run f s = (ok tt, f s)

-- `IsBusFree`, `IsSelection` and so on.
abbrev pub is_bus_free : BusPhase → Bool
is_bus_free BusPhase.bus_free = true
is_bus_free _ = false

abbrev pub is_selection : BusPhase → Bool
is_selection BusPhase.selection = true
is_selection _ = false

abbrev pub is_command : BusPhase → Bool
is_command BusPhase.command = true
is_command _ = false

abbrev pub is_status : BusPhase → Bool
is_status BusPhase.status = true
is_status _ = false

abbrev pub is_data_in : BusPhase → Bool
is_data_in BusPhase.data_in = true
is_data_in _ = false

abbrev pub is_data_out : BusPhase → Bool
is_data_out BusPhase.data_out = true
is_data_out _ = false

abbrev pub is_msg_in : BusPhase → Bool
is_msg_in BusPhase.msg_in = true
is_msg_in _ = false

abbrev pub is_msg_out : BusPhase → Bool
is_msg_out BusPhase.msg_out = true
is_msg_out _ = false

module _ {X : Type 0} where
  -- The conditions of the bus signals, as last acquired.
  abbrev pub get_line : Pin → Controller X → Bool
  get_line pin s = Signals.get_signal pin s.bus

  abbrev pub set_line : Pin → Bool → Controller X → Controller X
  set_line pin b s = record s { bus = Signals.set_signal pin b s.bus }

  abbrev pub acquire_bus : Controller X → Controller X
  acquire_bus s = record s { bus = Signals.acquire s.bus }

  -- MSG, C/D and I/O, which a phase sets together.
  abbrev pub set_phase_lines : Bool → Bool → Bool → Controller X → Controller X
  set_phase_lines msg cd io s = set_line Pin.io io (set_line Pin.cd cd (set_line Pin.msg msg s))

  -- `SetCurrentLength`: the buffer grows with the length.
  unfoldable pub set_current_length : ℤ → Controller X → Controller X
  set_current_length n s =
      let missing = pos_part n - length s.buffer in
      record s { current_length = n; buffer = s.buffer ++ replicate missing 0 }

  unfoldable pub set_transfer_size : ℕ → ℕ → Controller X → Controller X
  set_transfer_size n size s = record s {
    remaining_length = n;
    chunk_size = if ltb n size then n else size;
  }

  -- A negative remainder is set to 0, which is what `-` does.
  unfoldable pub update_transfer_length : ℕ → Controller X → Controller X
  update_transfer_length n s =
      let remaining = s.remaining_length - n in
      record s {
        remaining_length = remaining;
        chunk_size = if ltb remaining s.chunk_size then remaining else s.chunk_size;
      }

  -- A hand-shake has succeeded, so `current_length` is positive here.
  unfoldable pub update_offset_and_length : Controller X → Controller X
  update_offset_and_length s = record s {
    offset = s.offset + pos_part s.current_length;
    current_length = pos 0;
  }

  abbrev pub reset_offset : Controller X → Controller X
  reset_offset s = record s { offset = 0 }

  abbrev pub set_controller_status : StatusCode → Controller X → Controller X
  set_controller_status c s = record s { status = c }

  abbrev pub set_buffer_byte : ℕ → ℕ → Controller X → Controller X
  set_buffer_byte i v s = record s { buffer = set s.buffer i v }

  unfoldable pub copy_to_buffer : List ℕ → Controller X → Controller X
  unfolding set_current_length
  copy_to_buffer bytes s =
      let s' = set_current_length (pos (length bytes)) s in
      record s' { buffer = write_at s'.buffer 0 bytes }

  abbrev pub get_cdb_byte : ℕ → Controller X → ℕ
  get_cdb_byte i s = get_or s.cdb i 0

  abbrev pub opcode : Controller X → ℕ
  opcode s = get_cdb_byte 0 s

  -- `Controller::GetEffectiveLun`: the LUN of the IDENTIFY message, or else that of the CDB.
  unfoldable pub get_effective_lun : Controller X → ℕ
  get_effective_lun s = elim s.identified_lun [
    | pos lun ↦ lun
    | negsuc _ ↦ get_cdb_byte 1 s / 2 ^ 5
  ]

  -- The device of a LUN as an object: a call on the null pointer, which no path makes, does nothing.
  unfoldable pub update_device : ℕ → (PrimaryDevice → PrimaryDevice) → Controller X → Controller X
  update_device lun f s = record s {
    luns =
        λ l. if l == lun then elim (s.luns l) [ none ↦ none | some d ↦ some (f d) ] else s.luns l;
  }

  abbrev pub has_device : ℕ → Controller X → Bool
  has_device lun s = elim (s.luns lun) [ none ↦ false | some _ ↦ true ]

  abbrev pub is_ready : ℕ → Controller X → Bool
  is_ready lun s = elim (s.luns lun) [ none ↦ false | some d ↦ d.device.ready ]

  -- `AbstractController::AddDevice`
  unfoldable pub add_device : PrimaryDevice → Controller X → Bool × Controller X
  add_device d s =
      let max_luns : ℕ = elim d.device.type [ PbDeviceType.sahd ↦ 2 | _ ↦ 32 ] in
      let added = record d { attached = true } in
      if leb max_luns d.device.lun || has_device d.device.lun s || d.attached
      then (false, s)
      else (true, record s { luns = λ l. if l == d.device.lun then some added else s.luns l })

  -- `AbstractController::RemoveDevice`, without the clean-up of the device.
  unfoldable pub remove_device : ℕ → Controller X → Bool × Controller X
  remove_device lun s =
      (has_device lun s, record s { luns = λ l. if l == lun then none else s.luns l })

  unfoldable pub reset_flags : Controller X → Controller X
  reset_flags s = record s { linked = false; flag = false; atn_msg = false }

  -- `AbstractController::Reset` and `Controller::Reset`
  unfoldable pub reset : Controller X → Controller X
  unfolding reset_flags
  reset s = reset_flags (record s {
    phase = BusPhase.bus_free;
    offset = 0;
    remaining_length = 0;
    current_length = pos 0;
    chunk_size = 0;
    status = StatusCode.good;
    initiator_id = negsuc 0;
    luns = λ l. elim (s.luns l) [ none ↦ none | some d ↦ some (PrimaryDevice.reset d) ];
    bus = Signals.reset s.bus;
    identified_lun = negsuc 0;
  })
