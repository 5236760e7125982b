-- ===== src/Controllers/Tests.antt =====
-- Runs of the code under cpp/controllers, with one device that has the commands of all devices.
use piscsi.Common.{
  ℕ, ◌≡◌, refl, true, false, [], arith, some, none, if◌then◌else◌, ◌==◌, pos, negsuc, get_or,
  replicate,
}
use piscsi.Scsi.{BusPhase, StatusCode, SenseKey, Asc, Ascq, ScsiLevel}
use piscsi.Buses.Lines.{no_lines}
use piscsi.Buses.Bus.Signals.{Sample, phase_of}
use piscsi.Buses.Bus.Signals
use piscsi.Base.Device.{PbDeviceType}
use piscsi.Base.PrimaryDevice.{PrimaryDevice}
use piscsi.Base.PrimaryDevice
use piscsi.Controllers.State.{Controller, raise, get_effective_lun}
use piscsi.Controllers.Phases.{error}
use piscsi.Controllers.Device.{primary_commands, dispatch, default_read_data, default_mode_select}
use piscsi.Controllers.Command.{Handlers, execute, command}
use piscsi.Controllers.Process.{process, process_phase}
use piscsi.Controllers.Laws.Lines.{IsConsistent}
use piscsi.Controllers.Laws.Lawful.{IsLawful}
use piscsi.Controllers.Laws.Invariant.{process-IsConsistent}
use piscsi.Controllers.Laws.Reach.{here, step, Reach-phase_of}
use piscsi.Controllers.Device.{handle_request_sense}
use piscsi.Controllers.Laws.Errors.{Reports, error-sense, execute-reserved}
use piscsi.Controllers.Laws.Primary.{dispatch-primary_commands-IsConsistent}

abbrev drive : PrimaryDevice
drive = record {
  device = record {
    type = PbDeviceType.schd;
    lun = 0;
    ready = true;
    reset = false;
    attn = false;
    protectable = true;
    write_protected = false;
    read_only = false;
    stoppable = true;
    stopped = false;
    removable = false;
    removed = false;
    locked = false;
  };
  padded_name = replicate 28 32;
  level = ScsiLevel.scsi_2;
  response_data_format = ScsiLevel.scsi_2;
  sense_key = SenseKey.no_sense;
  asc = Asc.no_additional_sense_information;
  eom = Ascq.none;
  valid = false;
  filemark = false;
  ili = false;
  information = 0;
  reserving_initiator = negsuc 0;
  attached = true;
}

-- A controller in the COMMAND phase with the operation code TEST UNIT READY.
abbrev in_command : PrimaryDevice → Controller ℕ
in_command d = record {
  phase = BusPhase.command;
  bus = record {
    target_mode = true;
    driven = record no_lines { bsy = true; cd = true };
    signals = no_lines;
    dat = 0;
    schedule = [];
  };
  cdb = replicate 16 0;
  buffer = [];
  offset = 0;
  remaining_length = 0;
  current_length = pos 0;
  chunk_size = 0;
  status = StatusCode.good;
  luns = λ l. if l == 0 then some d else none;
  target_id = 4;
  initiator_id = pos 7;
  identified_lun = negsuc 0;
  atn_msg = false;
  linked = false;
  flag = false;
  deferred_sense_key = SenseKey.no_sense;
  deferred_asc = Asc.no_additional_sense_information;
  msg_bytes = [];
  extra = 0;
}

abbrev handlers : Handlers ℕ
handlers = record {
  dispatch = λ lun. dispatch (primary_commands (λ _. replicate 36 0) lun);
  read_data = λ lun. default_read_data;
  write_data = λ lun offset n. raise SenseKey.illegal_request Asc.invalid_command_operation_code;
  mode_select = λ lun n. default_mode_select;
}

handlers-IsLawful : IsLawful handlers
unfolding default_read_data default_mode_select
handlers-IsLawful = record {
  dispatch =
      λ lun cmd s c. dispatch-primary_commands-IsConsistent (λ _. replicate 36 0) lun cmd s c;
  read_data = λ lun s c. c;
  write_data = λ lun offset n s c. c;
  mode_select = λ lun n s c. c;
}

in_command-IsConsistent : (d : PrimaryDevice) → IsConsistent (in_command d)
in_command-IsConsistent d = record {
  target = refl;
  used = refl;
  req = refl;
  sel = refl;
  free = refl;
  msg = refl;
  cd = refl;
  io = refl;
}

process-IsConsistent_example : IsConsistent (process handlers (in_command drive)).1
process-IsConsistent_example =
    process-IsConsistent handlers handlers-IsLawful (in_command drive)
      (in_command-IsConsistent drive)

Reach-phase_of_example :
    phase_of (process handlers (in_command drive)).1.bus.driven
    ≡ (process handlers (in_command drive)).1.phase
unfolding process process_phase command Signals.acquire
Reach-phase_of_example =
    Reach-phase_of handlers handlers-IsLawful (in_command drive) (in_command-IsConsistent drive)
      (process handlers (in_command drive)).1 (step here) refl refl

error-sense_example :
    let t =
      error SenseKey.medium_error Asc.write_fault StatusCode.check_condition (in_command drive) in
    (t.phase ≡ BusPhase.status)
    × (get_or t.buffer 0 0 ≡ 0x02)
    × Reports SenseKey.medium_error Asc.write_fault (handle_request_sense 0 t)
unfolding get_effective_lun Signals.acquire
error-sense_example =
    error-sense SenseKey.medium_error Asc.write_fault StatusCode.check_condition (in_command drive)
      drive refl refl refl (ground arith)

-- The drive is reserved by initiator 3.
abbrev reserved : PrimaryDevice
reserved = record drive { reserving_initiator = pos 3 }

execute-reserved_example :
    ((execute handlers (in_command reserved)).phase ≡ BusPhase.status)
    × (get_or (execute handlers (in_command reserved)).buffer 0 0 ≡ 0x18)
    × ((execute handlers (in_command reserved)).luns 0
        ≡ some (
            PrimaryDevice.set_status SenseKey.illegal_request Asc.no_additional_sense_information
              (PrimaryDevice.reset_status reserved)))
    × ((execute handlers (in_command reserved)).extra ≡ 0)
unfolding get_effective_lun Signals.acquire
execute-reserved_example =
    execute-reserved handlers (in_command reserved) reserved refl refl refl refl refl refl
