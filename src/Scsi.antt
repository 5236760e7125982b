-- ===== src/Scsi.antt =====
-- The enumerations of cpp/shared/scsi.h. An enumeration whose values stand on the bus or in a
-- data block has a function `code` beside it, the `static_cast` to its number.
mod Opcode
pub use Opcode.*
use piscsi.Common.{ℕ}

pub data ScsiLevel : Type 0 where
  none scsi_1_ccs scsi_2 spc spc_2 spc_3 spc_4 spc_5 spc_6 spc_7 last : ScsiLevel

abbrev pub level_code : ScsiLevel → ℕ
level_code ScsiLevel.none = 0
level_code ScsiLevel.scsi_1_ccs = 1
level_code ScsiLevel.scsi_2 = 2
level_code ScsiLevel.spc = 3
level_code ScsiLevel.spc_2 = 4
level_code ScsiLevel.spc_3 = 5
level_code ScsiLevel.spc_4 = 6
level_code ScsiLevel.spc_5 = 7
level_code ScsiLevel.spc_6 = 8
level_code ScsiLevel.spc_7 = 9
level_code ScsiLevel.last = 10

pub data BusPhase : Type 0 where
  bus_free arbitration selection reselection command data_in data_out status : BusPhase
  msg_in msg_out reserved : BusPhase

pub data DeviceType : Type 0 where
  direct_access sequential_access printer processor cd_dvd optical_memory : DeviceType

abbrev pub device_type_code : DeviceType → ℕ
device_type_code DeviceType.direct_access = 0
device_type_code DeviceType.sequential_access = 1
device_type_code DeviceType.printer = 2
device_type_code DeviceType.processor = 3
device_type_code DeviceType.cd_dvd = 5
device_type_code DeviceType.optical_memory = 7

pub data MessageCode : Type 0 where
  command_complete abort message_reject linked_command_complete : MessageCode
  linked_command_complete_with_flag bus_device_reset identify : MessageCode

abbrev pub message_code : MessageCode → ℕ
message_code MessageCode.command_complete = 0x00
message_code MessageCode.abort = 0x06
message_code MessageCode.message_reject = 0x07
message_code MessageCode.linked_command_complete = 0x0a
message_code MessageCode.linked_command_complete_with_flag = 0x0b
message_code MessageCode.bus_device_reset = 0x0c
message_code MessageCode.identify = 0x80

pub data StatusCode : Type 0 where
  good check_condition condition_met busy intermediate : StatusCode
  intermediate_condition_met reservation_conflict command_terminated queue_full : StatusCode
  aca_active task_aborted : StatusCode

abbrev pub status_code : StatusCode → ℕ
status_code StatusCode.good = 0x00
status_code StatusCode.check_condition = 0x02
status_code StatusCode.condition_met = 0x04
status_code StatusCode.busy = 0x08
status_code StatusCode.intermediate = 0x10
status_code StatusCode.intermediate_condition_met = 0x14
status_code StatusCode.reservation_conflict = 0x18
status_code StatusCode.command_terminated = 0x22
status_code StatusCode.queue_full = 0x28
status_code StatusCode.aca_active = 0x30
status_code StatusCode.task_aborted = 0x40

pub data SenseKey : Type 0 where
  no_sense recovered_error not_ready medium_error hardware_error illegal_request : SenseKey
  unit_attention data_protect blank_check vendor_specific copy_aborted : SenseKey
  aborted_command equal volume_overflow miscompare reserved : SenseKey

abbrev pub sense_code : SenseKey → ℕ
sense_code SenseKey.no_sense = 0x00
sense_code SenseKey.recovered_error = 0x01
sense_code SenseKey.not_ready = 0x02
sense_code SenseKey.medium_error = 0x03
sense_code SenseKey.hardware_error = 0x04
sense_code SenseKey.illegal_request = 0x05
sense_code SenseKey.unit_attention = 0x06
sense_code SenseKey.data_protect = 0x07
sense_code SenseKey.blank_check = 0x08
sense_code SenseKey.vendor_specific = 0x09
sense_code SenseKey.copy_aborted = 0x0a
sense_code SenseKey.aborted_command = 0x0b
sense_code SenseKey.equal = 0x0c
sense_code SenseKey.volume_overflow = 0x0d
sense_code SenseKey.miscompare = 0x0e
sense_code SenseKey.reserved = 0x0f

pub data Asc : Type 0 where
  no_additional_sense_information write_fault io_process_terminated write_error : Asc
  read_error locate_operation_failure parameter_list_length_error : Asc
  invalid_command_operation_code lba_out_of_range invalid_field_in_cdb : Asc
  logical_unit_not_supported invalid_field_in_parameter_list write_protected : Asc
  not_ready_to_ready_change power_on_or_reset incompatible_medium_installed : Asc
  sequential_positioning_error medium_not_present internal_target_failure : Asc
  command_phase_error data_phase_error medium_load_or_eject_failed : Asc
  data_currently_unavailable : Asc

abbrev pub asc_code : Asc → ℕ
asc_code Asc.no_additional_sense_information = 0x00
asc_code Asc.write_fault = 0x03
asc_code Asc.io_process_terminated = 0x06
asc_code Asc.write_error = 0x0c
asc_code Asc.read_error = 0x11
asc_code Asc.locate_operation_failure = 0x14
asc_code Asc.parameter_list_length_error = 0x1a
asc_code Asc.invalid_command_operation_code = 0x20
asc_code Asc.lba_out_of_range = 0x21
asc_code Asc.invalid_field_in_cdb = 0x24
asc_code Asc.logical_unit_not_supported = 0x25
asc_code Asc.invalid_field_in_parameter_list = 0x26
asc_code Asc.write_protected = 0x27
asc_code Asc.not_ready_to_ready_change = 0x28
asc_code Asc.power_on_or_reset = 0x29
asc_code Asc.incompatible_medium_installed = 0x30
asc_code Asc.sequential_positioning_error = 0x38
asc_code Asc.medium_not_present = 0x3a
asc_code Asc.internal_target_failure = 0x44
asc_code Asc.command_phase_error = 0x4a
asc_code Asc.data_phase_error = 0x4b
asc_code Asc.medium_load_or_eject_failed = 0x53
asc_code Asc.data_currently_unavailable = 0x55

pub data Ascq : Type 0 where
  none filemark_detected end_of_partition_medium_detected : Ascq
  beginning_of_partition_medium_detected end_of_data_detected : Ascq

abbrev pub ascq_code : Ascq → ℕ
ascq_code Ascq.none = 0x00
ascq_code Ascq.filemark_detected = 0x01
ascq_code Ascq.end_of_partition_medium_detected = 0x02
ascq_code Ascq.beginning_of_partition_medium_detected = 0x04
ascq_code Ascq.end_of_data_detected = 0x05
