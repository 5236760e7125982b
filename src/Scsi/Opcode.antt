-- ===== src/Scsi/Opcode.antt =====
-- The operation codes of `enum class ScsiCommand` of cpp/shared/scsi.h that the model compares
-- with. A received operation code is any byte.
use piscsi.Common.{ℕ}

abbrev pub test_unit_ready : ℕ
test_unit_ready = 0x00

abbrev pub rezero : ℕ
rezero = 0x01

abbrev pub request_sense : ℕ
request_sense = 0x03

abbrev pub format_unit : ℕ
format_unit = 0x04

abbrev pub reassign_blocks : ℕ
reassign_blocks = 0x07

abbrev pub read_6 : ℕ
read_6 = 0x08

abbrev pub write_6 : ℕ
write_6 = 0x0a

abbrev pub seek_6 : ℕ
seek_6 = 0x0b

abbrev pub inquiry : ℕ
inquiry = 0x12

abbrev pub mode_select_6 : ℕ
mode_select_6 = 0x15

abbrev pub reserve_reserve_element_6 : ℕ
reserve_reserve_element_6 = 0x16

abbrev pub release_release_element_6 : ℕ
release_release_element_6 = 0x17

abbrev pub mode_sense_6 : ℕ
mode_sense_6 = 0x1a

abbrev pub start_stop : ℕ
start_stop = 0x1b

abbrev pub send_diagnostic : ℕ
send_diagnostic = 0x1d

abbrev pub prevent_allow_medium_removal : ℕ
prevent_allow_medium_removal = 0x1e

abbrev pub read_format_capacities : ℕ
read_format_capacities = 0x23

abbrev pub read_capacity_10 : ℕ
read_capacity_10 = 0x25

abbrev pub read_10 : ℕ
read_10 = 0x28

abbrev pub write_10 : ℕ
write_10 = 0x2a

abbrev pub seek_10 : ℕ
seek_10 = 0x2b

abbrev pub verify_10 : ℕ
verify_10 = 0x2f

abbrev pub synchronize_cache_10 : ℕ
synchronize_cache_10 = 0x35

abbrev pub read_defect_data_10 : ℕ
read_defect_data_10 = 0x37

abbrev pub read_long_10 : ℕ
read_long_10 = 0x3e

abbrev pub write_long_10 : ℕ
write_long_10 = 0x3f

abbrev pub mode_select_10 : ℕ
mode_select_10 = 0x55

abbrev pub mode_sense_10 : ℕ
mode_sense_10 = 0x5a

abbrev pub read_16 : ℕ
read_16 = 0x88

abbrev pub write_16 : ℕ
write_16 = 0x8a

abbrev pub verify_16 : ℕ
verify_16 = 0x8f

abbrev pub synchronize_cache_space_16 : ℕ
synchronize_cache_space_16 = 0x91

abbrev pub read_capacity_read_long_16 : ℕ
read_capacity_read_long_16 = 0x9e

abbrev pub write_long_16 : ℕ
write_long_16 = 0x9f

abbrev pub report_luns : ℕ
report_luns = 0xa0

abbrev pub rewind : ℕ
rewind = 0x01

abbrev pub format_medium : ℕ
format_medium = 0x04

abbrev pub read_block_limits : ℕ
read_block_limits = 0x05

abbrev pub write_filemarks_6 : ℕ
write_filemarks_6 = 0x10

abbrev pub space_6 : ℕ
space_6 = 0x11

abbrev pub erase_6 : ℕ
erase_6 = 0x19

abbrev pub locate_10 : ℕ
locate_10 = 0x2b

abbrev pub read_position : ℕ
read_position = 0x34

abbrev pub write_filemarks_16 : ℕ
write_filemarks_16 = 0x80

abbrev pub locate_16 : ℕ
locate_16 = 0x92
