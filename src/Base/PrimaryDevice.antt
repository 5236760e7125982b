-- ===== src/Base/PrimaryDevice.antt =====
-- cpp/base/primary_device.h and .cpp: the state of a SCSI device and what a device does alone.
-- The command handlers, which talk to the controller, stand in Controllers.
--
-- The product data are the 28 bytes of `GetPaddedName`; `attached` tells whether the pointer to the
-- controller is set.
pub mod Sense
pub mod SenseLaws
use piscsi.Common.{ℕ, ℤ, pos, negsuc, Bool, true, false, List, if◌then◌else◌, leb, ◌==◌, ◌||◌}
use piscsi.Scsi.{ScsiLevel, SenseKey, Asc, Ascq, level_code}
use piscsi.Base.Device.{Device}

-- `NOT_RESERVED` is -2; an unknown initiator has the ID -1.
abbrev pub not_reserved : ℤ
not_reserved = negsuc 1

pub record PrimaryDevice : Type 0 where
  pub device : Device
  pub open device use *
  pub padded_name : List ℕ
  pub level : ScsiLevel
  pub response_data_format : ScsiLevel
  pub sense_key : SenseKey
  pub asc : Asc
  pub eom : Ascq
  pub valid : Bool
  pub filemark : Bool
  pub ili : Bool
  pub information : ℕ
  pub reserving_initiator : ℤ
  pub attached : Bool

unfoldable pub discard_reservation : PrimaryDevice → PrimaryDevice
discard_reservation d = record d { reserving_initiator = not_reserved }

unfoldable pub reset : PrimaryDevice → PrimaryDevice
unfolding discard_reservation
reset d =
    let r = discard_reservation d in
    record r { device = record (r.device) { reset = false; attn = false; locked = false } }

unfoldable pub set_status : SenseKey → Asc → PrimaryDevice → PrimaryDevice
set_status s a d = record d { sense_key = s; asc = a }

unfoldable pub reset_status : PrimaryDevice → PrimaryDevice
reset_status d = record d {
  sense_key = SenseKey.no_sense;
  asc = Asc.no_additional_sense_information;
  valid = false;
  filemark = false;
  ili = false;
  information = 0;
  eom = Ascq.none;
}

unfoldable pub set_filemark : PrimaryDevice → PrimaryDevice
set_filemark d = record d { filemark = true }

unfoldable pub set_eom : Ascq → PrimaryDevice → PrimaryDevice
set_eom e d = record d { eom = e }

unfoldable pub set_ili : PrimaryDevice → PrimaryDevice
set_ili d = record d { ili = true }

-- The `int32_t` is its bit pattern.
unfoldable pub set_information : ℕ → PrimaryDevice → PrimaryDevice
set_information value d = record d { information = value; valid = true }

unfoldable pub set_scsi_level : ScsiLevel → PrimaryDevice → Bool × PrimaryDevice
set_scsi_level l d =
    if leb (level_code ScsiLevel.last) (level_code l)
    then (false, d)
    else (true, record d { level = l })

unfoldable pub set_response_data_format : ScsiLevel → PrimaryDevice → Bool × PrimaryDevice
set_response_data_format l d =
    if level_code l == 0 || leb 3 (level_code l)
    then (false, d)
    else (true, record d { response_data_format = l })
