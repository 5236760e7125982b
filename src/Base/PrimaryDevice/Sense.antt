-- ===== src/Base/PrimaryDevice/Sense.antt =====
-- The data blocks that `PrimaryDevice` builds: sense data and the standard INQUIRY data.
use piscsi.Common.{ℕ, ◌+◌, Bool, List, if◌then◌else◌, leb, ltb, ◌||◌, set, replicate, write_at}
use piscsi.Scsi.{DeviceType, device_type_code, level_code, sense_code, asc_code, ascq_code}
use piscsi.Shared.MemoryUtil.{set_int32}
use piscsi.Base.PrimaryDevice.{PrimaryDevice}

-- `HandleInquiry`
unfoldable pub handle_inquiry : DeviceType → Bool → PrimaryDevice → List ℕ
handle_inquiry type is_removable d =
    let b0 = set (replicate 36 0) 0 (device_type_code type) in
    let b1 = set b0 1 (if is_removable then 0x80 else 0x00) in
    let b2 = set b1 2 (level_code d.level) in
    let b3 = set b2 3 (if leb 2 (level_code d.level) then 2 else 1) in
    let b4 = set b3 4 0x1f in let b7 = set b4 7 0x08 in write_at b7 8 d.padded_name

-- `extended` of `HandleRequestSense`
unfoldable pub is_extended : ℕ → PrimaryDevice → Bool
is_extended allocation_length d = leb 2 (level_code d.level) || ltb 4 allocation_length

-- The 18 bytes that `HandleRequestSense` returns, by byte 4 of the CDB. The flags of byte 2 are
-- distinct bits above the sense key, so `|` is a sum.
unfoldable pub sense_data : ℕ → PrimaryDevice → List ℕ
unfolding is_extended set_int32
sense_data allocation_length d =
    let extended = is_extended allocation_length d in
    let b0 =
      set (replicate 18 0) 0 ((if extended then 0x70 else 0) + (if d.valid then 0x80 else 0)) in
    let b1 = if d.valid then set_int32 b0 (if extended then 3 else 1) d.information else b0 in
    let has_eom = ltb 0 (ascq_code d.eom) in
    let b2 = set b1 2 (
      sense_code d.sense_key
      + (if d.ili then 0x20 else 0)
      + (if d.filemark then 0x80 else 0)
      + (if has_eom then 0x40 else 0)) in
    let b7 = set b2 7 10 in
    let b12 = set b7 12 (asc_code d.asc) in
    let b13 = if d.filemark then set b12 13 0x01 else b12 in
    if has_eom then set b13 13 (ascq_code d.eom) else b13
