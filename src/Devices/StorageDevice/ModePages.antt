-- ===== src/Devices/StorageDevice/ModePages.antt =====
-- MODE SENSE and MODE SELECT of cpp/devices/storage_device.cpp.
use piscsi.Common.{
  ℕ, zero, suc, ◌+◌, ◌-◌, ◌/◌, ◌%◌, ◌^◌, Bool, true, false, not, ◌&&◌, ◌||◌, Option, none, some,
  List, if◌then◌else◌, ltb, leb, ◌==◌, min, length, get_or, set, take, write_at, replicate,
  test_bit, pos,
}
use piscsi.Scsi.{SenseKey, Asc, mode_select_10}
use piscsi.Shared.MemoryUtil.{get_int16, set_int16, set_int32, set_int64}
use piscsi.Base.PrimaryDevice.{PrimaryDevice}
use piscsi.Controllers.State.{Controller, Outcome, ok, throw, Action, ◌>>=◌, get_cdb_byte, opcode}
use piscsi.Controllers.Device.{data_in_phase, with_device}
use piscsi.Devices.PageHandler.{Pages, put_page, find_page, add_mode_pages}
use piscsi.Devices.StorageDevice.{StorageDevice, Storages, update_storage}

-- A buffer of `n` zeros with some bytes set.
abbrev pub zeros : ℕ → List ℕ
zeros n = replicate n 0

-- `AddReadWriteErrorRecoveryPage`, `AddDisconnectReconnectPage` and `AddControlModePage`
unfoldable pub error_recovery_page : List ℕ
error_recovery_page = set (set (set (set (zeros 12) 2 0x26) 3 1) 8 1) 11 218

-- `SetUpModePages`
unfoldable pub set_up_mode_pages : ℕ → Pages → Pages
unfolding error_recovery_page
set_up_mode_pages page pages =
    let all = page == 0x3f in
    let p1 = if page == 0x01 || all then put_page 1 error_recovery_page pages else pages in
    let p2 = if page == 0x02 || all then put_page 2 (zeros 16) p1 else p1 in
    if page == 0x0a || all then put_page 10 (zeros 8) p2 else p2

-- The block descriptor: `GetBlockSizeForDescriptor`, and a block count of 32 bits.
abbrev pub descriptor_size : Bool → StorageDevice → ℕ
descriptor_size changeable d = if changeable then 0x0000ffff else d.block_size

abbrev pub short_count : StorageDevice → ℕ
short_count d = if leb d.blocks 0xffffffff then d.blocks else 0xffffffff

-- `VerifyBlockSizeChange`
unfoldable pub verify_block_size_change : ℕ → Bool → StorageDevice → Outcome ℕ
verify_block_size_change requested temporary d =
    if requested == d.block_size
    then ok requested
    else if not (requested == 0) && requested % 4 == 0 && temporary
    then ok requested
    else throw SenseKey.illegal_request Asc.invalid_field_in_parameter_list

-- `EvaluateBlockDescriptors` on the bytes of the parameter list: the offset of the pages and the
-- block size.
unfoldable pub evaluate_block_descriptors : ℕ → List ℕ → StorageDevice → Outcome (ℕ × ℕ)
evaluate_block_descriptors cmd buf d =
    let required = if cmd == mode_select_10 then 8 else 4 in
    let descriptor = if cmd == mode_select_10 then get_int16 buf 6 else get_or buf 3 0 in
    let offset = descriptor + required in
    if ltb (length buf) required || ltb (length buf) offset
    then throw SenseKey.illegal_request Asc.parameter_list_length_error
    else if not (descriptor == 0) && leb (required + 8) (length buf)
    then elim (verify_block_size_change (get_int16 buf (required + 6)) true d) [
      | ok size ↦ ok (offset, size)
      | throw k a ↦ throw k a
    ]
    else ok (offset, d.block_size)

-- A round of the loop of `ModeSelect` over the pages, where `n` bytes are left from `offset` on, and
-- `rest` is the result of the rounds after it.
unfoldable pub parse_page :
    Pages → List ℕ → ℕ → ℕ → StorageDevice → Outcome (Unit {0}) → Outcome (Unit {0})
parse_page pages buf offset n d rest =
    let code = get_or buf offset 0 in
    let size = get_or buf (offset + 1) 0 + 2 in
    let invalid = throw SenseKey.illegal_request Asc.invalid_field_in_parameter_list in
    elim (find_page code pages) [
      | none ↦ invalid
      | some bytes ↦
          if code == 0
          then ok tt
          else if ltb n 2
          then throw SenseKey.illegal_request Asc.parameter_list_length_error
          else if not (length bytes == size) || ltb n size
          then invalid
          else if code == 0x01 || code == 0x07 || code == 0x08
          then rest
          else if code == 0x03
          then elim (verify_block_size_change (get_int16 buf (offset + 12)) false d) [
            | ok _ ↦ rest
            | throw k a ↦ throw k a
          ]
          else invalid
    ]

-- The loop, with fuel.
unfoldable pub parse_pages : ℕ → Pages → List ℕ → ℕ → ℕ → StorageDevice → Outcome (Unit {0})
parse_pages zero pages buf offset n d = ok tt
parse_pages (suc fuel) pages buf offset n d =
    let size = get_or buf (offset + 1) 0 + 2 in
    let rest = parse_pages fuel pages buf (offset + size) (n - size) d in
    if n == 0 then ok tt else parse_page pages buf offset n d rest

-- A call that has returned or thrown, with the state as it is.
abbrev pub result : {X A : Type 0} → Outcome A → Action X A
result o s = (o, s)

module _ {D : Type 0} where
  -- The end of MODE SENSE, by the result of `AddModePages`: the size is set in the header.
  unfoldable pub send_pages :
      List ℕ → (List ℕ → ℕ → List ℕ) → Option (ℕ × List ℕ) → Action (Storages D) (Unit {0})
  send_pages buf set_size none s =
      (throw SenseKey.illegal_request Asc.invalid_field_in_cdb, record s { buffer = buf })
  send_pages buf set_size (some (k, b)) s =
      data_in_phase (pos k) (record s { buffer = set_size b k })

-- The virtual functions: the pages of a LUN by page code and `changeable`, those of the property
-- file included, and `ChangeBlockSize`.
module _ {D : Type 0} (mode_pages : ℕ → ℕ → Bool → Controller (Storages D) → Pages) where
  -- The pages of `AddModePages` by the CDB.
  unfoldable pub cdb_pages : ℕ → Controller (Storages D) → Pages
  cdb_pages lun s =
      let control = get_cdb_byte 2 s in mode_pages lun (control % 2 ^ 6) (control / 2 ^ 6 == 1) s

  -- The end of MODE SENSE: the pages after the first `size` bytes, and the size in the header.
  unfoldable pub reply_pages :
      ℕ → ℕ → ℕ → ℕ → List ℕ → (List ℕ → ℕ → List ℕ) → Action (Storages D) (Unit {0})
  unfolding cdb_pages
  reply_pages lun size n max_size buf set_size s =
      let added = add_mode_pages (cdb_pages lun s) buf size n max_size in
      if get_cdb_byte 2 s % 2 ^ 6 == 0
      then send_pages buf set_size (some (size, buf)) s
      else send_pages buf set_size added s

  -- `ModeSense6`
  unfoldable pub reply_mode_sense_6 : ℕ → PrimaryDevice → Action (Storages D) (Unit {0})
  reply_mode_sense_6 lun p s =
      let d = s.extra.storage lun in
      let n = min (length s.buffer) (get_cdb_byte 4 s) in
      let b0 = write_at s.buffer 0 (zeros n) in
      let b1 = if p.device.write_protected then set b0 2 0x80 else b0 in
      let described = not (test_bit 3 (get_cdb_byte 1 s)) && p.device.ready in
      let changeable = test_bit 6 (get_cdb_byte 2 s) in
      let b2 =
        set_int32 (set_int32 (set b1 3 0x08) 4 (short_count d)) 8 (descriptor_size changeable d) in
      if not (get_cdb_byte 3 s == 0)
      then (throw SenseKey.illegal_request Asc.invalid_field_in_cdb, s)
      else reply_pages lun (if described then 12 else 4) n 255 (if described then b2 else b1)
          (λ b k. set b 0 ((k + 2 ^ 8 - 1) % 2 ^ 8)) s

  unfoldable pub mode_sense_6_command : ℕ → Action (Storages D) (Unit {0})
  mode_sense_6_command lun = with_device lun (reply_mode_sense_6 lun)

  -- `ModeSense10`
  unfoldable pub reply_mode_sense_10 : ℕ → PrimaryDevice → Action (Storages D) (Unit {0})
  reply_mode_sense_10 lun p s =
      let d = s.extra.storage lun in
      let n = min (length s.buffer) (get_int16 s.cdb 7) in
      let b0 = write_at s.buffer 0 (zeros n) in
      let b1 = if p.device.write_protected then set b0 3 0x80 else b0 in
      let described = not (test_bit 3 (get_cdb_byte 1 s)) && p.device.ready in
      let long = test_bit 4 (get_cdb_byte 1 s) in
      let changeable = test_bit 6 (get_cdb_byte 2 s) in
      let short_list =
        set_int32 (set_int32 (set b1 7 0x08) 8 (short_count d)) 12 (descriptor_size changeable d) in
      let long_list =
        set_int32 (set_int64 (set (set b1 4 0x01) 7 0x10) 8 d.blocks) 20
          (descriptor_size changeable d) in
      if not (get_cdb_byte 3 s == 0)
      then (throw SenseKey.illegal_request Asc.invalid_field_in_cdb, s)
      else reply_pages lun (if not described then 8 else if long then 24 else 16) n 65535
          (if not described then b1 else if long then long_list else short_list)
          (λ b k. set_int16 b 0 ((k + 2 ^ 16 - 2) % 2 ^ 16)) s

  unfoldable pub mode_sense_10_command : ℕ → Action (Storages D) (Unit {0})
  mode_sense_10_command lun = with_device lun (reply_mode_sense_10 lun)

module _ {D : Type 0} (mode_pages : ℕ → ℕ → Bool → Controller (Storages D) → Pages)
    (change_block_size : ℕ → ℕ → Action (Storages D) (Unit {0})) where
  -- `ModeSelect` after the block descriptors
  unfoldable pub select_pages : ℕ → ℕ → ℕ × ℕ → Action (Storages D) (Unit {0})
  unfolding update_storage
  select_pages lun n (offset, size) s0 =
      let s =
        update_storage lun (λ d. if size == 0 then d else record d { block_size = size }) s0 in
      let rest = n - offset in
      let parsed =
        parse_pages rest (mode_pages lun 0x3f true s) s.buffer offset rest (s.extra.storage lun) in
      if not (test_bit 4 (get_cdb_byte 1 s))
      then (ok tt, s)
      else (result parsed >>= λ _. change_block_size lun size) s

  -- `ModeSelect` on a parameter list of `n` bytes
  unfoldable pub mode_select : ℕ → ℕ → Action (Storages D) (Unit {0})
  mode_select lun n s =
      let described =
        evaluate_block_descriptors (opcode s) (take n s.buffer) (s.extra.storage lun) in
      if n == 0 then (ok tt, s) else (result described >>= select_pages lun n) s
