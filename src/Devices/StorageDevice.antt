-- ===== src/Devices/StorageDevice.antt =====
-- cpp/devices/storage_device.h and .cpp: the state of the devices with an image file, the files that
-- are in use, and the commands of all these devices.
--
-- `D` is the state that the derived class adds for each LUN. A file name is the list of its
-- characters, the empty list for none. The flags for mode pages, the statistics and the log are left
-- out.
pub mod Laws
pub mod ModeLaws
pub mod Reserved
pub mod Selecting
pub mod StartStop
pub mod Validation
pub mod Validated
pub mod ModePages
use piscsi.Common.{
  ℕ, ◌+◌, ◌*◌, ◌/◌, ◌%◌, ◌^◌, Bool, true, false, not, ◌&&◌, ◌||◌, Option, none, some, List, [], ◌∷◌,
  if◌then◌else◌, ltb, ◌==◌, test_bit,
}
use piscsi.Scsi.{SenseKey, Asc, inquiry, request_sense}
use piscsi.Controllers.State.{
  Controller, ok, throw, Action, ◌>>=◌, ◌>>◌, raise, run, get_cdb_byte, update_device,
}
use piscsi.Controllers.Device.{status_phase, check_ready, dispatch, with_device}

abbrev pub Filename : Type 0
Filename = List ℕ

pub record StorageDevice : Type 0 where
  pub blocks : ℕ
  pub supported_block_sizes : List ℕ
  pub configured_block_size : ℕ
  pub block_size : ℕ
  pub filename : Filename
  pub last_filename : Filename
  pub medium_changed : Bool
  pub block_read_count : ℕ
  pub block_write_count : ℕ

-- An entry of `reserved_files`.
pub record Reservation : Type 0 where
  pub file : Filename
  pub id : ℕ
  pub lun : ℕ

-- What the devices with an image file add to the state of a controller.
pub record Storages (D : Type 0) : Type 0 where
  pub storage : ℕ → StorageDevice
  pub reserved_files : List Reservation
  pub unit : ℕ → D

abbrev pub same_name : Filename → Filename → Bool
same_name [] [] = true
same_name [] (y ∷ ys) = false
same_name (x ∷ xs) [] = false
same_name (x ∷ xs) (y ∷ ys) = x == y && same_name xs ys

abbrev pub is_unnamed : Filename → Bool
is_unnamed [] = true
is_unnamed (x ∷ xs) = false

abbrev pub contains : ℕ → List ℕ → Bool
contains n [] = false
contains n (x ∷ xs) = n == x || contains n xs

-- The look-up in `reserved_files`, `GetIdsForReservedFile`.
unfoldable pub get_ids_for_reserved_file : Filename → List Reservation → Option (ℕ × ℕ)
get_ids_for_reserved_file f [] = none
get_ids_for_reserved_file f (r ∷ rs) =
    if same_name f r.file then some (r.id, r.lun) else get_ids_for_reserved_file f rs

-- `reserved_files.erase(f)`
unfoldable pub erase : Filename → List Reservation → List Reservation
erase f [] = []
erase f (r ∷ rs) = if same_name f r.file then erase f rs else r ∷ erase f rs

-- `SetBlockSize`, `SetConfiguredBlockSize` and `ValidateBlockSize`
unfoldable pub set_block_size : ℕ → StorageDevice → Bool × StorageDevice
set_block_size size d =
    if not (contains size d.supported_block_sizes) && not (d.configured_block_size == size)
    then (false, d)
    else (true, record d { block_size = size })

unfoldable pub set_configured_block_size : ℕ → StorageDevice → Bool × StorageDevice
set_configured_block_size size d =
    if contains size d.supported_block_sizes
    then (true, record d { configured_block_size = size })
    else (false, d)

-- `ChangeBlockSize`: whether the size is accepted, and the device; the capacity in bytes is kept but
-- for a rest.
unfoldable pub change_block_size : ℕ → StorageDevice → Bool × StorageDevice
change_block_size new_size d =
    if new_size == 0 || (not (contains new_size d.supported_block_sizes) && not (new_size % 4 == 0))
    then (false, d)
    else if not (new_size == d.block_size)
    then (
      true,
      record d { block_size = new_size; blocks = d.block_size * d.blocks % 2 ^ 64 / new_size },
    )
    else (true, d)

abbrev is_reserved : Option (ℕ × ℕ) → Bool
is_reserved none = false
is_reserved (some _) = true

module _ {D : Type 0} where
  abbrev pub with_storage :
      {A : Type 0} → ℕ → (StorageDevice → Action (Storages D) A) → Action (Storages D) A
  with_storage lun f s = f (s.extra.storage lun) s

  unfoldable pub update_storage :
      ℕ → (StorageDevice → StorageDevice) → Controller (Storages D) → Controller (Storages D)
  update_storage lun f s = record s {
    extra = record (s.extra) {
      storage = λ l. if l == lun then f (s.extra.storage l) else s.extra.storage l;
    };
  }

  abbrev pub set_reserved_files :
      List Reservation → Controller (Storages D) → Controller (Storages D)
  set_reserved_files rs s = record s { extra = record (s.extra) { reserved_files = rs } }

  -- `ReserveFile`
  unfoldable pub reserve_file : ℕ → Controller (Storages D) → Bool × Controller (Storages D)
  reserve_file lun s =
      let f = (s.extra.storage lun).filename in
      let rs = s.extra.reserved_files in
      if is_unnamed f || is_reserved (get_ids_for_reserved_file f rs)
      then (false, s)
      else (true, set_reserved_files (record { file = f; id = s.target_id; lun = lun } ∷ rs) s)

  -- `UnreserveFile`
  unfoldable pub unreserve_file : ℕ → Controller (Storages D) → Controller (Storages D)
  unfolding update_storage
  unreserve_file lun s =
      let f = (s.extra.storage lun).filename in
      update_storage lun (λ d. record d { filename = [] })
        (set_reserved_files (erase f s.extra.reserved_files) s)

  -- `CheckWritePreconditions`
  unfoldable pub check_write_preconditions : ℕ → Action (Storages D) (Unit {0})
  check_write_preconditions lun = with_device lun λ d s.
      if d.device.write_protected
      then (throw SenseKey.data_protect Asc.write_protected, s)
      else (ok tt, s)

  -- `Dispatch`, on the array `commands`: a change of the medium is reported first.
  unfoldable pub dispatch_command :
      (ℕ → Option (Action (Storages D) (Unit {0}))) → ℕ → ℕ → Action (Storages D) (Unit {0})
  unfolding update_storage
  dispatch_command commands lun cmd s =
      if not (cmd == inquiry) && not (cmd == request_sense) && (s.extra.storage lun).medium_changed
      then (
        throw SenseKey.unit_attention Asc.not_ready_to_ready_change,
        update_storage lun (λ d. record d { medium_changed = false }) s,
      )
      else dispatch commands cmd s

  -- `PreventAllowMediumRemoval` on a device that is ready
  unfoldable pub lock_medium : ℕ → Action (Storages D) (Unit {0})
  unfolding update_device
  lock_medium lun s =
      let locked = test_bit 0 (get_cdb_byte 4 s) in
      status_phase
        (update_device lun (λ d. record d { device = record (d.device) { locked = locked } }) s)

  unfoldable pub prevent_allow_command : ℕ → Action (Storages D) (Unit {0})
  prevent_allow_command lun = check_ready lun >> lock_medium lun
