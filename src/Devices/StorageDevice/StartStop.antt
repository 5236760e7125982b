-- ===== src/Devices/StorageDevice/StartStop.antt =====
-- START STOP UNIT and the eject of cpp/devices/storage_device.cpp, and the array of the commands of
-- a storage device.
use piscsi.Common.{
  ℕ, Bool, true, false, not, ◌&&◌, Option, none, some, if◌then◌else◌, ◌==◌, test_bit,
}
use piscsi.Scsi.{SenseKey, Asc, start_stop, prevent_allow_medium_removal}
use piscsi.Base.Device
use piscsi.Base.PrimaryDevice.{PrimaryDevice}
use piscsi.Controllers.State.{Controller, throw, Action, get_cdb_byte, update_device}
use piscsi.Controllers.Device.{status_phase, with_device}
use piscsi.Devices.StorageDevice.{
  Storages, is_unnamed, update_storage, reserve_file, unreserve_file, prevent_allow_command,
}

module _ {D : Type 0} where
  -- `StartStopUnit` where the last medium is to be loaded
  unfoldable pub load_command : ℕ → Action (Storages D) (Unit {0})
  unfolding update_storage
  load_command lun s =
      let s1 = update_storage lun (λ d. record d { filename = d.last_filename }) s in
      let (reserved, s2) = reserve_file lun s1 in
      if not reserved
      then (throw SenseKey.illegal_request Asc.medium_load_or_eject_failed, s2)
      else status_phase (update_storage lun (λ d. record d { medium_changed = true }) s2)

-- The functions that the derived class overrides: `FlushCache`, and the end of `Eject`.
module _ {D : Type 0} (flush_cache : ℕ → Controller (Storages D) → Controller (Storages D))
    (after_eject : ℕ → Controller (Storages D) → Controller (Storages D)) where
  -- `StorageDevice::Eject` after a successful `Device::Eject`
  unfoldable pub release_medium : ℕ → Controller (Storages D) → Controller (Storages D)
  unfolding update_storage unreserve_file
  release_medium lun s =
      let s1 =
        update_storage lun (λ d. record d { last_filename = d.filename }) (flush_cache lun s) in
      update_storage lun (λ d. record d { block_read_count = 0; block_write_count = 0 })
        (unreserve_file lun s1)

  -- `Eject` on the device of a LUN
  unfoldable pub eject_device :
      ℕ → Bool → Option PrimaryDevice → Controller (Storages D) → Bool × Controller (Storages D)
  unfolding update_device
  eject_device lun force none s = (false, s)
  eject_device lun force (some d) s =
      let (status, dev) = Device.eject force d.device in
      let s' = update_device lun (λ e. record e { device = dev }) s in
      if status then (true, after_eject lun (release_medium lun s')) else (false, s)

  unfoldable pub eject : ℕ → Bool → Controller (Storages D) → Bool × Controller (Storages D)
  eject lun force s = eject_device lun force (s.luns lun) s

  -- `StartStopUnit` where the medium is to be ejected
  unfoldable pub eject_command : ℕ → Action (Storages D) (Unit {0})
  eject_command lun = with_device lun λ d s.
      let (ejected, s') = eject lun false s in
      if d.device.locked
      then (throw SenseKey.illegal_request Asc.medium_load_or_eject_failed, s)
      else if not ejected
      then (throw SenseKey.illegal_request Asc.medium_load_or_eject_failed, s')
      else status_phase s'

  -- `StartStopUnit`
  unfoldable pub start_stop_unit : ℕ → Action (Storages D) (Unit {0})
  unfolding update_device
  start_stop_unit lun s =
      let start = test_bit 0 (get_cdb_byte 4 s) in
      let load = test_bit 1 (get_cdb_byte 4 s) in
      let stopped =
        update_device lun (λ d. record d { device = record (d.device) { stopped = not start } })
          s in
      if not start && load
      then eject_command lun s
      else if not start
      then status_phase (flush_cache lun stopped)
      else if load && not (is_unnamed (s.extra.storage lun).last_filename)
      then load_command lun s
      else status_phase (if load then s else stopped)

  -- The commands that `StorageDevice::SetUp` adds to others.
  unfoldable pub storage_commands :
      ℕ
      → (ℕ → Option (Action (Storages D) (Unit {0})))
      → ℕ
      → Option (Action (Storages D) (Unit {0}))
  storage_commands lun others cmd =
      if cmd == start_stop
      then some (start_stop_unit lun)
      else if cmd == prevent_allow_medium_removal
      then some (prevent_allow_command lun)
      else others cmd
