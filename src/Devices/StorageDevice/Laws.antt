-- ===== src/Devices/StorageDevice/Laws.antt =====
-- The commands of cpp/devices/storage_device.cpp keep the law that the controller expects of a
-- device.
use piscsi.Common.{
  ℕ, refl, Bool, false, not, ◌&&◌, Option, none, some, if_intro, ◌==◌, arith, test_bit,
}
use piscsi.Scsi.{start_stop, prevent_allow_medium_removal}
use piscsi.Base.Device
use piscsi.Base.PrimaryDevice.{PrimaryDevice}
use piscsi.Controllers.State.{Controller, Action, update_device, get_cdb_byte}
use piscsi.Controllers.Laws.Lines.{IsConsistent, same_bus}
use piscsi.Controllers.Laws.Primary.{
  KeepsConsistent, Result, Kept, keep, Entry, with_device-KeepsConsistent,
  ready_then-KeepsConsistent, status_phase-KeepsConsistent, dispatch-KeepsConsistent,
}
use piscsi.Devices.StorageDevice.{
  Storages, is_unnamed, update_storage, reserve_file, unreserve_file, check_write_preconditions,
  dispatch_command, lock_medium, prevent_allow_command,
}
use piscsi.Devices.StorageDevice.StartStop.{
  release_medium, eject_device, eject, eject_command, load_command, start_stop_unit,
  storage_commands,
}

module _ {D : Type 0} where
  -- A function on the state that keeps the agreement of lines and phase.
  abbrev pub KeepsLines : (Controller (Storages D) → Controller (Storages D)) → Type 0
  KeepsLines f = (s : Controller (Storages D)) → IsConsistent s → IsConsistent (f s)

  unreserve_file-KeepsLines : (lun : ℕ) → KeepsLines (unreserve_file lun)
  unfolding unreserve_file update_storage
  unreserve_file-KeepsLines lun s c = same_bus c refl refl

  pub check_write_preconditions-KeepsConsistent :
      (lun : ℕ) → KeepsConsistent (check_write_preconditions {D = D} lun)
  unfolding check_write_preconditions
  check_write_preconditions-KeepsConsistent lun =
      with_device-KeepsConsistent lun _ λ d s c. if_intro Result _ c c

  pub dispatch_command-KeepsConsistent :
      (commands : ℕ → Option (Action (Storages D) (Unit {0}))) (lun cmd : ℕ)
      → Entry (commands cmd)
      → KeepsConsistent (dispatch_command commands lun cmd)
  unfolding dispatch_command update_storage
  dispatch_command-KeepsConsistent commands lun cmd k s c =
      if_intro Result _ (same_bus c refl refl) (dispatch-KeepsConsistent commands cmd k s c)

  prevent_allow_command-KeepsConsistent :
      (lun : ℕ) → KeepsConsistent (prevent_allow_command {D = D} lun)
  unfolding prevent_allow_command lock_medium update_device
  prevent_allow_command-KeepsConsistent lun =
      ready_then-KeepsConsistent lun (lock_medium lun)
        λ s c. status_phase-KeepsConsistent _ (same_bus c refl refl)

  reserve_file-IsConsistent :
      (lun : ℕ) (s : Controller (Storages D)) → IsConsistent s → IsConsistent (reserve_file lun s).1
  unfolding reserve_file
  reserve_file-IsConsistent lun s c = ground (arith, c)

  load_command-KeepsConsistent : (lun : ℕ) → KeepsConsistent (load_command {D = D} lun)
  unfolding load_command update_storage
  load_command-KeepsConsistent lun s c =
      let s1 = update_storage lun (λ d. record d { filename = d.last_filename }) s in
      let c2 = reserve_file-IsConsistent lun s1 (same_bus c refl refl) in
      if_intro Result (not (reserve_file lun s1).0) c2
        (status_phase-KeepsConsistent _ (same_bus c2 refl refl))

module _ {D : Type 0}
    (flush_cache after_eject : ℕ → Controller (Storages D) → Controller (Storages D))
    (flush-law : (lun : ℕ) → KeepsLines (flush_cache lun))
    (after-law : (lun : ℕ) → KeepsLines (after_eject lun)) where
  release_medium-KeepsLines : (lun : ℕ) → KeepsLines (release_medium flush_cache after_eject lun)
  unfolding release_medium unreserve_file update_storage
  release_medium-KeepsLines lun s c = same_bus (flush-law lun s c) refl refl

  eject_device-IsConsistent :
      (lun : ℕ) (force : Bool) (o : Option PrimaryDevice) (s : Controller (Storages D))
      → IsConsistent s
      → IsConsistent (eject_device flush_cache after_eject lun force o s).1
  unfolding eject_device update_device
  eject_device-IsConsistent lun force none s c = c
  eject_device-IsConsistent lun force (some d) s c =
      let s' = update_device lun (λ e. record e { device = (Device.eject force d.device).1 }) s in
      let c' : IsConsistent s' = same_bus c refl refl in
      ground (arith, c, after-law lun _ (release_medium-KeepsLines lun s' c'))

  eject_command-KeepsConsistent :
      (lun : ℕ) → KeepsConsistent (eject_command flush_cache after_eject lun)
  unfolding eject_command eject
  eject_command-KeepsConsistent lun = with_device-KeepsConsistent lun _ λ d s c.
      let c' = eject_device-IsConsistent lun false (s.luns lun) s c in
      ground (arith, c, c', status_phase-KeepsConsistent _ c')

  start_stop_unit-KeepsConsistent :
      (lun : ℕ) → KeepsConsistent (start_stop_unit flush_cache after_eject lun)
  unfolding start_stop_unit update_device
  start_stop_unit-KeepsConsistent lun s c =
      let start = test_bit 0 (get_cdb_byte 4 s) in
      let load = test_bit 1 (get_cdb_byte 4 s) in
      let named = not (is_unnamed (s.extra.storage lun).last_filename) in
      let stopped =
        update_device lun (λ d. record d { device = record (d.device) { stopped = not start } })
          s in
      let c1 : IsConsistent stopped = same_bus c refl refl in
      let c2 = if_intro IsConsistent load {x = s} {y = stopped} c c1 in
      let all : Kept (start_stop_unit flush_cache after_eject lun s) =
        if_intro Kept (not start && load) (keep (eject_command-KeepsConsistent lun s c)) (
          if_intro Kept (not start)
            (keep (status_phase-KeepsConsistent _ (flush-law lun stopped c1)))
            (if_intro Kept (load && named) (keep (load_command-KeepsConsistent lun s c))
              (keep (status_phase-KeepsConsistent _ c2)))) in
      all.kept

  -- The functions of the array that `SetUp` adds to, where those of the others keep the agreement.
  pub storage_commands-Entry :
      (lun cmd : ℕ) (others : ℕ → Option (Action (Storages D) (Unit {0})))
      → Entry (others cmd)
      → Entry (storage_commands flush_cache after_eject lun others cmd)
  unfolding storage_commands
  storage_commands-Entry lun cmd others e =
      if_intro Entry (cmd == start_stop) (start_stop_unit-KeepsConsistent lun) (
        if_intro Entry (cmd == prevent_allow_medium_removal)
          (prevent_allow_command-KeepsConsistent lun) e)
