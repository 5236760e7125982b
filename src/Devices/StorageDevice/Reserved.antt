-- ===== src/Devices/StorageDevice/Reserved.antt =====
-- The image files in use, and the report of a change of the medium: cpp/devices/storage_device.cpp.
use piscsi.Common.{
  ℕ, ◌≡◌, refl, ap, ◌∙◌, true, false, ◌||◌, Option, none, some, List, [], ◌∷◌, if◌then◌else◌, ◌==◌,
  arith, if_true,
}
use piscsi.Scsi.{SenseKey, Asc, inquiry, request_sense}
use piscsi.Controllers.State.{Controller, throw, Action}
use piscsi.Controllers.Device.{dispatch}
use piscsi.Devices.StorageDevice.{
  Filename, Storages, Reservation, same_name, get_ids_for_reserved_file, erase, set_reserved_files,
  reserve_file, unreserve_file, update_storage, dispatch_command,
}

same_name_refl : (f : Filename) → same_name f f ≡ true
same_name_refl [] = refl
same_name_refl (x ∷ xs) = ground (arith, same_name_refl xs)

same_name-eq : (f g : Filename) → same_name f g ≡ true → f ≡ g
same_name-eq [] [] h = refl
same_name-eq [] (y ∷ ys) h = cc h
same_name-eq (x ∷ xs) [] h = cc h
same_name-eq (x ∷ xs) (y ∷ ys) h = ground (arith, same_name-eq xs ys)

-- After an erase the file is not in use, and the others are used as before.
pub get_ids-erase :
    (f g : Filename) (rs : List Reservation)
    → get_ids_for_reserved_file g (erase f rs)
      ≡ (if same_name g f then none else get_ids_for_reserved_file g rs)
unfolding get_ids_for_reserved_file erase
get_ids-erase f g [] = ground arith
get_ids-erase f g (r ∷ rs) = ground (
  arith,
  get_ids-erase f g rs,
  same_name-eq g f,
  same_name-eq f r.file,
  same_name-eq g r.file,
  same_name_refl g,
  same_name_refl f,
)

module _ {D : Type 0} where
  -- What a successful call of `ReserveFile` has done.
  reserve_file-entry :
      (lun : ℕ) (s : Controller (Storages D))
      → (reserve_file lun s).0 ≡ true
      → ((reserve_file lun s).1
          ≡ set_reserved_files
              (record { file = (s.extra.storage lun).filename; id = s.target_id; lun = lun }
                ∷ s.extra.reserved_files)
              s)
        × (get_ids_for_reserved_file (s.extra.storage lun).filename s.extra.reserved_files ≡ none)
  unfolding reserve_file
  reserve_file-entry lun s h = (ground arith, ground arith)

  reserve_file-used :
      (lun : ℕ) (s : Controller (Storages D)) (ids : ℕ × ℕ)
      → get_ids_for_reserved_file (s.extra.storage lun).filename s.extra.reserved_files ≡ some ids
      → reserve_file lun s ≡ (false, s)
  unfolding reserve_file
  reserve_file-used lun s ids h = ground (arith, h)

  -- A file can be reserved once: after a successful call the file of the device is in use by its
  -- target and LUN, and a second call for it, on a LUN with the same file, fails and changes nothing.
  pub reserve_file-twice :
      (lun other : ℕ) (s : Controller (Storages D))
      → (reserve_file lun s).0 ≡ true
      → (s.extra.storage other).filename ≡ (s.extra.storage lun).filename
      → (get_ids_for_reserved_file
            (s.extra.storage lun).filename
            (reserve_file lun s).1.extra.reserved_files
          ≡ some (s.target_id, lun))
        × (reserve_file other (reserve_file lun s).1 ≡ (false, (reserve_file lun s).1))
  unfolding get_ids_for_reserved_file
  reserve_file-twice lun other s h e =
      let f = (s.extra.storage lun).filename in
      let t = (reserve_file lun s).1 in
      let entry = (reserve_file-entry lun s h).0 in
      let used : get_ids_for_reserved_file f t.extra.reserved_files ≡ some (s.target_id, lun) =
        ap (λ (r : Controller (Storages D)). get_ids_for_reserved_file f r.extra.reserved_files)
          entry
        ∙ if_true _ _ (same_name_refl f) in
      let name : (t.extra.storage other).filename ≡ f =
        ap (λ (r : Controller (Storages D)). (r.extra.storage other).filename) entry ∙ e in
      (
        used,
        reserve_file-used other t (s.target_id, lun)
            (ap (λ n. get_ids_for_reserved_file n t.extra.reserved_files) name ∙ used),
      )

  -- What a reservation followed by its end leaves: each file is in use as before.
  pub unreserve_file-reserve_file :
      (lun : ℕ) (s : Controller (Storages D)) (g : Filename)
      → (reserve_file lun s).0 ≡ true
      → get_ids_for_reserved_file g (unreserve_file lun (reserve_file lun s).1).extra.reserved_files
        ≡ get_ids_for_reserved_file g s.extra.reserved_files
  unfolding unreserve_file update_storage get_ids_for_reserved_file
  unreserve_file-reserve_file lun s g h =
      let f = (s.extra.storage lun).filename in
      let (entry, free) = reserve_file-entry lun s h in
      let r : Reservation = record { file = f; id = s.target_id; lun = lun } in
      ap
        (λ (t : Controller (Storages D)).
          get_ids_for_reserved_file g (unreserve_file lun t).extra.reserved_files)
        entry
      ∙ get_ids-erase f g (r ∷ s.extra.reserved_files)
      ∙ ground (arith, free, same_name-eq g f)

  -- A change of the medium is reported by the first command but INQUIRY and REQUEST SENSE, and only
  -- by it: the next command is executed.
  pub dispatch_command-once :
      (commands : ℕ → Option (Action (Storages D) (Unit {0}))) (lun cmd next : ℕ)
      (s : Controller (Storages D))
      → (s.extra.storage lun).medium_changed ≡ true
      → cmd == inquiry || cmd == request_sense ≡ false
      → ((dispatch_command commands lun cmd s).0
          ≡ throw SenseKey.unit_attention Asc.not_ready_to_ready_change)
        × (dispatch_command commands lun next (dispatch_command commands lun cmd s).1
            ≡ dispatch commands next (dispatch_command commands lun cmd s).1)
  unfolding dispatch_command update_storage
  dispatch_command-once commands lun cmd next s h e = (ground arith, ground arith)
