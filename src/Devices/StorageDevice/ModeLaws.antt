-- ===== src/Devices/StorageDevice/ModeLaws.antt =====
-- MODE SENSE and MODE SELECT of cpp/devices/storage_device.cpp and page_handler.cpp keep the law that
-- the controller expects of a device.
use piscsi.Common.{
  ℕ, ◌-◌, ◌%◌, ◌^◌, refl, Bool, true, not, Option, none, some, List, if◌then◌else◌, if_intro, ◌==◌,
  test_bit, take,
}
use piscsi.Controllers.State.{Controller, Action, get_cdb_byte, opcode}
use piscsi.Controllers.Laws.Lines.{IsConsistent, same_bus}
use piscsi.Controllers.Laws.Primary.{
  KeepsConsistent, Result, with_device-KeepsConsistent, >>=-KeepsConsistent,
  data_in_phase-KeepsConsistent, data_out_phase-KeepsConsistent,
}
use piscsi.Devices.PageHandler.{Pages, add_mode_pages, mode_select_command}
use piscsi.Devices.StorageDevice.{Storages, update_storage}
use piscsi.Devices.StorageDevice.ModePages.{
  result, send_pages, cdb_pages, reply_pages, mode_sense_6_command, reply_mode_sense_6,
  mode_sense_10_command, reply_mode_sense_10, parse_pages, select_pages, mode_select,
  evaluate_block_descriptors,
}

pub mode_select_command-KeepsConsistent :
    {X : Type 0} (m p : Bool) (n : ℕ) → KeepsConsistent (mode_select_command {X = X} m p n)
unfolding mode_select_command
mode_select_command-KeepsConsistent m p n s c =
    if_intro Result _ c (data_out_phase-KeepsConsistent _ s c)

module _ {D : Type 0} where
  send_pages-KeepsConsistent :
      (buf : List ℕ) (set_size : List ℕ → ℕ → List ℕ) (o : Option (ℕ × List ℕ))
      → KeepsConsistent (send_pages {D = D} buf set_size o)
  unfolding send_pages
  send_pages-KeepsConsistent buf set_size none s c = same_bus c refl refl
  send_pages-KeepsConsistent buf set_size (some (k, b)) s c =
      data_in_phase-KeepsConsistent _ _ (same_bus c refl refl)

module _ {D : Type 0} (mode_pages : ℕ → ℕ → Bool → Controller (Storages D) → Pages) where
  reply_pages-KeepsConsistent :
      (lun size n max_size : ℕ) (buf : List ℕ) (set_size : List ℕ → ℕ → List ℕ)
      → KeepsConsistent (reply_pages mode_pages lun size n max_size buf set_size)
  unfolding reply_pages
  reply_pages-KeepsConsistent lun size n max_size buf set_size s c =
      let added = add_mode_pages (cdb_pages mode_pages lun s) buf size n max_size in
      if_intro Result (get_cdb_byte 2 s % 2 ^ 6 == 0)
        (send_pages-KeepsConsistent buf set_size (some (size, buf)) s c)
        (send_pages-KeepsConsistent buf set_size added s c)

  pub mode_sense_6_command-KeepsConsistent :
      (lun : ℕ) → KeepsConsistent (mode_sense_6_command mode_pages lun)
  unfolding mode_sense_6_command reply_mode_sense_6
  mode_sense_6_command-KeepsConsistent lun =
      with_device-KeepsConsistent lun (reply_mode_sense_6 mode_pages lun)
        λ d s c. if_intro Result _ c (reply_pages-KeepsConsistent lun _ _ _ _ _ s c)

  pub mode_sense_10_command-KeepsConsistent :
      (lun : ℕ) → KeepsConsistent (mode_sense_10_command mode_pages lun)
  unfolding mode_sense_10_command reply_mode_sense_10
  mode_sense_10_command-KeepsConsistent lun =
      with_device-KeepsConsistent lun (reply_mode_sense_10 mode_pages lun)
        λ d s c. if_intro Result _ c (reply_pages-KeepsConsistent lun _ _ _ _ _ s c)

  module _ (change_block_size : ℕ → ℕ → Action (Storages D) (Unit {0}))
      (change-law : (lun size : ℕ) → KeepsConsistent (change_block_size lun size)) where
    select_pages-KeepsConsistent :
        (lun n : ℕ) (r : ℕ × ℕ)
        → KeepsConsistent (select_pages mode_pages change_block_size lun n r)
    unfolding select_pages update_storage
    select_pages-KeepsConsistent lun n (offset, size) s0 c0 =
        let s =
          update_storage lun (λ d. if size == 0 then d else record d { block_size = size }) s0 in
        let rest = n - offset in
        let parsed =
          parse_pages rest (mode_pages lun 0x3f true s) s.buffer offset rest
            (s.extra.storage lun) in
        let c : IsConsistent s = same_bus c0 refl refl in
        if_intro Result (not (test_bit 4 (get_cdb_byte 1 s))) c (
          >>=-KeepsConsistent (result parsed) (λ _. change_block_size lun size) (λ t d. d)
            (λ _. change-law lun size) s c)

    pub mode_select-KeepsConsistent :
        (lun n : ℕ) → KeepsConsistent (mode_select mode_pages change_block_size lun n)
    unfolding mode_select
    mode_select-KeepsConsistent lun n s c =
        let described =
          evaluate_block_descriptors (opcode s) (take n s.buffer) (s.extra.storage lun) in
        if_intro Result (n == 0) c (
          >>=-KeepsConsistent (result described) (select_pages mode_pages change_block_size lun n)
            (λ t d. d) (select_pages-KeepsConsistent lun n) s c)
