-- ===== src/Devices/Disk/BlockSize.antt =====
-- What MODE SELECT changes of a disk: cpp/devices/storage_device.cpp and disk.cpp.
use piscsi.Common.{
  subst, ℕ, ◌-◌, ◌≡◌, refl, sym, Bool, true, not, ◌||◌, if◌then◌else◌, ◌==◌, arith, test_bit, take,
  if_intro,
}
use piscsi.Controllers.State.{Controller, Outcome, ok, throw, get_cdb_byte, opcode, ◌>>=◌}
use piscsi.Devices.PageHandler.{Pages}
use piscsi.Devices.StorageDevice.{StorageDevice, update_storage}
use piscsi.Devices.StorageDevice
use piscsi.Devices.StorageDevice.ModePages.{
  result, select_pages, mode_select, evaluate_block_descriptors, parse_pages,
}
use piscsi.Devices.Disk.{Disks}
use piscsi.Devices.Disk.Commands.{change_block_size}

-- Two states with the same disks, but for the block sizes.
pub record SameDisks (s t : Controller Disks) : Type 0 where
  pub unit : t.extra.unit ≡ s.extra.unit
  pub blocks : (lun : ℕ) → (t.extra.storage lun).blocks ≡ (s.extra.storage lun).blocks

-- The change to the size that a device has already, or to none, changes nothing.
change_block_size-same :
    (lun size : ℕ) (s : Controller Disks)
    → (size == 0 || size == (s.extra.storage lun).block_size) ≡ true
    → (change_block_size lun size s).1 ≡ s
unfolding change_block_size StorageDevice.change_block_size
change_block_size-same lun size s h = ground (arith, h)

after_parse :
    (lun size : ℕ) (s : Controller Disks) (o : Outcome (Unit {0}))
    → (size == 0 || size == (s.extra.storage lun).block_size) ≡ true
    → ((result o >>= λ _. change_block_size lun size) s).1 ≡ s
after_parse lun size s (ok tt) h = change_block_size-same lun size s h
after_parse lun size s (throw k a) h = refl

-- The state in which the pages are parsed.
abbrev resized : ℕ → ℕ → Controller Disks → Controller Disks
resized lun size = update_storage lun (λ d. if size == 0 then d else record d { block_size = size })

resized-SameDisks : (lun size : ℕ) (s : Controller Disks) → SameDisks s (resized lun size s)
unfolding update_storage
resized-SameDisks lun size s = record { unit = refl; blocks = λ l. ground arith }

resized-size :
    (lun size : ℕ) (s : Controller Disks)
    → (size == 0 || size == ((resized lun size s).extra.storage lun).block_size) ≡ true
unfolding update_storage
resized-size lun size s = ground arith

module _ (mode_pages : ℕ → ℕ → Bool → Controller Disks → Pages) where
  select_pages-SameDisks :
      (lun n offset size : ℕ) (s : Controller Disks)
      → SameDisks s (select_pages mode_pages change_block_size lun n (offset, size) s).1
  unfolding select_pages
  select_pages-SameDisks lun n offset size s =
      let t = resized lun size s in
      let rest = n - offset in
      let parsed =
        parse_pages rest (mode_pages lun 0x3f true t) t.buffer offset rest (t.extra.storage lun) in
      let same = resized-SameDisks lun size s in
      if_intro (λ (r : Outcome (Unit {0}) × Controller Disks). SameDisks s (r.1))
        (not (test_bit 4 (get_cdb_byte 1 s))) {x = (ok tt, t)}
        {y = (result parsed >>= λ _. change_block_size lun size) t} same
        (subst (SameDisks s) (sym (after_parse lun size t parsed (resized-size lun size s))) same)

  -- MODE SELECT leaves the number of sectors, the cache and the image file of each disk as they are,
  -- also where it changes the size of the sectors.
  pub mode_select-SameDisks :
      (lun n : ℕ) (s : Controller Disks)
      → SameDisks s (mode_select mode_pages change_block_size lun n s).1
  unfolding mode_select
  mode_select-SameDisks lun n s =
      let described =
        evaluate_block_descriptors (opcode s) (take n s.buffer) (s.extra.storage lun) in
      let same : SameDisks s s = record { unit = refl; blocks = λ l. refl } in
      if_intro (λ (r : Outcome (Unit {0}) × Controller Disks). SameDisks s (r.1)) (n == 0)
        {x = (ok tt, s)}
        {y = (result described >>= select_pages mode_pages change_block_size lun n) s} same
        (on described)
    where
      on :
          (o : Outcome (ℕ × ℕ))
          → SameDisks s ((result o >>= select_pages mode_pages change_block_size lun n) s).1
      on (ok (offset, size)) = select_pages-SameDisks lun n offset size s
      on (throw k a) = record { unit = refl; blocks = λ l. refl }
