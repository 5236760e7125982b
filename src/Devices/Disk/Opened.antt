-- ===== src/Devices/Disk/Opened.antt =====
-- A disk that has been opened (cpp/devices/disk.cpp, scsi_hd.cpp, sasi_hd.cpp, optical_memory.cpp)
-- stands for its image file.
use native.Mathlib.Nat.{div-mul-le_self, mul-le-mul_right}
use piscsi.Common.{
  ℕ, ◌*◌, ◌/◌, ◌%◌, ◌^◌, ◌≡◌, ◌≤◌, refl, sym, ap, ◌∙◌, subst, Bool, true, false, not, ◌&&◌, Option,
  none, some, if◌then◌else◌, ◌==◌, arith, if_intro, if_intro_by,
}
use piscsi.Base.PrimaryDevice.{PrimaryDevice}
use piscsi.Controllers.State.{Controller, update_device, is_ready}
use piscsi.Devices.StorageDevice.{StorageDevice, update_storage, set_block_size}
use piscsi.Devices.Disk.{Disks}
use piscsi.Devices.Disk.Opening.{
  open_sized, open_hard_disk, open_optical_memory, open_geometry, geometry,
}
use piscsi.Devices.Disk.Validated.{
  IsOpen, Opens, image_sectors, validate_file-Opens, validate_file-storage,
}

open_sized-Opens :
    (lun blocks size : ℕ) (writable : Bool) (s : Controller Disks)
    → Opens (image_sectors lun s) lun (open_sized lun blocks size writable s)
unfolding open_sized update_storage
open_sized-Opens lun blocks size writable s =
    validate_file-Opens lun (some size) writable
      (update_storage lun (λ d. record d { blocks = blocks }) s)

open_hard_disk-Opens :
    (default_size lun : ℕ) (size : Option ℕ) (writable : Bool) (s : Controller Disks)
    → Opens (image_sectors lun s) lun (open_hard_disk default_size lun size writable s)
unfolding open_hard_disk update_storage
open_hard_disk-Opens default_size lun size writable s =
    let configured = (s.extra.storage lun).configured_block_size in
    let wanted = if configured == 0 then default_size else configured in
    let r = set_block_size wanted (s.extra.storage lun) in
    let s1 = update_storage lun (λ _. r.1) s in
    if_intro (Opens (image_sectors lun s) lun) (not r.0) (λ e. cc e) (opened size r.1 s1)
  where
    opened :
        (o : Option ℕ) (d : StorageDevice) (t : Controller Disks)
        → Opens (image_sectors lun t) lun (elim o as (λ _. Bool × Controller Disks) [
          | none ↦ (false, t)
          | some n ↦ open_sized lun (n / d.block_size % 2 ^ 32) n writable t
        ])
    opened none d t = λ e. cc e
    opened (some n) d t = open_sized-Opens lun (n / d.block_size % 2 ^ 32) n writable t

open_geometry-Opens :
    (o : Option (ℕ × ℕ)) (lun size : ℕ) (writable : Bool) (s : Controller Disks)
    → Opens (image_sectors lun s) lun (open_geometry o lun size writable s)
unfolding open_geometry update_storage
open_geometry-Opens (some (block_size, blocks)) lun size writable s =
    open_sized-Opens lun blocks size writable
      (update_storage lun (λ d. (set_block_size block_size d).1) s)
open_geometry-Opens none lun size writable s =
    let configured = (s.extra.storage lun).configured_block_size in
    let wanted = if configured == 0 then 512 else configured in
    let r = set_block_size wanted (s.extra.storage lun) in
    let s1 = update_storage lun (λ _. r.1) s in
    if_intro (Opens (image_sectors lun s) lun) (not r.0) (λ e. cc e)
      (open_sized-Opens lun (size / r.1.block_size) size writable s1)

attention-ready :
    (lun : ℕ) (s : Controller Disks)
    → is_ready lun s ≡ true
    → is_ready lun
        (update_device lun (λ d. record d { device = record (d.device) { attn = true } }) s)
      ≡ true
unfolding update_device
attention-ready lun s r = on_device (s.luns lun) refl r
  where
    on_device :
        (o : Option PrimaryDevice)
        → s.luns lun ≡ o
        → is_ready lun s ≡ true
        → is_ready lun
            (update_device lun (λ d. record d { device = record (d.device) { attn = true } }) s)
          ≡ true
    on_device none e r = ground (arith, e)
    on_device (some d) e r = ground (arith, e)

-- The same of a magneto-optical disk.
open_optical_memory-IsOpen :
    (lun : ℕ) (size : Option ℕ) (writable : Bool) (s : Controller Disks)
    → (open_optical_memory lun size writable s).0 ≡ true
    → IsOpen (image_sectors lun s) lun (open_optical_memory lun size writable s).1
unfolding open_optical_memory update_device
open_optical_memory-IsOpen lun none writable s = λ e. cc e
open_optical_memory-IsOpen lun (some size) writable s = λ e.
    let r = open_geometry (geometry size) lun size writable s in
    let done = open_geometry-Opens (geometry size) lun size writable s e in
    if_intro_by (IsOpen (image_sectors lun s) lun) (r.0 && is_ready lun r.1)
      (λ both. record {
        blocks = done.blocks;
        ready = λ _. attention-ready lun r.1 (ground (arith, both));
        cached = done.cached;
        sectors = done.sectors;
      })
      λ _. done

sectors-bound : (n b : ℕ) → n / b % 2 ^ 32 * b ≤ n
sectors-bound n b =
    let cut : n / b % 2 ^ 32 ≤ n / b = omega arith in
    let le = mul-le-mul_right b cut in omega (arith, le, div-mul-le_self n b)

-- The sectors of a disk lie in a file of `n` bytes.
abbrev pub IsWithin : ℕ → StorageDevice → Type 0
IsWithin n d = d.blocks * d.block_size ≤ n

open_sized-IsWithin :
    (lun size : ℕ) (d : StorageDevice) (writable : Bool) (s : Controller Disks)
    → s.extra.storage lun ≡ d
    → IsWithin size
        ((open_sized lun (size / d.block_size % 2 ^ 32) size writable s).1.extra.storage lun)
unfolding open_sized update_storage
open_sized-IsWithin lun size d writable s e =
    let blocks = size / d.block_size % 2 ^ 32 in
    let sized = update_storage lun (λ x. record x { blocks = blocks }) s in
    let same = validate_file-storage lun (some size) writable sized in
    let counted : record d { blocks = blocks } ≡ sized.extra.storage lun = ground (arith, e) in
    subst (IsWithin size) (counted ∙ ap (λ f. f lun) (sym same)) (sectors-bound size d.block_size)

open_hard_disk-IsWithin :
    (default_size lun n : ℕ) (writable : Bool) (s : Controller Disks)
    → (open_hard_disk default_size lun (some n) writable s).0 ≡ true
    → IsWithin n ((open_hard_disk default_size lun (some n) writable s).1.extra.storage lun)
unfolding open_hard_disk update_storage
open_hard_disk-IsWithin default_size lun n writable s =
    let configured = (s.extra.storage lun).configured_block_size in
    let wanted = if configured == 0 then default_size else configured in
    let r = set_block_size wanted (s.extra.storage lun) in
    let s1 = update_storage lun (λ _. r.1) s in
    if_intro (λ (x : Bool × Controller Disks). x.0 ≡ true → IsWithin n (x.1.extra.storage lun))
      (not r.0) (λ e. cc e) (λ _. open_sized-IsWithin lun n r.1 writable s1 (ground arith))

-- After a successful `Open` of a hard disk the disk has sectors, is ready if the LUN has a device, and
-- has a cache that stands for the sectors of the image file, in which all its sectors lie.
pub open_hard_disk-IsOpen :
    (default_size lun n : ℕ) (writable : Bool) (s : Controller Disks)
    → (open_hard_disk default_size lun (some n) writable s).0 ≡ true
    → IsOpen (image_sectors lun s) lun (open_hard_disk default_size lun (some n) writable s).1
      × IsWithin n ((open_hard_disk default_size lun (some n) writable s).1.extra.storage lun)
open_hard_disk-IsOpen default_size lun n writable s e = (
  open_hard_disk-Opens default_size lun (some n) writable s e,
  open_hard_disk-IsWithin default_size lun n writable s e,
)
