-- ===== src/Devices/Disk/Validated.antt =====
-- What `ValidateFile` of a disk leaves: cpp/devices/disk.cpp, storage_device.cpp.

use piscsi.Common.{
  ℕ, ◌≡◌, refl, ap, ◌∙◌, subst, Bool, true, false, not, ◌&&◌, ◌||◌, Option, none, some, ◌==◌, arith,
  if_intro, if_intro_by,
}
use piscsi.Controllers.State.{Controller, has_device, is_ready}
use piscsi.Devices.ImageFile.{Block, ImageFile, next_outcome-sectors}
use piscsi.Devices.DiskCache
use piscsi.Devices.DiskCache.Flushing.{empty-IsCoherent}
use piscsi.Devices.LinuxCache.{LinuxCache}
use piscsi.Devices.LinuxCache
use piscsi.Devices.Cache.{Cache}
use piscsi.Devices.Cache.Refinement.{StandsFor}
use piscsi.Devices.StorageDevice.{StorageDevice, is_unnamed, contains}
use piscsi.Devices.Disk.{
  Disk, Disks, PbCachingMode, make_cache, init_cache, set_up_cache, file_of, is_piscsi,
  is_write_through, update_disk,
}
use piscsi.Devices.Disk.Sectors.{Holds}
use piscsi.Devices.StorageDevice.Validation.{validate_storage_file}
use piscsi.Devices.StorageDevice.Validated.{
  validate_storage_file-ready, validate_storage_file-extra,
}
use piscsi.Devices.Disk.Opening.{validate_file, set_up_disk_cache}

init-sectors : (c : LinuxCache) (s : ℕ) → (LinuxCache.init c).1.file.sectors s ≡ c.file.sectors s
unfolding LinuxCache.init
init-sectors c s =
    if_intro (λ (r : Bool × LinuxCache). r.1.file.sectors s ≡ c.file.sectors s)
      (c.sector_size == 0 || c.sectors == 0 || not c.has_filename) refl
      (next_outcome-sectors c.file s)

make_cache-StandsFor :
    (mode : PbCachingMode) (has_filename : Bool) (f : ImageFile) (d : StorageDevice)
    → StandsFor (make_cache mode has_filename f d).1 f.sectors
unfolding make_cache DiskCache.new_cache LinuxCache.init
make_cache-StandsFor mode has_filename f d =
    let tracks = DiskCache.new_cache f d.blocks in
    if_intro (λ (r : Bool × Cache). StandsFor r.1 f.sectors) (is_piscsi mode)
      (empty-IsCoherent tracks (λ i. refl))
      (init-sectors (record {
        file = f;
        has_filename = has_filename;
        sector_size = d.block_size;
        sectors = d.blocks;
        write_through = is_write_through mode;
        read_error_count = 0;
        write_error_count = 0;
      }))

init_cache-Holds :
    (storage : StorageDevice) (d : Disk)
    → Holds (init_cache storage d).1.cache (file_of d.cache d.image).sectors
unfolding init_cache
init_cache-Holds storage d =
    make_cache-StandsFor d.caching_mode (not (is_unnamed storage.filename))
      (file_of d.cache d.image) storage

set_up_cache-Holds :
    (storage : StorageDevice) (d : Disk)
    → Holds (set_up_cache storage d).1.cache (file_of d.cache d.image).sectors
unfolding set_up_cache
set_up_cache-Holds storage d =
    if_intro (λ e. Holds (init_cache storage e).1.cache (file_of d.cache d.image).sectors)
      (not (contains storage.block_size storage.supported_block_sizes) && is_piscsi d.caching_mode)
      (init_cache-Holds storage (record d { caching_mode = PbCachingMode.linux }))
      (init_cache-Holds storage d)

abbrev pub is_present : Option Cache → Bool
is_present none = false
is_present (some c) = true

-- The disk of a LUN is open: it has sectors, is ready if there is a device, and its cache stands for
-- the sectors given.
pub record IsOpen (disk : ℕ → Block) (lun : ℕ) (t : Controller Disks) : Type 0 where
  pub blocks : ((t.extra.storage lun).blocks == 0) ≡ false
  pub ready : has_device lun t ≡ true → is_ready lun t ≡ true
  pub cached : is_present (t.extra.unit lun).cache ≡ true
  pub sectors : Holds (t.extra.unit lun).cache disk

-- The sectors of the image file of a LUN.
abbrev pub image_sectors : ℕ → Controller Disks → ℕ → Block
image_sectors lun s = (file_of (s.extra.unit lun).cache (s.extra.unit lun).image).sectors

-- What is left of a call that may fail, if it does not.
abbrev pub Opens : (ℕ → Block) → ℕ → Bool × Controller Disks → Type 0
Opens disk lun r = r.0 ≡ true → IsOpen disk lun r.1

set_up_cache-present :
    (storage : StorageDevice) (d : Disk) → is_present (set_up_cache storage d).1.cache ≡ true
unfolding set_up_cache init_cache
set_up_cache-present storage d = refl

set_up_disk_cache-Opens :
    (lun : ℕ) (s : Controller Disks) (disk : ℕ → Block)
    → image_sectors lun s ≡ disk
    → ((s.extra.storage lun).blocks == 0) ≡ false
    → (has_device lun s ≡ true → is_ready lun s ≡ true)
    → Opens disk lun (set_up_disk_cache lun s)
unfolding set_up_disk_cache update_disk
set_up_disk_cache-Opens lun s disk same h ready e =
    let made = (set_up_cache (s.extra.storage lun) (s.extra.unit lun)).1 in
    let unit : made ≡ (set_up_disk_cache lun s).1.extra.unit lun = ground arith in
    record {
      blocks = h;
      ready = ready;
      cached =
          subst (λ (d : Disk). is_present d.cache ≡ true) unit
            (set_up_cache-present (s.extra.storage lun) (s.extra.unit lun));
      sectors = subst (Holds ((set_up_disk_cache lun s).1.extra.unit lun).cache) same (
          subst (λ (d : Disk). Holds d.cache (image_sectors lun s)) unit
            (set_up_cache-Holds (s.extra.storage lun) (s.extra.unit lun)));
    }

-- `ValidateFile` of a disk, if it succeeds: there are sectors, the device is ready, and the cache
-- stands for the image file.
pub validate_file-Opens :
    (lun : ℕ) (size : Option ℕ) (writable : Bool) (s : Controller Disks)
    → Opens (image_sectors lun s) lun (validate_file lun size writable s)
unfolding validate_file
validate_file-Opens lun size writable s =
    let t = validate_storage_file lun size writable s in
    let same = validate_storage_file-extra lun size writable s in
    if_intro_by (Opens (image_sectors lun s) lun) ((s.extra.storage lun).blocks == 0) (λ z e. cc e)
      λ nz.
        if_intro_by (Opens (image_sectors lun s) lun) (not t.0) (λ z e. cc e)
          λ v.
            set_up_disk_cache-Opens lun t.1 (image_sectors lun s)
              (ap (λ x. (file_of (x.unit lun).cache (x.unit lun).image).sectors) same)
              (ap (λ x. (x.storage lun).blocks == 0) same ∙ nz)
              (validate_storage_file-ready lun size writable s (ground (arith, v)))

pub validate_file-storage :
    (lun : ℕ) (size : Option ℕ) (writable : Bool) (s : Controller Disks)
    → (validate_file lun size writable s).1.extra.storage ≡ s.extra.storage
unfolding validate_file set_up_disk_cache update_disk
validate_file-storage lun size writable s =
    let t = validate_storage_file lun size writable s in
    let same = ap (λ x. x.storage) (validate_storage_file-extra lun size writable s) in
    if_intro (λ (r : Bool × Controller Disks). r.1.extra.storage ≡ s.extra.storage)
      ((s.extra.storage lun).blocks == 0) refl
      (if_intro (λ (r : Bool × Controller Disks). r.1.extra.storage ≡ s.extra.storage) (not t.0)
        same same)
