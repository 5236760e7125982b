-- ===== src/Devices/Cache.antt =====
-- cpp/devices/cache.h: the operations that a disk expects of its cache, by the two classes that have
-- them. `ReadLong` and `WriteLong` are of `LinuxCache` only.
pub mod Refinement
use piscsi.Common.{ℕ, Bool, Option, none, some, List, [], ◌∷◌, get_or}
use piscsi.Devices.ImageFile.{Block, ImageFile}
use piscsi.Devices.DiskCache.{DiskCache}
use piscsi.Devices.DiskCache
use piscsi.Devices.LinuxCache.{LinuxCache}
use piscsi.Devices.LinuxCache

pub data Cache : Type 0 where
  track_cache : DiskCache → Cache
  linux_cache : LinuxCache → Cache

abbrev pub file : Cache → ImageFile
file (track_cache c) = c.file
file (linux_cache c) = c.file

abbrev single : Option Block → Option (List Block)
single none = none
single (some b) = some (b ∷ [])

unfoldable pub read_sectors : ℕ → ℕ → Cache → Option (List Block) × Cache
read_sectors start count (track_cache c) =
    let (block, c') = DiskCache.read_sectors start count c in (single block, track_cache c')
read_sectors start count (linux_cache c) =
    let (blocks, c') = LinuxCache.read_sectors start count c in (blocks, linux_cache c')

unfoldable pub write_sectors : List Block → ℕ → ℕ → Cache → Bool × Cache
write_sectors blocks start count (track_cache c) =
    let (good, c') = DiskCache.write_sectors (get_or blocks 0 []) start count c in
    (good, track_cache c')
write_sectors blocks start count (linux_cache c) =
    let (good, c') = LinuxCache.write_sectors blocks start count c in (good, linux_cache c')

unfoldable pub flush : Cache → Bool × Cache
flush (track_cache c) = let (good, c') = DiskCache.flush c in (good, track_cache c')
flush (linux_cache c) = let (good, c') = LinuxCache.flush c in (good, linux_cache c')
