-- ===== src/Devices/DiskCache.antt =====
-- cpp/devices/disk_cache.h and .cpp: a write-back cache of 16 tracks of an image file.
--
-- The file behind `sec_path` is a field of the cache. A slot stands for the track that it points to:
-- a caller of `GetTrack` uses the track at once, so the slot's number is passed instead.
-- `write_error_count`, which the source never changes, and the statistics are left out.
-- The assertions are left out, as in a release build.
pub mod Coherence
pub mod Slots
pub mod Saving
pub mod Assign
pub mod Refinement
pub mod Flushing
pub mod Availability
use piscsi.Common.{
  ℕ, zero, suc, ◌+◌, ◌-◌, ◌*◌, ◌/◌, ◌%◌, ◌^◌, Bool, true, false, not, Option, none, some, ◌&&◌,
  if◌then◌else◌, ltb, leb, ◌==◌,
}
use piscsi.Devices.ImageFile.{Block, ImageFile}
use piscsi.Devices.DiskTrack.{DiskTrack, new_track, read_sector, write_sector}
use piscsi.Devices.DiskTrack

pub record CacheData : Type 0 where
  pub disktrk : Option DiskTrack
  pub serial : ℕ

pub record DiskCache : Type 0 where
  pub cache : ℕ → CacheData
  pub last_serial : ℕ
  -- An `int`, as its bit pattern of 32 bits
  pub blocks : ℕ
  pub file : ImageFile
  pub read_error_count : ℕ
  pub cache_miss_read_count : ℕ
  pub cache_miss_write_count : ℕ

abbrev pub cache_max : ℕ
cache_max = 16

-- The constructor's loop for `shift_count`, with the number of rounds as fuel.
unfoldable pub find_shift_count : ℕ → ℕ → ℕ → ℕ
find_shift_count zero shift_count size = shift_count
find_shift_count (suc n) shift_count size =
    let rest = find_shift_count n (shift_count + 1) size in
    if not (2 ^ shift_count == size) then rest else shift_count

-- The constructor and `Init`
unfoldable pub new_cache : ImageFile → ℕ → DiskCache
new_cache f sectors = record {
  cache = λ _. record { disktrk = none; serial = 0 };
  last_serial = 0;
  blocks = sectors % 2 ^ 32;
  file = f;
  read_error_count = 0;
  cache_miss_read_count = 0;
  cache_miss_write_count = 0;
}

unfoldable pub init : Bool → DiskCache → Bool
init has_filename c = not (c.blocks == 0) && has_filename

abbrev pub set_slot : ℕ → CacheData → DiskCache → DiskCache
set_slot i d c = record c { cache = λ j. if j == i then d else c.cache j }

abbrev pub set_track : ℕ → Option DiskTrack → DiskCache → DiskCache
set_track i t c = set_slot i (record (c.cache i) { disktrk = t }) c

abbrev pub set_serial : ℕ → DiskCache → DiskCache
set_serial i c = set_slot i (record (c.cache i) { serial = c.last_serial }) c

-- `UpdateSerial`, in 32 bits
unfoldable pub update_serial : DiskCache → DiskCache
update_serial c =
    let s = (c.last_serial + 1) % 2 ^ 32 in
    if not (s == 0)
    then record c { last_serial = s }
    else record c { last_serial = 0; cache = λ i. record (c.cache i) { serial = 0 } }

-- `blocks - (track << 8)` as an `int`, and whether it is negative.
abbrev pub sectors_left : ℕ → ℕ → ℕ
sectors_left blocks track = (blocks + 2 ^ 32 - track * 256 % 2 ^ 32) % 2 ^ 32

abbrev pub is_below_zero : ℕ → Bool
is_below_zero n = leb (2 ^ 31) n

-- `Load` of a track into an empty slot, with the track that is used again. For a negative number of
-- sectors no buffer can be had, or none of its flags, so that there is no track.
unfoldable pub load_track : ℕ → ℕ → DiskTrack → DiskCache → Bool × DiskCache
load_track index track disktrk c =
    let rest = sectors_left c.blocks track in
    let sectors = if ltb 256 rest then 256 else rest in
    let t = DiskTrack.init track sectors disktrk in
    let (good, t', misses, file') = DiskTrack.load t c.cache_miss_read_count c.file in
    let c' = record c { cache_miss_read_count = misses; file = file' } in
    let failed = record c { cache_miss_read_count = c.cache_miss_read_count + 1 } in
    if is_below_zero rest
    then (false, record failed { read_error_count = c.read_error_count + 1 })
    else if not good
    then (false, record c' { read_error_count = c.read_error_count + 1 })
    else (true, set_track index (some t') c')

abbrev pub holds : ℕ → Option DiskTrack → Bool
holds track none = false
holds track (some t) = t.track_number == track

abbrev pub is_empty : Option DiskTrack → Bool
is_empty none = true
is_empty (some t) = false

-- The loops of `Assign` over the `n` slots from `i` on.
unfoldable pub find_slot : (Option DiskTrack → Bool) → ℕ → ℕ → DiskCache → Option ℕ
find_slot test zero i c = none
find_slot test (suc n) i c =
    let rest = find_slot test n (i + 1) c in if test (c.cache i).disktrk then some i else rest

unfoldable pub find_oldest : ℕ → ℕ → ℕ → ℕ → DiskCache → ℕ
find_oldest zero i s best c = best
find_oldest (suc n) i s best c =
    if ltb (c.cache i).serial s
    then find_oldest n (i + 1) (c.cache i).serial i c
    else find_oldest n (i + 1) s best c

-- `Load`, then the serial: the slot if the track could be loaded.
unfoldable pub load_slot : ℕ → ℕ → DiskTrack → DiskCache → Option ℕ × DiskCache
load_slot index track disktrk c =
    let (good, c') = load_track index track disktrk c in
    if good then (some index, set_serial index c') else (none, c')

-- `Assign` with the slot to be evicted
unfoldable pub evict : ℕ → ℕ → Option DiskTrack → DiskCache → Option ℕ × DiskCache
evict index track none c = (none, c)
evict index track (some t) c =
    let (saved, t', misses, file') = DiskTrack.save t c.cache_miss_write_count c.file in
    let c1 = record c { cache_miss_write_count = misses; file = file' } in
    if not saved
    then (none, set_track index (some t') c1)
    else load_slot index track t' (set_track index none c1)

-- `Assign` of a track that no slot holds, by the first empty slot.
unfoldable pub assign_empty : ℕ → Option ℕ → DiskCache → Option ℕ × DiskCache
assign_empty track (some i) c = load_slot i track new_track c
assign_empty track none c =
    let oldest = find_oldest cache_max 0 (c.cache 0).serial 0 c in
    evict oldest track (c.cache oldest).disktrk c

-- `Assign`, by the first slot that holds the track.
unfoldable pub assign_found : ℕ → Option ℕ → DiskCache → Option ℕ × DiskCache
assign_found track (some i) c = (some i, set_serial i c)
assign_found track none c = assign_empty track (find_slot is_empty cache_max 0 c) c

-- `Assign`
unfoldable pub assign : ℕ → DiskCache → Option ℕ × DiskCache
assign track c = assign_found track (find_slot (holds track) cache_max 0 c) c

-- `GetTrack`
unfoldable pub get_track : ℕ → DiskCache → Option ℕ × DiskCache
get_track block c = assign (block / 256) (update_serial c)

abbrev pub read_slot : ℕ → Option DiskTrack → Option Block
read_slot sector none = none
read_slot sector (some t) = read_sector sector t

-- `ReadSectors` after `GetTrack`
unfoldable pub read_found : ℕ → Option ℕ → DiskCache → Option Block × DiskCache
read_found sector none c = (none, c)
read_found sector (some i) c = (read_slot (sector % 256) (c.cache i).disktrk, c)

-- `ReadSectors`: the sector, or nothing if the source returns 0.
unfoldable pub read_sectors : ℕ → ℕ → DiskCache → Option Block × DiskCache
read_sectors sector count c =
    let (slot, c') = get_track (sector % 2 ^ 32) c in
    if not (count == 1) then (none, c) else read_found sector slot c'

unfoldable pub write_slot : Block → ℕ → ℕ → Option DiskTrack → DiskCache → Bool × DiskCache
write_slot block sector i none c = (false, c)
write_slot block sector i (some t) c =
    let (good, t') = write_sector block sector t in (good, set_track i (some t') c)

-- `WriteSectors` after `GetTrack`
unfoldable pub write_found : Block → ℕ → Option ℕ → DiskCache → Bool × DiskCache
write_found block sector none c = (false, c)
write_found block sector (some i) c = write_slot block (sector % 256) i (c.cache i).disktrk c

-- `WriteSectors`
unfoldable pub write_sectors : Block → ℕ → ℕ → DiskCache → Bool × DiskCache
write_sectors block sector count c =
    let (slot, c') = get_track (sector % 2 ^ 32) c in
    if not (count == 1) then (false, c) else write_found block sector slot c'

-- The test of `Flush` on a slot: whether it can go on.
unfoldable pub flush_slot : ℕ → Option DiskTrack → DiskCache → Bool × DiskCache
flush_slot i none c = (true, c)
flush_slot i (some t) c =
    let (saved, t', misses, file') = DiskTrack.save t c.cache_miss_write_count c.file in
    let c1 = record c { cache_miss_write_count = misses; file = file' } in
    (saved, set_track i (some t') c1)

-- `Flush` of the `n` slots from `i` on: `none_of` ends at the first track that cannot be saved.
unfoldable pub flush_from : ℕ → ℕ → DiskCache → Bool × DiskCache
flush_from zero i c = (true, c)
flush_from (suc n) i c =
    let (saved, c') = flush_slot i (c.cache i).disktrk c in
    let rest = flush_from n (i + 1) c' in if saved then rest else (false, c')

unfoldable pub flush : DiskCache → Bool × DiskCache
flush c = flush_from cache_max 0 c
