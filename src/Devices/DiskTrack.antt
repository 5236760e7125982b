-- ===== src/Devices/DiskTrack.antt =====
-- cpp/devices/disk_track.h and .cpp: a track of up to 256 sectors in memory.
--
-- The arrays are functions of the index, below `sector_count`. The buffer holds whole sectors, so
-- its size in bytes is left out, and with it the reallocation when the size changes: a load takes
-- one outcome for the memory that it may have to allocate.
pub mod Laws
pub mod Coherence
use piscsi.Common.{
  ℕ, zero, suc, ◌+◌, ◌-◌, ◌*◌, Bool, true, false, ◌&&◌, ◌||◌, not, Option, none, some,
  if◌then◌else◌, ltb, leb, ◌==◌, List,
}
use piscsi.Devices.ImageFile.{Block, ImageFile, next_outcome, write_run}

pub record DiskTrack : Type 0 where
  pub track_number : ℕ
  pub sector_count : ℕ
  pub buffer : ℕ → Block
  pub is_initialized : Bool
  pub is_modified : Bool
  pub modified_flags : ℕ → Bool

-- `make_shared<DiskTrack>()`
abbrev pub new_track : DiskTrack
new_track = record {
  track_number = 0;
  sector_count = 0;
  buffer = λ _. List.[];
  is_initialized = false;
  is_modified = false;
  modified_flags = λ _. false;
}

-- The number of the first sector of a track: `track_number << 8`.
abbrev pub first_sector : DiskTrack → ℕ
first_sector t = t.track_number * 256

-- `Init`
unfoldable pub init : ℕ → ℕ → DiskTrack → DiskTrack
init track sectors t = record t {
  track_number = track;
  sector_count = sectors;
  is_initialized = false;
  is_modified = false;
}

-- `Load`, and the count of cache misses.
unfoldable pub load : DiskTrack → ℕ → ImageFile → Bool × DiskTrack × ℕ × ImageFile
load t misses f =
    let (allocated, f1) = next_outcome f in
    let (opened, f2) = next_outcome f1 in
    let (good, f3) = next_outcome f2 in
    let t1 = record t { modified_flags = λ _. false; is_initialized = true; is_modified = false } in
    let t2 = record t1 { buffer = λ i. f.sectors (first_sector t + i) } in
    if t.is_initialized
    then (true, t, misses, f)
    else if not allocated
    then (false, t, misses + 1, f1)
    else if not opened
    then (false, t1, misses + 1, f2)
    else (good, t2, misses + 1, f3)

-- The inner loop of `Save`: the end of the run of modified sectors from `j` on, among `n` sectors.
unfoldable pub run_end : ℕ → ℕ → DiskTrack → ℕ
run_end zero j t = j
run_end (suc n) j t = let rest = run_end n (j + 1) t in if t.modified_flags j then rest else j

-- The outer loop of `Save` from sector `i` on, in at most `n` rounds.
unfoldable pub save_from : ℕ → ℕ → DiskTrack → ImageFile → Bool × ImageFile
save_from zero i t f = (true, f)
save_from (suc n) i t f =
    let j = run_end (t.sector_count - i) i t in
    let (good, f1) = next_outcome f in
    let skipped = save_from n (i + 1) t f in
    let written = save_from n j t (write_run t.buffer (first_sector t) i j f1) in
    if leb t.sector_count i
    then (true, f)
    else if t.modified_flags i
    then (if good then written else (false, f1))
    else skipped

-- `Save`, and the count of cache misses.
unfoldable pub save : DiskTrack → ℕ → ImageFile → Bool × DiskTrack × ℕ × ImageFile
save t misses f =
    let (opened, f1) = next_outcome f in
    let (good, f2) = save_from t.sector_count 0 t f1 in
    let clean = record t { modified_flags = λ _. false; is_modified = false } in
    if not t.is_initialized || not t.is_modified
    then (true, t, misses, f)
    else if not opened
    then (false, t, misses + 1, f1)
    else if not good
    then (false, t, misses + 1, f2)
    else (true, clean, misses + 1, f2)

-- `ReadSector`: the sector, or nothing if the source returns 0.
unfoldable pub read_sector : ℕ → DiskTrack → Option Block
read_sector sector t =
    if not t.is_initialized || leb t.sector_count sector then none else some (t.buffer sector)

-- `memcmp` of two sectors
unfoldable pub same_block : Block → Block → Bool
same_block List.[] List.[] = true
same_block List.[] (List.◌∷◌ y ys) = false
same_block (List.◌∷◌ x xs) List.[] = false
same_block (List.◌∷◌ x xs) (List.◌∷◌ y ys) = x == y && same_block xs ys

-- `WriteSector`: only a change marks the sector.
unfoldable pub write_sector : Block → ℕ → DiskTrack → Bool × DiskTrack
write_sector block sector t =
    if not t.is_initialized || leb t.sector_count sector
    then (false, t)
    else if same_block block (t.buffer sector)
    then (true, t)
    else (
      true,
      record t {
        buffer = λ i. if i == sector then block else t.buffer i;
        modified_flags = λ i. if i == sector then true else t.modified_flags i;
        is_modified = true;
      },
    )
