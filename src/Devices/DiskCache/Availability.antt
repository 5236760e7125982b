-- ===== src/Devices/DiskCache/Availability.antt =====
-- When the operating system refuses nothing more, every sector can be read: cpp/devices/disk_cache.cpp.
use piscsi.Common.{
  ℕ, zero, suc, ◌+◌, ◌-◌, ◌*◌, ◌≤◌, ◌<◌, ◌≡◌, refl, subst, sym, ap, ◌∙◌, Bool, true, false, not,
  if◌then◌else◌, ltb, arith, Option, none, some, ◌/◌, ◌%◌, ◌^◌, [], if_intro, if_false,
}
use piscsi.Devices.ImageFile.{Block, ImageFile, next_outcome, write_run}
use piscsi.Devices.DiskTrack.{
  DiskTrack, new_track, first_sector, save, save_from, run_end, load, init, read_sector,
}
use piscsi.Devices.DiskCache.{
  DiskCache, cache_max, set_track, set_serial, update_serial, load_track, sectors_left,
  is_below_zero, load_slot, evict, find_slot, find_oldest, holds, is_empty, assign_empty,
  assign_found, assign, get_track, read_slot, read_found, read_sectors,
}
use piscsi.Devices.DiskCache.Coherence.{IsCoherent, slot, same_slots-IsCoherent}
use piscsi.Devices.DiskCache.Assign.{find_slot-none, find_slot-some, holds-some}
use piscsi.Devices.DiskCache.Slots.{set_track_self}
use piscsi.Devices.DiskCache.Refinement.{read_sectors-disk, update_serial-slot, update_serial-file}

-- No call fails any more.
abbrev pub IsQuiet : ImageFile → Type 0
IsQuiet f = f.outcomes ≡ []

next_outcome-IsQuiet : (f : ImageFile) → IsQuiet f → next_outcome f ≡ (true, f)
unfolding next_outcome
next_outcome-IsQuiet f q = ground (arith, q)

load-IsQuiet :
    (t : DiskTrack) (track n m : ℕ) (f : ImageFile)
    → IsQuiet f
    → (load (init track n t) m f).0 ≡ true
unfolding load init next_outcome
load-IsQuiet t track n m f q = ground (arith, q)

save_from-IsQuiet :
    (n i : ℕ) (t : DiskTrack) (f : ImageFile)
    → IsQuiet f
    → ((save_from n i t f).0 ≡ true) × IsQuiet (save_from n i t f).1
unfolding save_from write_run next_outcome
save_from-IsQuiet zero i t f q = (refl, q)
save_from-IsQuiet (suc n) i t f q =
    let j = run_end (t.sector_count - i) i t in
    let f1 = write_run t.buffer (first_sector t) i j (next_outcome f).1 in
    let q1 : IsQuiet f1 = ground (arith, q) in
    ground (arith, q, save_from-IsQuiet n (i + 1) t f q, save_from-IsQuiet n j t f1 q1)

save-IsQuiet :
    (t : DiskTrack) (m : ℕ) (f : ImageFile)
    → IsQuiet f
    → ((save t m f).0 ≡ true) × IsQuiet (save t m f).3
unfolding save next_outcome
save-IsQuiet t m f q =
    let f1 = (next_outcome f).1 in
    let q1 : IsQuiet f1 = ground (arith, q) in
    ground (arith, q, save_from-IsQuiet t.sector_count 0 t f1 q1)

-- A disk of less than 2^31 sectors, and a track of it.
abbrev pub IsOnDisk : ℕ → DiskCache → Type 0
IsOnDisk track c = (track * 256 < c.blocks) × (c.blocks < 2 ^ 31)

-- The number of sectors of a track of a disk with `blocks` sectors.
abbrev pub track_size : ℕ → ℕ → ℕ
track_size blocks track = let rest = blocks - track * 256 in if ltb 256 rest then 256 else rest

-- The tracks in the slots have their sizes.
abbrev pub IsSized : DiskCache → Type 0
IsSized c =
    (i : ℕ) (t : DiskTrack)
    → slot c i ≡ some t
    → t.sector_count ≡ track_size c.blocks t.track_number

-- A slot holds the track in full.
abbrev Holds : ℕ → ℕ → Option ℕ × DiskCache → Type 0
Holds blocks track r =
    (i : ℕ) × (r.0 ≡ some i)
    × (t : DiskTrack) × (slot r.1 i ≡ some t)
    × (t.track_number ≡ track)
    × (t.sector_count ≡ track_size blocks track)
    × (t.is_initialized ≡ true)

load-track :
    (t : DiskTrack) (track n m : ℕ) (f : ImageFile)
    → IsQuiet f
    → ((load (init track n t) m f).1.track_number ≡ track)
      × ((load (init track n t) m f).1.sector_count ≡ n)
      × ((load (init track n t) m f).1.is_initialized ≡ true)
unfolding load init next_outcome
load-track t track n m f q = ground (arith, q)

update_serial-blocks : (c : DiskCache) → (update_serial c).blocks ≡ c.blocks
unfolding update_serial
update_serial-blocks c = ground arith

set_serial_self : (c : DiskCache) (i : ℕ) → slot (set_serial i c) i ≡ slot c i
set_serial_self c i = ground arith

load_track-IsQuiet :
    (c : DiskCache) (i track : ℕ) (t : DiskTrack)
    → IsQuiet c.file
    → IsOnDisk track c
    → (u : DiskTrack) × (c1 : DiskCache) × (load_track i track t c
        ≡ (true, set_track i (some u) c1))
      × (u.track_number ≡ track)
      × (u.sector_count ≡ track_size c.blocks track)
      × (u.is_initialized ≡ true)
unfolding load_track
load_track-IsQuiet c i track t q (on, small) =
    let rest = sectors_left c.blocks track in
    let left : rest ≡ c.blocks - track * 256 = omega (arith, on, small) in
    let n = if ltb 256 rest then 256 else rest in
    let positive : is_below_zero rest ≡ false = ground (arith, left, small) in
    let size = ap (λ r. if ltb 256 r then 256 else r) left in
    let loaded = load (init track n t) c.cache_miss_read_count c.file in
    let good = load-IsQuiet t track n c.cache_miss_read_count c.file q in
    let facts = load-track t track n c.cache_miss_read_count c.file q in
    let c1 = record c { cache_miss_read_count = loaded.2; file = loaded.3 } in
    (
      loaded.1,
      c1,
      if_false _ (is_below_zero rest) positive ∙ if_false _ (not loaded.0) (ground (arith, good)),
      facts.0,
      facts.1 ∙ size,
      facts.2,
    )

abbrev after_load : ℕ → Bool × DiskCache → Option ℕ × DiskCache
after_load index (good, c') = if good then (some index, set_serial index c') else (none, c')

load_slot-Holds :
    (c : DiskCache) (i track : ℕ) (t : DiskTrack)
    → IsQuiet c.file
    → IsOnDisk track c
    → Holds c.blocks track (load_slot i track t c)
unfolding load_slot
load_slot-Holds c i track t q on =
    let (u, c1, e, number, size, initialized) = load_track-IsQuiet c i track t q on in
    let result = ap (after_load i) e in
    (
      i,
      ap (λ r. r.0) result,
      u,
      ap (λ r. slot r.1 i) result
          ∙ set_serial_self (set_track i (some u) c1) i
          ∙ set_track_self c1 i (some u),
      number,
      size,
      initialized,
    )

evict-Holds :
    (c : DiskCache) (i track : ℕ) (t : DiskTrack)
    → IsQuiet c.file
    → IsOnDisk track c
    → Holds c.blocks track (evict i track (some t) c)
unfolding evict
evict-Holds c i track t q on =
    let saved = save t c.cache_miss_write_count c.file in
    let good = save-IsQuiet t c.cache_miss_write_count c.file q in
    let c1 = record c { cache_miss_write_count = saved.2; file = saved.3 } in
    let result = if_false _ (not saved.0) (ground (arith, good)) in
    subst (Holds c.blocks track) (sym result)
      (load_slot-Holds (set_track i none c1) i track saved.1 good.1 on)

find_oldest_bound :
    (n i s best m : ℕ) (c : DiskCache) → best < m → i + n ≤ m → find_oldest n i s best c < m
unfolding find_oldest
find_oldest_bound zero i s best m c h a = h
find_oldest_bound (suc n) i s best m c h a =
    if_intro (λ k. k < m) (ltb (c.cache i).serial s)
      (find_oldest_bound n (i + 1) (c.cache i).serial i m c (omega arith) (omega arith))
      (find_oldest_bound n (i + 1) s best m c h (omega arith))

assign_empty-Holds :
    (c : DiskCache) (track : ℕ) (o : Option ℕ)
    → find_slot is_empty cache_max 0 c ≡ o
    → IsQuiet c.file
    → IsOnDisk track c
    → Holds c.blocks track (assign_empty track o c)
unfolding assign_empty
assign_empty-Holds c track (some i) h q on = load_slot-Holds c i track new_track q on
assign_empty-Holds c track none h q on =
    let oldest = find_oldest cache_max 0 (c.cache 0).serial 0 c in
    let bound =
      find_oldest_bound cache_max 0 (c.cache 0).serial 0 cache_max c (omega arith) (omega arith) in
    let full = find_slot-none is_empty cache_max 0 oldest c h (omega arith) bound in
    evict_full (slot c oldest) full
  where
    evict_full :
        (o : Option DiskTrack)
        → is_empty o ≡ false
        → Holds c.blocks track (evict (find_oldest cache_max 0 (c.cache 0).serial 0 c) track o c)
    evict_full none e = cc
    evict_full (some t) e =
        evict-Holds c (find_oldest cache_max 0 (c.cache 0).serial 0 c) track t q on

assign_found-Holds :
    (c : DiskCache) (disk : ℕ → Block) (track : ℕ) (o : Option ℕ)
    → find_slot (holds track) cache_max 0 c ≡ o
    → IsCoherent c disk
    → IsSized c
    → IsQuiet c.file
    → IsOnDisk track c
    → Holds c.blocks track (assign_found track o c)
unfolding assign_found
assign_found-Holds c disk track (some i) h x z q on =
    let found = find_slot-some (holds track) cache_max 0 i c h in
    let (u, e, n) = holds-some track (slot c i) found.0 in
    (
      i,
      refl,
      u,
      set_serial_self c i ∙ e,
      n,
      z i u e ∙ ap (track_size c.blocks) n,
      (x.synced i u e).initialized,
    )
assign_found-Holds c disk track none h x z q on = assign_empty-Holds c track _ refl q on

get_track-Holds :
    (c : DiskCache) (disk : ℕ → Block) (block : ℕ)
    → IsCoherent c disk
    → IsSized c
    → IsQuiet c.file
    → IsOnDisk (block / 256) c
    → Holds c.blocks (block / 256) (get_track block c)
unfolding get_track assign
get_track-Holds c disk block x z q on =
    let c1 = update_serial c in
    let file = update_serial-file c in
    let blocks = update_serial-blocks c in
    let x1 = same_slots-IsCoherent c c1 disk (update_serial-slot c) file x in
    let z1 : IsSized c1 = λ i t e.
      z i t (sym (update_serial-slot c i) ∙ e)
      ∙ ap (λ b. track_size b t.track_number) (sym blocks) in
    subst (λ b. Holds b (block / 256) (get_track block c)) blocks
      (assign_found-Holds c1 disk (block / 256) _ refl x1 z1 (ap (λ f. f.outcomes) file ∙ q)
        (subst (λ b. (block / 256 * 256 < b) × (b < 2 ^ 31)) (sym blocks) on))

read_sector-full :
    (k : ℕ) (t : DiskTrack)
    → t.is_initialized ≡ true
    → k < t.sector_count
    → read_sector k t ≡ some (t.buffer k)
unfolding read_sector
read_sector-full k t y a = ground (arith, y, a)

abbrev found_block : ℕ → Option ℕ → DiskCache → Option Block
found_block sector o c = (read_found sector o c).0

read_found-some :
    (sector i : ℕ) (c : DiskCache) (t : DiskTrack)
    → slot c i ≡ some t
    → (read_found sector (some i) c).0 ≡ read_sector (sector % 256) t
unfolding read_found
read_found-some sector i c t e = ap (read_slot (sector % 256)) e

sector_below :
    (sector blocks : ℕ)
    → sector < blocks
    → blocks < 2 ^ 31
    → sector % 256 < track_size blocks ((sector % 2 ^ 32) / 256)
sector_below sector blocks a b = ground (arith, a, b)

-- If no call of the operating system fails, `ReadSectors` of one sector of the disk, of less than 2^31
-- sectors, by a cache that stands for the disk and whose tracks have the sizes that the disk gives them,
-- succeeds and gives the data of the disk, whether the track is cached, or has to be loaded, or another
-- one has to be evicted for it.
pub read_sectors-some :
    (c : DiskCache) (disk : ℕ → Block) (sector : ℕ)
    → IsCoherent c disk
    → IsSized c
    → IsQuiet c.file
    → sector < c.blocks
    → c.blocks < 2 ^ 31
    → (read_sectors sector 1 c).0 ≡ some (disk sector)
unfolding read_sectors
read_sectors-some c disk sector x z q a b =
    let r = get_track (sector % 2 ^ 32) c in
    let k = sector % 256 in
    let on : IsOnDisk (sector % 2 ^ 32 / 256) c = (omega (arith, a, b), b) in
    let (i, found, t, e, n, size, initialized) =
      get_track-Holds c disk (sector % 2 ^ 32) x z q on in
    let below : k < t.sector_count = ground (arith, size, sector_below sector c.blocks a b) in
    let result : (read_sectors sector 1 c).0 ≡ some (t.buffer k) =
      ap (λ o. found_block sector o r.1) found
      ∙ read_found-some sector i r.1 t e
      ∙ read_sector-full k t initialized below in
    let at : sector % 2 ^ 32 ≡ sector = omega (arith, a, b) in
    result ∙ ap some (read_sectors-disk c disk sector 1 (t.buffer k) x result ∙ ap disk at)
