-- ===== src/Devices/DiskCache/Refinement.antt =====
-- The cache of cpp/devices/disk_cache.cpp behaves as the disk: reads and writes of sectors, with any
-- evictions and I/O errors between them.
use piscsi.Common.{
  ℕ, ◌+◌, ◌*◌, ◌<◌, ◌≡◌, refl, subst, sym, ap, ◌∙◌, inl, inr, Bool, true, false, not, if◌then◌else◌,
  ◌==◌, arith, Bool-cases, Option, none, some, ==_iff, ◌/◌, ◌%◌, ◌^◌, if_intro,
}
use piscsi.Devices.ImageFile.{Block}
use piscsi.Devices.DiskTrack.{DiskTrack, first_sector, read_sector, write_sector}
use piscsi.Devices.DiskTrack.Laws.{same_block-eq}
use piscsi.Devices.DiskTrack.Coherence.{write_sector-IsInSync}
use piscsi.Devices.DiskCache.{
  DiskCache, set_track, update_serial, get_track, read_slot, read_found, read_sectors, write_found,
  write_slot, write_sectors,
}
use piscsi.Devices.DiskCache.Coherence.{IsOn, IsCoherent, slot, same_slots-IsCoherent}
use piscsi.Devices.DiskCache.Slots.{set_track-IsCoherent, used_slot, track_or}
use piscsi.Devices.DiskCache.Assign.{Assigns, assign-Assigns}

pub update_serial-slot : (c : DiskCache) (i : ℕ) → slot (update_serial c) i ≡ slot c i
unfolding update_serial
update_serial-slot c i = ground arith

pub update_serial-file : (c : DiskCache) → (update_serial c).file ≡ c.file
unfolding update_serial
update_serial-file c = ground arith

get_track-Assigns :
    (c : DiskCache) (disk : ℕ → Block) (block : ℕ)
    → IsCoherent c disk
    → Assigns disk (block / 256) (get_track block c)
unfolding get_track
get_track-Assigns c disk block x =
    assign-Assigns (update_serial c) disk (block / 256) (
      same_slots-IsCoherent c (update_serial c) disk (update_serial-slot c) (update_serial-file c)
        x)

-- The number of a sector in 32 bits, by track and sector on the track.
sector_number : (sector : ℕ) → (sector % 2 ^ 32) / 256 * 256 + sector % 256 ≡ sector % 2 ^ 32
sector_number sector = omega arith

read_sector-some :
    (k : ℕ) (t : DiskTrack) (b : Block)
    → read_sector k t ≡ some b
    → (k < t.sector_count) × (t.buffer k ≡ b)
unfolding read_sector
read_sector-some k t b h = ground (arith, h)

-- What a read gives of a disk, and that it keeps it.
abbrev Reads : (ℕ → Block) → ℕ → Option Block × DiskCache → Type 0
Reads disk sector r =
    IsCoherent r.1 disk × ((b : Block) → r.0 ≡ some b → b ≡ disk (sector % 2 ^ 32))

read_slot-some :
    (c : DiskCache) (disk : ℕ → Block) (i sector : ℕ) (o : Option DiskTrack) (t : DiskTrack)
    (b : Block)
    → slot c i ≡ some t
    → t.track_number ≡ (sector % 2 ^ 32) / 256
    → IsCoherent c disk
    → read_slot (sector % 256) (some t) ≡ some b
    → b ≡ disk (sector % 2 ^ 32)
read_slot-some c disk i sector o t b e n x h =
    let (below, same) = read_sector-some (sector % 256) t b h in
    let at : first_sector t + sector % 256 ≡ sector % 2 ^ 32 =
      ap (λ k. k * 256 + sector % 256) n ∙ sector_number sector in
    sym same ∙ x.cached i (sector % 256) t e below ∙ ap disk at

read_found-Reads :
    (c : DiskCache) (disk : ℕ → Block) (sector : ℕ) (o : Option ℕ)
    → Assigns disk ((sector % 2 ^ 32) / 256) (o, c)
    → Reads disk sector (read_found sector o c)
unfolding read_found
read_found-Reads c disk sector none (x, a) = (x, λ b h. cc)
read_found-Reads c disk sector (some i) (x, a) =
    let (t, e, n) = a i refl in
    (
      x,
      λ b h.
          read_slot-some c disk i sector none t b e n x (ap (read_slot (sector % 256)) (sym e) ∙ h),
    )

read_sectors-Reads :
    (c : DiskCache) (disk : ℕ → Block) (sector count : ℕ)
    → IsCoherent c disk
    → Reads disk sector (read_sectors sector count c)
unfolding read_sectors
read_sectors-Reads c disk sector count x =
    let found = get_track (sector % 2 ^ 32) c in
    if_intro (Reads disk sector) (not (count == 1)) {x = (none, c)}
      {y = read_found sector found.0 found.1} (x, λ b h. cc)
      (read_found-Reads found.1 disk sector found.0 (get_track-Assigns c disk (sector % 2 ^ 32) x))

-- `ReadSectors`, successful or not, keeps the disk that the cache stands for.
pub read_sectors-IsCoherent :
    (c : DiskCache) (disk : ℕ → Block) (sector count : ℕ)
    → IsCoherent c disk
    → IsCoherent (read_sectors sector count c).1 disk
read_sectors-IsCoherent c disk sector count x = (read_sectors-Reads c disk sector count x).0

-- What a successful `ReadSectors` gives is the sector, with the number in 32 bits, of the disk that
-- the cache stands for.
pub read_sectors-disk :
    (c : DiskCache) (disk : ℕ → Block) (sector count : ℕ) (b : Block)
    → IsCoherent c disk
    → (read_sectors sector count c).0 ≡ some b
    → b ≡ disk (sector % 2 ^ 32)
read_sectors-disk c disk sector count b x h = (read_sectors-Reads c disk sector count x).1 b h

-- The disk after a write.
abbrev pub written : (ℕ → Block) → ℕ → Block → ℕ → Block
written disk a b s = if s == a then b else disk s

-- What a write makes of a disk.
abbrev Writes : (ℕ → Block) → ℕ → Block → Bool × DiskCache → Type 0
Writes disk sector b r = IsCoherent r.1 (if r.0 then written disk (sector % 2 ^ 32) b else disk)

write_sector-keeps :
    (b : Block) (k : ℕ) (t : DiskTrack)
    → ((write_sector b k t).1.track_number ≡ t.track_number)
      × ((write_sector b k t).1.sector_count ≡ t.sector_count)
      × ((write_sector b k t).0 ≡ false → (write_sector b k t).1 ≡ t)
      × ((write_sector b k t).0 ≡ true → k < t.sector_count)
unfolding write_sector
write_sector-keeps b k t = ground arith

write_sector-buffer :
    (b : Block) (k l : ℕ) (t : DiskTrack)
    → (write_sector b k t).0 ≡ true
    → (write_sector b k t).1.buffer l ≡ (if l == k then b else t.buffer l)
unfolding write_sector
write_sector-buffer b k l t h =
    ground (arith, same_block-eq b (t.buffer k), ap t.buffer, ==_iff l k)

set_same-slot :
    (c : DiskCache) (i j : ℕ) (t t' : DiskTrack)
    → slot c i ≡ some t
    → t' ≡ t
    → slot (set_track i (some t') c) j ≡ slot c j
set_same-slot c i j t t' e h = elim (Bool-cases (j == i)) [
  | inl at ↦ ground (arith, at, ap (slot c) ((==_iff j i).0 at), e, ap (λ u. some u) h)
  | inr ne ↦ ground (arith, ne)
]

write_slot-Writes :
    (c : DiskCache) (disk : ℕ → Block) (b : Block) (i sector : ℕ) (t : DiskTrack)
    → slot c i ≡ some t
    → t.track_number ≡ (sector % 2 ^ 32) / 256
    → IsCoherent c disk
    → Writes disk sector b (write_slot b (sector % 256) i (some t) c)
unfolding write_slot
write_slot-Writes c disk b i sector t e n x =
    let k = sector % 256 in
    let a = sector % 2 ^ 32 in
    let r = write_sector b k t in
    let c1 = set_track i (some r.1) c in
    let keeps = write_sector-keeps b k t in
    let at : first_sector t + k ≡ a = ap (λ m. m * 256 + k) n ∙ sector_number sector in
    let number : first_sector r.1 ≡ first_sector t = ap (λ m. m * 256) keeps.0 in
    elim (Bool-cases r.0) [
      | inl good ↦
          subst (λ g. IsCoherent c1 (if g then written disk a b else disk)) (sym good)
            (set_track-IsCoherent c disk (written disk a b) i r.1 (used_slot c disk i t x e)
              (write_sector-IsInSync b k t c.file (x.synced i t e))
              (ground (arith, keeps, x.fits i t e))
              (λ j u m g q. absurd (m (x.distinct j i u t g e (q ∙ keeps.0))))
              (λ l below.
                let kept = x.cached i l t e (ground (arith, below, keeps)) in
                let same = write_sector-buffer b k l t good in
                let there = ap disk (ap (λ m. m + l) number) in
                ground (arith, kept, same, there, at, number))
              (λ s. elim (Bool-cases (s == a)) [
                | inl here ↦ inr (ground (arith, here, at, number, keeps, good))
                | inr other ↦ inl (ground (arith, other))
              ])
              (λ u g s on.
                let it : t ≡ u = ap (λ o. track_or o t) (sym e ∙ g) in
                let on_t = subst (IsOn s) (sym it) on in ground (arith, keeps, number, on_t))
              x)
      | inr bad ↦
          subst (λ g. IsCoherent c1 (if g then written disk a b else disk)) (sym bad)
            (same_slots-IsCoherent c c1 disk (λ j. set_same-slot c i j t r.1 e (keeps.2 bad)) refl
              x)
    ]

write_found-Writes :
    (c : DiskCache) (disk : ℕ → Block) (b : Block) (sector : ℕ) (o : Option ℕ)
    → Assigns disk ((sector % 2 ^ 32) / 256) (o, c)
    → Writes disk sector b (write_found b sector o c)
unfolding write_found write_slot
write_found-Writes c disk b sector none (x, a) = x
write_found-Writes c disk b sector (some i) (x, a) =
    let (t, e, n) = a i refl in
    subst (λ o. Writes disk sector b (write_slot b (sector % 256) i o c)) (sym e)
      (write_slot-Writes c disk b i sector t e n x)

-- `WriteSectors` changes, if it is successful, exactly the sector with the number in 32 bits of the
-- disk that the cache stands for, and otherwise nothing.
pub write_sectors-IsCoherent :
    (c : DiskCache) (disk : ℕ → Block) (b : Block) (sector count : ℕ)
    → IsCoherent c disk
    → IsCoherent
        (write_sectors b sector count c).1
        (if (write_sectors b sector count c).0 then written disk (sector % 2 ^ 32) b else disk)
unfolding write_sectors
write_sectors-IsCoherent c disk b sector count x =
    let found = get_track (sector % 2 ^ 32) c in
    if_intro (Writes disk sector b) (not (count == 1)) {x = (false, c)}
      {y = write_found b sector found.0 found.1} x
      (write_found-Writes found.1 disk b sector found.0
        (get_track-Assigns c disk (sector % 2 ^ 32) x))
