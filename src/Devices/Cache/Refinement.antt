-- ===== src/Devices/Cache/Refinement.antt =====
-- Both caches (cpp/devices/disk_cache.cpp, linux_cache.cpp) behave as the disk that they stand for.
use piscsi.Common.{
  ◌⊎◌, inl, inr, Bool-cases, false, ℕ, ◌+◌, ◌*◌, ◌%◌, ◌^◌, ◌≤◌, ◌<◌, ◌≡◌, refl, subst, sym, ap, ◌∙◌,
  fun_ext, true, Option, none, some, List, [], ◌∷◌, arith, if_true, get_or, if◌then◌else◌, ◌==◌,
  ◌-◌,
}
use piscsi.Devices.ImageFile.{Block}
use piscsi.Devices.DiskCache.{DiskCache}
use piscsi.Devices.DiskCache
use piscsi.Devices.DiskCache.Coherence.{IsCoherent}
use piscsi.Devices.DiskCache.Refinement.{
  written, read_sectors-IsCoherent, read_sectors-disk, write_sectors-IsCoherent,
}
use piscsi.Devices.DiskCache.Flushing.{flush-IsCoherent, flush-sectors}
use piscsi.Devices.LinuxCache.{run_sectors}
use piscsi.Devices.LinuxCache.Laws.{
  with_run, read_sectors-run, read_sectors-sectors, write_sectors-run, flush-file, run_sectors-ext,
}
use piscsi.Devices.Cache.{Cache, track_cache, linux_cache, read_sectors, write_sectors, flush, file}

-- The disk, as a function from sector numbers to sectors, that a cache stands for.
abbrev pub StandsFor : Cache → (ℕ → Block) → Type 0
StandsFor (track_cache c) disk = IsCoherent c disk
StandsFor (linux_cache c) disk = (s : ℕ) → c.file.sectors s ≡ disk s

-- The length in bytes of a transfer of `count` sectors fits into 32 bits.
abbrev pub IsTransferable : Cache → ℕ → Type 0
IsTransferable (track_cache c) count = Unit {0}
IsTransferable (linux_cache c) count = c.sector_size * count < 2 ^ 32

-- A read, successful or not, keeps the disk that a cache of either class stands for.
pub read_sectors-StandsFor :
    (c : Cache) (disk : ℕ → Block) (start count : ℕ)
    → StandsFor c disk
    → StandsFor (read_sectors start count c).1 disk
unfolding read_sectors
read_sectors-StandsFor (track_cache c) disk start count x =
    read_sectors-IsCoherent c disk start count x
read_sectors-StandsFor (linux_cache c) disk start count x =
    λ s. read_sectors-sectors c start count s ∙ x s

track_read-one :
    (c : DiskCache) (start count : ℕ) (b : Block)
    → (DiskCache.read_sectors start count c).0 ≡ some b
    → count ≡ 1
unfolding DiskCache.read_sectors
track_read-one c start count b h = ground arith

track_write-one :
    (c : DiskCache) (start count : ℕ) (b : Block)
    → (DiskCache.write_sectors b start count c).0 ≡ true
    → count ≡ 1
unfolding DiskCache.write_sectors
track_write-one c start count b h = ground arith

-- What a successful read gives are the sectors of the disk that a cache of either class stands for.
pub read_sectors-run_sectors :
    (c : Cache) (disk : ℕ → Block) (start count : ℕ) (bs : List Block)
    → StandsFor c disk
    → IsTransferable c count
    → start + count ≤ 2 ^ 32
    → (read_sectors start count c).0 ≡ some bs
    → bs ≡ run_sectors disk start count
unfolding read_sectors run_sectors
read_sectors-run_sectors (track_cache c) disk start count bs x t h e =
    on_block (DiskCache.read_sectors start count c).0 refl e
  where
    on_block :
        (o : Option Block)
        → (DiskCache.read_sectors start count c).0 ≡ o
        → (elim o as (λ _. Option (List Block)) [ none ↦ none | some b ↦ some (b ∷ []) ]) ≡ some bs
        → bs ≡ run_sectors disk start count
    on_block none p q = cc q
    on_block (some b) p q =
        let one = track_read-one c start count b p in
        let same : start % 2 ^ 32 ≡ start = omega arith in
        let content = read_sectors-disk c disk start count b x p in
        let run : run_sectors disk start 1 ≡ disk start ∷ [] = refl in
        cc (q, one, same, content, run)
read_sectors-run_sectors (linux_cache c) disk start count bs x t h e =
    let (run, _) = read_sectors-run c start count bs t (omega arith) e in
    run ∙ run_sectors-ext c.file.sectors disk start count x

written-with_run :
    (disk : ℕ → Block) (start : ℕ) (blocks : List Block)
    → written disk start (get_or blocks 0 []) ≡ with_run disk start 1 blocks
written-with_run disk start blocks = fun_ext λ s. at s (Bool-cases (s == start))
  where
    at :
        (s : ℕ)
        → ((s == start) ≡ true) ⊎ ((s == start) ≡ false)
        → written disk start (get_or blocks 0 []) s ≡ with_run disk start 1 blocks s
    at s (inl e) =
        let first : s - start ≡ 0 = ground arith in
        ground (arith, ap (λ k. get_or blocks k []) first)
    at s (inr e) = ground arith

-- After a successful write a cache of either class stands for the disk with the written sectors.
pub write_sectors-with_run :
    (c : Cache) (disk : ℕ → Block) (blocks : List Block) (start count : ℕ)
    → StandsFor c disk
    → IsTransferable c count
    → start < 2 ^ 32
    → (write_sectors blocks start count c).0 ≡ true
    → StandsFor (write_sectors blocks start count c).1 (with_run disk start count blocks)
unfolding write_sectors
write_sectors-with_run (track_cache c) disk blocks start count x t h e =
    let b = get_or blocks 0 [] in
    let r = DiskCache.write_sectors b start count c in
    let one = track_write-one c start count b e in
    let same : start % 2 ^ 32 ≡ start = omega arith in
    let run : (if r.0 then written disk (start % 2 ^ 32) b else disk)
        ≡ with_run disk start count blocks =
      if_true disk r.0 e
      ∙ ap (λ k. written disk k b) same
      ∙ written-with_run disk start blocks
      ∙ ap (λ n. with_run disk start n blocks) (sym one) in
    subst (IsCoherent r.1) run (write_sectors-IsCoherent c disk b start count x)
write_sectors-with_run (linux_cache c) disk blocks start count x t h e =
    λ s. write_sectors-run c blocks start count s t e ∙ ground (arith, x s)

-- Flush keeps the disk, and after a successful one the file has all its sectors.
pub flush-StandsFor : (c : Cache) (disk : ℕ → Block) → StandsFor c disk → StandsFor (flush c).1 disk
unfolding flush
flush-StandsFor (track_cache c) disk x = flush-IsCoherent c disk x
flush-StandsFor (linux_cache c) disk x = λ s. flush-file c s ∙ x s

pub flush-file_sectors :
    (c : Cache) (disk : ℕ → Block) (s : ℕ)
    → StandsFor c disk
    → (flush c).0 ≡ true
    → (file (flush c).1).sectors s ≡ disk s
unfolding flush
flush-file_sectors (track_cache c) disk s x e = flush-sectors c disk s x e
flush-file_sectors (linux_cache c) disk s x e = flush-file c s ∙ x s
