-- ===== src/Devices/LinuxCache/Laws.antt =====
-- The file behind cpp/devices/linux_cache.cpp after reads and writes.
use piscsi.Common.{
  ◌⊎◌, subst, inl, inr, ℕ, zero, suc, ◌+◌, ◌-◌, ◌*◌, ◌/◌, ◌%◌, ◌^◌, ◌≤◌, ◌<◌, ◌≡◌, refl, ap, ◌∙◌,
  true, false, ◌&&◌, some, List, [], if◌then◌else◌, ltb, leb, get_or, arith,
}
use native.Mathlib.Nat.{mul-div_cancel_left}
use piscsi.Devices.ImageFile.{Block, next_outcome, write_run, next_outcome-sectors}
use piscsi.Devices.LinuxCache.{
  LinuxCache, is_length, run_sectors, read, write, flush, read_sectors, write_sectors,
}

-- Sectors after a write of a run of blocks from `start` on.
abbrev pub with_run : (ℕ → Block) → ℕ → ℕ → List Block → ℕ → Block
with_run disk start n blocks s =
    if leb start s && ltb s (start + n) then get_or blocks (s - start) [] else disk s

pub run_sectors-ext :
    (f g : ℕ → Block) (start n : ℕ)
    → ((s : ℕ) → f s ≡ g s)
    → run_sectors f start n ≡ run_sectors g start n
unfolding run_sectors
run_sectors-ext f g start zero e = refl
run_sectors-ext f g start (suc n) e = cc (e start, run_sectors-ext f g (start + 1) n e)

-- A read leaves every sector as it is.
pub read-sectors :
    (c : LinuxCache) (start n s : ℕ) → (read start n c).1.file.sectors s ≡ c.file.sectors s
unfolding read
read-sectors c start n s = ground (arith, next_outcome-sectors c.file s)

-- What a read gives are the sectors of the file.
pub read-run :
    (c : LinuxCache) (start n : ℕ) (bs : List Block)
    → (read start n c).0 ≡ some bs
    → bs ≡ run_sectors c.file.sectors start (n / c.sector_size)
unfolding read
read-run c start n bs h =
    let same =
      run_sectors-ext (next_outcome c.file).1.sectors c.file.sectors start (n / c.sector_size)
        (next_outcome-sectors c.file) in
    ground (arith, same)

pub flush-file : (c : LinuxCache) (s : ℕ) → (flush c).1.file.sectors s ≡ c.file.sectors s
unfolding flush
flush-file c s = ground (arith, next_outcome-sectors c.file s)

-- A write changes the sectors of its run, or, where it fails, perhaps none of them.
pub write-sectors :
    (c : LinuxCache) (blocks : List Block) (start n s : ℕ)
    → ((write blocks start n c).1.file.sectors s
        ≡ with_run c.file.sectors start (n / c.sector_size) blocks s)
      ⊎ ((write blocks start n c).0 ≡ false)
        × ((write blocks start n c).1.file.sectors s ≡ c.file.sectors s)
unfolding write write_run
write-sectors c blocks start n s =
    let (good, file') = next_outcome c.file in
    let same = next_outcome-sectors c.file s in
    let f = write_run (λ i. get_or blocks i []) start 0 (n / c.sector_size) file' in
    ground (arith, same, flush-file c s, flush-file (record c { file = f }) s)

-- A transfer whose length does not wrap around is one of `count` sectors.
transfer_size :
    (c : LinuxCache) (count : ℕ)
    → c.sector_size * count < 2 ^ 32
    → is_length (c.sector_size * count % 2 ^ 32) ≡ true
    → c.sector_size * count % 2 ^ 32 / c.sector_size ≡ count
transfer_size c count h l =
    let exact : c.sector_size * count % 2 ^ 32 ≡ c.sector_size * count = omega arith in
    let positive : 0 < c.sector_size * count = ground arith in
    let size : 0 < c.sector_size = factor c.sector_size positive in
    cc (exact, mul-div_cancel_left count size)
  where
    factor : (n : ℕ) → 0 < n * count → 0 < n
    factor zero p = omega arith
    factor (suc n) p = omega arith

read-is_length :
    (c : LinuxCache) (start n : ℕ) (bs : List Block)
    → (read start n c).0 ≡ some bs
    → is_length n ≡ true
unfolding read
read-is_length c start n bs h = ground arith

-- A read that succeeds is within the disk.
read_sectors-read :
    (c : LinuxCache) (start count : ℕ) (bs : List Block)
    → start + count < 2 ^ 64
    → (read_sectors start count c).0 ≡ some bs
    → ((read start (c.sector_size * count % 2 ^ 32) c).0 ≡ some bs) × (start + count ≤ c.sectors)
unfolding read_sectors
read_sectors-read c start count bs small e =
    let exact : (start + count) % 2 ^ 64 ≡ start + count = omega arith in ground (arith, exact)

-- A successful read of a run whose length does not wrap around gives its sectors, which lie on the
-- disk.
pub read_sectors-run :
    (c : LinuxCache) (start count : ℕ) (bs : List Block)
    → c.sector_size * count < 2 ^ 32
    → start + count < 2 ^ 64
    → (read_sectors start count c).0 ≡ some bs
    → (bs ≡ run_sectors c.file.sectors start count) × (start + count ≤ c.sectors)
read_sectors-run c start count bs h small e =
    let (good, fits) = read_sectors-read c start count bs small e in
    let n = c.sector_size * count % 2 ^ 32 in
    let size = transfer_size c count h (read-is_length c start n bs good) in
    (subst (λ k. bs ≡ run_sectors c.file.sectors start k) size (read-run c start n bs good), fits)

pub read_sectors-sectors :
    (c : LinuxCache) (start count s : ℕ)
    → (read_sectors start count c).1.file.sectors s ≡ c.file.sectors s
unfolding read_sectors
read_sectors-sectors c start count s =
    ground (arith, read-sectors c start (c.sector_size * count % 2 ^ 32) s)

write-is_length :
    (c : LinuxCache) (blocks : List Block) (start n : ℕ)
    → (write blocks start n c).0 ≡ true
    → is_length n ≡ true
unfolding write
write-is_length c blocks start n h = ground arith

write_sectors-write :
    (c : LinuxCache) (blocks : List Block) (start count : ℕ)
    → (write_sectors blocks start count c).0 ≡ true
    → write_sectors blocks start count c ≡ write blocks start (c.sector_size * count % 2 ^ 32) c
unfolding write_sectors
write_sectors-write c blocks start count h = ground arith

-- A successful write of a run whose length does not wrap around writes exactly its sectors.
pub write_sectors-run :
    (c : LinuxCache) (blocks : List Block) (start count s : ℕ)
    → c.sector_size * count < 2 ^ 32
    → (write_sectors blocks start count c).0 ≡ true
    → (write_sectors blocks start count c).1.file.sectors s
      ≡ with_run c.file.sectors start count blocks s
write_sectors-run c blocks start count s h e =
    let n = c.sector_size * count % 2 ^ 32 in
    let same = write_sectors-write c blocks start count e in
    let good : (write blocks start n c).0 ≡ true = cc (same, e) in
    let size = transfer_size c count h (write-is_length c blocks start n good) in
    elim (write-sectors c blocks start n s) [
      | inl x ↦
          ap (λ r. r.1.file.sectors s) same
          ∙ x
          ∙ ap (λ k. with_run c.file.sectors start k blocks s) size
      | inr (bad, _) ↦ cc (good, bad)
    ]
