-- ===== src/Devices/Disk/Sectors.antt =====
-- The sectors that `ReadData` and `WriteData` of cpp/devices/disk.cpp move, for both caches.
use piscsi.Common.{
  ℕ, ◌+◌, ◌%◌, ◌^◌, ◌≤◌, ◌<◌, ◌≡◌, refl, sym, ap, ◌∙◌, Bool, true, false, not, ◌&&◌, ◌||◌, Option,
  none, some, List, ◌==◌, arith, write_at, subst, if_false, if_true,
}
use piscsi.Scsi.{write_long_10, write_long_16, verify_10, verify_16}
use piscsi.Controllers.State.{Controller, ok, opcode}
use piscsi.Devices.ImageFile.{Block}
use piscsi.Devices.LinuxCache.{run_sectors}
use piscsi.Devices.LinuxCache.Laws.{with_run}
use piscsi.Devices.Cache.{Cache}
use piscsi.Devices.Cache.Refinement.{
  StandsFor, IsTransferable, read_sectors-StandsFor, read_sectors-run_sectors,
  write_sectors-with_run,
}
use piscsi.Devices.StorageDevice.{update_storage}
use piscsi.Devices.Disk.{Disks, update_disk}
use piscsi.Devices.Disk.Access.{
  concat, blocks_of, read_cache, write_cache, after_read_sectors, after_write_sectors, read_next,
  read_data, write_next, write_data, set_cache,
}
use piscsi.Devices.Disk.Ranges.{ready_then-ok}

-- The disk for which the cache of a LUN stands; without a cache there is none.
abbrev pub Holds : Option Cache → (ℕ → Block) → Type 0
Holds none disk = Unit {0}
Holds (some c) disk = StandsFor c disk

abbrev pub CanTransfer : Option Cache → ℕ → Type 0
CanTransfer none count = Unit {0}
CanTransfer (some c) count = IsTransferable c count

read_cache-Holds :
    (o : Option Cache) (disk : ℕ → Block) (start count : ℕ)
    → Holds o disk
    → Holds (read_cache start count o).1 disk
unfolding read_cache
read_cache-Holds none disk start count x = tt
read_cache-Holds (some c) disk start count x = read_sectors-StandsFor c disk start count x

read_cache-run :
    (o : Option Cache) (disk : ℕ → Block) (start count : ℕ) (bs : List Block)
    → Holds o disk
    → CanTransfer o count
    → start + count ≤ 2 ^ 32
    → (read_cache start count o).0 ≡ some bs
    → bs ≡ run_sectors disk start count
unfolding read_cache
read_cache-run none disk start count bs x t h e = cc e
read_cache-run (some c) disk start count bs x t h e =
    read_sectors-run_sectors c disk start count bs x t h e

-- What a call of `ReadData` leaves: the next sectors of the disk in the buffer, and the number of the
-- sector behind them.
pub record Reads (disk : ℕ → Block) (lun : ℕ) (s t : Controller Disks) : Type 0 where
  pub buffer :
      t.buffer
      ≡ write_at s.buffer 0 (
          concat (
            run_sectors disk
              (s.extra.unit lun).next_sector
              (s.extra.unit lun).sector_transfer_count))
  pub next_sector :
      (t.extra.unit lun).next_sector
      ≡ (s.extra.unit lun).next_sector + (s.extra.unit lun).sector_transfer_count
  pub holds : Holds (t.extra.unit lun).cache disk

after_read_sectors-Reads :
    (lun : ℕ) (s : Controller Disks) (disk : ℕ → Block) (n : ℕ) (c : Option Cache)
    (o : Option (List Block))
    → (s.extra.unit lun).next_sector + (s.extra.unit lun).sector_transfer_count ≤ 2 ^ 32
    → Holds c disk
    → ((bs : List Block)
        → o ≡ some bs
        → bs
          ≡ run_sectors disk
              (s.extra.unit lun).next_sector
              (s.extra.unit lun).sector_transfer_count)
    → (after_read_sectors lun o (set_cache lun c s)).0 ≡ ok n
    → Reads disk lun s (after_read_sectors lun o (set_cache lun c s)).1
unfolding after_read_sectors update_disk update_storage
after_read_sectors-Reads lun s disk n c none small x run h = cc h
after_read_sectors-Reads lun s disk n c (some bs) small x run h = record {
  buffer = ap (λ b. write_at s.buffer 0 (concat b)) (run bs refl);
  next_sector = ground arith;
  holds =
      let t = (after_read_sectors lun (some bs) (set_cache lun c s)).1 in
      let same : (t.extra.unit lun).cache ≡ c = ground arith in
      subst (λ d. Holds d disk) (sym same) x;
}

read_next-Reads :
    (lun : ℕ) (s : Controller Disks) (disk : ℕ → Block) (n : ℕ)
    → Holds (s.extra.unit lun).cache disk
    → CanTransfer (s.extra.unit lun).cache (s.extra.unit lun).sector_transfer_count
    → (s.extra.unit lun).next_sector < 2 ^ 32
    → (s.extra.unit lun).next_sector + (s.extra.unit lun).sector_transfer_count ≤ 2 ^ 32
    → (read_next lun s).0 ≡ ok n
    → Reads disk lun s (read_next lun s).1
unfolding read_next
read_next-Reads lun s disk n x t l h e =
    let d = s.extra.unit lun in
    let exact : d.next_sector % 2 ^ 32 ≡ d.next_sector = omega arith in
    let r = read_cache (d.next_sector % 2 ^ 32) d.sector_transfer_count d.cache in
    let kept = read_cache-Holds d.cache disk (d.next_sector % 2 ^ 32) d.sector_transfer_count x in
    let run = λ (bs : List Block) (g : r.0 ≡ some bs).
      read_cache-run d.cache disk d.next_sector d.sector_transfer_count bs x t h
        (ap (λ k. (read_cache k d.sector_transfer_count d.cache).0) (sym exact) ∙ g) in
    after_read_sectors-Reads lun s disk n r.1 r.0 h kept run e

-- After a successful `ReadData` the buffer starts with the next sectors of the disk that the cache
-- stands for, the next sector is the one behind them, and the cache still stands for the disk. The
-- sectors have numbers of 32 bits; by the other class of cache than the one of tracks the transfer has
-- less than 2^32 bytes.
pub read_data-Reads :
    (lun : ℕ) (s : Controller Disks) (disk : ℕ → Block) (n : ℕ)
    → Holds (s.extra.unit lun).cache disk
    → CanTransfer (s.extra.unit lun).cache (s.extra.unit lun).sector_transfer_count
    → (s.extra.unit lun).next_sector < 2 ^ 32
    → (s.extra.unit lun).next_sector + (s.extra.unit lun).sector_transfer_count ≤ 2 ^ 32
    → (read_data lun s).0 ≡ ok n
    → Reads disk lun s (read_data lun s).1
unfolding read_data
read_data-Reads lun s disk n x t l h e =
    let same = ready_then-ok lun (read_next lun) s n e in
    let good = ap (λ r. r.0) (sym same) ∙ e in
    subst (λ r. Reads disk lun s (r.1)) (sym same) (read_next-Reads lun s disk n x t l h good)

write_cache-with_run :
    (o : Option Cache) (disk : ℕ → Block) (blocks : List Block) (start count : ℕ)
    → Holds o disk
    → CanTransfer o count
    → start < 2 ^ 32
    → (write_cache blocks start count o).0 ≡ true
    → Holds (write_cache blocks start count o).1 (with_run disk start count blocks)
unfolding write_cache
write_cache-with_run none disk blocks start count x t h e = tt
write_cache-with_run (some c) disk blocks start count x t h e =
    write_sectors-with_run c disk blocks start count x t h e

-- The disk with the sectors in the buffer from the next sector on.
abbrev pub written_disk : (ℕ → Block) → ℕ → Controller Disks → ℕ → Block
written_disk disk lun s =
    let d = s.extra.unit lun in
    with_run disk d.next_sector d.sector_transfer_count
      (blocks_of d.sector_transfer_count (s.extra.storage lun).block_size s.buffer)

-- What a call of `WriteData` leaves for a command that writes sectors.
pub record Writes (disk : ℕ → Block) (lun : ℕ) (s t : Controller Disks) : Type 0 where
  pub next_sector :
      (t.extra.unit lun).next_sector
      ≡ (s.extra.unit lun).next_sector + (s.extra.unit lun).sector_transfer_count
  pub holds : Holds (t.extra.unit lun).cache (written_disk disk lun s)

-- The commands of the disk that write sectors by `WriteData`, beside WRITE LONG and VERIFY.
abbrev pub IsWriting : ℕ → Type 0
IsWriting cmd =
    (cmd == write_long_10 || cmd == write_long_16 ≡ false)
    × (not (cmd == verify_10) && not (cmd == verify_16) ≡ true)

after_write_sectors-Writes :
    (lun l : ℕ) (s : Controller Disks) (disk : ℕ → Block) (n : ℕ) (c : Option Cache) (good : Bool)
    → (s.extra.unit lun).next_sector + (s.extra.unit lun).sector_transfer_count < 2 ^ 64
    → (good ≡ true → Holds c (written_disk disk lun s))
    → (after_write_sectors lun l good (set_cache lun c s)).0 ≡ ok n
    → Writes disk lun s (after_write_sectors lun l good (set_cache lun c s)).1
unfolding after_write_sectors update_disk update_storage
after_write_sectors-Writes lun l s disk n c false small x h = cc h
after_write_sectors-Writes lun l s disk n c true small x h = record {
  next_sector = ground arith;
  holds =
      let t = (after_write_sectors lun l true (set_cache lun c s)).1 in
      let same : (t.extra.unit lun).cache ≡ c = ground arith in
      subst (λ d. Holds d (written_disk disk lun s)) (sym same) (x refl);
}

-- A write in the state `s` is the one to the cache.
write_next-sectors :
    (lun l : ℕ) (s : Controller Disks)
    → IsWriting (opcode s)
    → write_next lun l s ≡ (
        let d = s.extra.unit lun in
        let r =
          write_cache
            (blocks_of d.sector_transfer_count (s.extra.storage lun).block_size s.buffer)
            (d.next_sector % 2 ^ 32)
            d.sector_transfer_count
            d.cache in
        after_write_sectors lun l r.0 (set_cache lun r.1 s))
unfolding write_next
write_next-sectors lun l s (a, b) = if_false _ _ a ∙ if_true _ _ b

-- After a successful `WriteData` for a command that writes sectors, where the number of the next
-- sector has 32 bits, the cache stands for the disk with the sectors of the buffer from the next
-- sector on, and the next sector is the one behind them, with a number of 64 bits. By the other class
-- of cache than the one of tracks the transfer has less than 2^32 bytes.
pub write_data-Writes :
    (lun l : ℕ) (s : Controller Disks) (disk : ℕ → Block) (n : ℕ)
    → IsWriting (opcode s)
    → Holds (s.extra.unit lun).cache disk
    → CanTransfer (s.extra.unit lun).cache (s.extra.unit lun).sector_transfer_count
    → (s.extra.unit lun).next_sector < 2 ^ 32
    → (s.extra.unit lun).next_sector + (s.extra.unit lun).sector_transfer_count < 2 ^ 64
    → (write_data lun l s).0 ≡ ok n
    → Writes disk lun s (write_data lun l s).1
unfolding write_data
write_data-Writes lun l s disk n w x t h small e =
    let d = s.extra.unit lun in
    let blocks = blocks_of d.sector_transfer_count (s.extra.storage lun).block_size s.buffer in
    let exact : d.next_sector % 2 ^ 32 ≡ d.next_sector = omega arith in
    let r = write_cache blocks d.next_sector d.sector_transfer_count d.cache in
    let same =
      ready_then-ok lun (write_next lun l) s n e
      ∙ write_next-sectors lun l s w
      ∙ ap
          (λ k.
            let q = write_cache blocks k d.sector_transfer_count d.cache in
            after_write_sectors lun l q.0 (set_cache lun q.1 s))
          exact in
    let good = ap (λ q. q.0) (sym same) ∙ e in
    let holds =
      write_cache-with_run d.cache disk blocks d.next_sector d.sector_transfer_count x t h in
    subst (λ q. Writes disk lun s (q.1)) (sym same)
      (after_write_sectors-Writes lun l s disk n r.1 r.0 small holds good)
