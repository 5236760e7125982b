-- ===== src/Devices/Tests.antt =====
-- Runs of the code under cpp/devices.
use piscsi.Common.{
  Bool, ℕ, ◌+◌, ◌≡◌, refl, true, false, [], ◌∷◌, arith, some, none, if◌then◌else◌, ◌==◌,
}
use piscsi.Devices.ImageFile.{ImageFile, Block}
use piscsi.Devices.DiskCache.{DiskCache, read_sectors, write_sectors, flush}
use piscsi.Devices.DiskCache
use piscsi.Devices.DiskCache.Coherence.{IsCoherent}
use piscsi.Devices.DiskCache.Refinement.{
  written, read_sectors-IsCoherent, read_sectors-disk, write_sectors-IsCoherent,
}
use piscsi.Devices.DiskCache.Availability.{IsSized, read_sectors-some}
use piscsi.Devices.DiskCache.Flushing.{flush-sectors, empty-IsCoherent}
use piscsi.Devices.DiskTrack.{DiskTrack, new_track, init, load, save, read_sector, write_sector}
use piscsi.Devices.DiskTrack
use piscsi.Devices.ImageFile
use piscsi.Devices.DiskTrack.Coherence.{IsInSync, save-sectors}

-- Each sector holds its number.
abbrev small_file : ImageFile
small_file = record { sectors = λ s. s ∷ []; outcomes = [] }

abbrev loaded : DiskTrack
loaded = record {
  track_number = 1;
  sector_count = 4;
  buffer = λ i. (256 + i) ∷ [];
  is_initialized = true;
  is_modified = false;
  modified_flags = λ _. false;
}

abbrev changed : DiskTrack
changed = record loaded {
  buffer = λ i. if i == 2 then 9 ∷ [] else (256 + i) ∷ [];
  is_modified = true;
  modified_flags = λ i. i == 2;
}

loaded-IsInSync : IsInSync loaded small_file
loaded-IsInSync = record { initialized = refl; modified = λ k m. refl; unmarked = λ k a m. refl }

changed-IsInSync : IsInSync changed small_file
changed-IsInSync = record {
  initialized = refl;
  modified = λ k m. ground arith;
  unmarked = λ k a m. ground arith;
}

-- The file after the save of a track in which sector 258 has been written.
save-sectors_example : (save changed 0 small_file).3.sectors 258 ≡ 9 ∷ []
unfolding save DiskTrack.save_from DiskTrack.run_end ImageFile.next_outcome ImageFile.write_run
save-sectors_example = save-sectors changed 0 small_file 258 changed-IsInSync refl

-- A new cache of 600 sectors, and the cache after a write to sector 300.
abbrev fresh : DiskCache
fresh = record {
  cache = λ _. record { disktrk = none; serial = 0 };
  last_serial = 0;
  blocks = 600;
  file = small_file;
  read_error_count = 0;
  cache_miss_read_count = 0;
  cache_miss_write_count = 0;
}

abbrev fresh_write : Bool × DiskCache
fresh_write = write_sectors (9 ∷ []) 300 1 fresh

abbrev fresh_disk : ℕ → Block
fresh_disk = if fresh_write.0 then written small_file.sectors 300 (9 ∷ []) else small_file.sectors

fresh-IsCoherent : IsCoherent fresh small_file.sectors
fresh-IsCoherent = empty-IsCoherent fresh (λ _. refl)

write_sectors-IsCoherent_example : IsCoherent fresh_write.1 fresh_disk
write_sectors-IsCoherent_example =
    write_sectors-IsCoherent fresh small_file.sectors (9 ∷ []) 300 1 fresh-IsCoherent

fresh_write-IsCoherent : IsCoherent fresh_write.1 fresh_disk
fresh_write-IsCoherent =
    write_sectors-IsCoherent fresh small_file.sectors (9 ∷ []) 300 1 fresh-IsCoherent

read_sectors-IsCoherent_example : IsCoherent (read_sectors 300 1 fresh_write.1).1 fresh_disk
read_sectors-IsCoherent_example =
    read_sectors-IsCoherent fresh_write.1 fresh_disk 300 1 fresh_write-IsCoherent

read_back : (read_sectors 300 1 fresh_write.1).0 ≡ some (9 ∷ [])
unfolding read_sectors DiskCache.read_found DiskCache.get_track DiskCache.update_serial
    DiskCache.assign DiskCache.assign_found DiskCache.assign_empty DiskCache.find_slot
    DiskCache.load_slot DiskCache.load_track load init write_sectors DiskCache.write_found
    DiskCache.write_slot write_sector read_sector DiskTrack.same_block ImageFile.next_outcome
read_back = refl

read_sectors-disk_example : 9 ∷ [] ≡ fresh_disk 300
read_sectors-disk_example =
    read_sectors-disk fresh_write.1 fresh_disk 300 1 (9 ∷ []) fresh_write-IsCoherent read_back

flushed : (flush fresh_write.1).0 ≡ true
unfolding read_sectors DiskCache.read_found DiskCache.get_track DiskCache.update_serial
    DiskCache.assign DiskCache.assign_found DiskCache.assign_empty DiskCache.find_slot
    DiskCache.load_slot DiskCache.load_track load init write_sectors DiskCache.write_found
    DiskCache.write_slot write_sector read_sector DiskTrack.same_block ImageFile.next_outcome flush
    DiskCache.flush_from DiskCache.flush_slot save DiskTrack.save_from DiskTrack.run_end
    ImageFile.write_run
flushed = refl

flush-sectors_example : (flush fresh_write.1).1.file.sectors 300 ≡ fresh_disk 300
flush-sectors_example = flush-sectors fresh_write.1 fresh_disk 300 fresh_write-IsCoherent flushed

fresh-IsSized : IsSized fresh
fresh-IsSized i t e = cc

read_sectors-some_example : (read_sectors 300 1 fresh).0 ≡ some (300 ∷ [])
read_sectors-some_example =
    read_sectors-some fresh small_file.sectors 300 fresh-IsCoherent fresh-IsSized refl (omega arith)
      (omega arith)
