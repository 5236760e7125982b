-- ===== src/Devices/DiskTrack/Coherence.antt =====
-- A track in memory and the image file: cpp/devices/disk_track.cpp.
use piscsi.Common.{
  ℕ, ◌+◌, ◌-◌, ◌*◌, ◌<◌, ◌≡◌, ap, inl, inr, true, false, ◌&&◌, if◌then◌else◌, ltb, leb, ◌==◌, arith,
  Bool-cases, some, ==_iff,
}
use piscsi.Devices.ImageFile.{Block, ImageFile, next_outcome, next_outcome-sectors}
use piscsi.Devices.DiskTrack.{
  DiskTrack, first_sector, init, load, save, save_from, write_sector, read_sector,
}
use piscsi.Devices.DiskTrack.Laws.{same_block-eq, save_from-Saved}

-- A track in use: what is not marked as modified is as in the file.
pub record IsInSync (t : DiskTrack) (f : ImageFile) : Type 0 where
  pub initialized : t.is_initialized ≡ true
  pub modified : (k : ℕ) → t.is_modified ≡ false → t.modified_flags k ≡ false
  pub unmarked :
      (k : ℕ)
      → k < t.sector_count
      → t.modified_flags k ≡ false
      → t.buffer k ≡ f.sectors (first_sector t + k)

-- After a successful load that follows `Init` the track is in sync with the file that the load
-- leaves.
pub load-IsInSync :
    (t : DiskTrack) (n track sectors : ℕ) (f : ImageFile)
    → (load (init track sectors t) n f).0 ≡ true
    → IsInSync (load (init track sectors t) n f).1 (load (init track sectors t) n f).3
unfolding load init
load-IsInSync t n track sectors f h = record {
  initialized = ground arith;
  modified = λ k m. ground arith;
  unmarked = λ k a m.
      let f1 = (next_outcome f).1 in
      let f2 = (next_outcome f1).1 in
      ground (
        arith,
        next_outcome-sectors f (track * 256 + k),
        next_outcome-sectors f1 (track * 256 + k),
        next_outcome-sectors f2 (track * 256 + k),
      );
}

-- A track that is in sync with the file stays so in a write: every sector that then differs from
-- the file is marked.
pub write_sector-IsInSync :
    (b : Block) (k : ℕ) (t : DiskTrack) (f : ImageFile)
    → IsInSync t f
    → IsInSync (write_sector b k t).1 f
unfolding write_sector
write_sector-IsInSync b k t f c = ground (arith, same_block-eq b (t.buffer k))

-- What a write has accepted is read back, and a read of any other sector is as before.
pub read_sector-write_sector :
    (b : Block) (k l : ℕ) (t : DiskTrack)
    → (write_sector b k t).0 ≡ true
    → read_sector l (write_sector b k t).1 ≡ (if l == k then some b else read_sector l t)
unfolding write_sector read_sector
read_sector-write_sector b k l t h = ground (arith, same_block-eq b (t.buffer k), ==_iff l k)

-- A successful save of a track that is in sync with the file leaves the file with the sectors of
-- the track in their place, and with the others as they were.
pub save-sectors :
    (t : DiskTrack) (n : ℕ) (f : ImageFile) (s : ℕ)
    → IsInSync t f
    → (save t n f).0 ≡ true
    → (save t n f).3.sectors s ≡ (
        if leb (first_sector t) s && ltb s (first_sector t + t.sector_count)
        then t.buffer (s - first_sector t)
        else f.sectors s)
unfolding save
save-sectors t n f s c h =
    let f1 = (next_outcome f).1 in
    let inside = leb (first_sector t) s && ltb s (first_sector t + t.sector_count) in
    let back : inside ≡ true → f.sectors (first_sector t + (s - first_sector t)) ≡ f.sectors s =
      λ i. ap f.sectors (ground arith) in
    let below : inside ≡ true → s - first_sector t < t.sector_count = λ i. ground arith in
    elim (Bool-cases t.is_modified) [
      | inr clean ↦ ground (
        arith,
        back,
        below,
        c.modified (s - first_sector t) clean,
        c.unmarked (s - first_sector t),
      )
      | inl dirty ↦
          (let good : (save_from t.sector_count 0 t f1).0 ≡ true = ground (arith, c.initialized) in
            let saved = save_from-Saved t.sector_count 0 t f1 (omega arith) good s in
            ground (
              arith,
              back,
              below,
              saved,
              c.unmarked (s - first_sector t),
              next_outcome-sectors f s,
            ))
    ]
