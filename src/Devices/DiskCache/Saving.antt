-- ===== src/Devices/DiskCache/Saving.antt =====
-- A `Save` of a track in the cache: cpp/devices/disk_cache.cpp, `Assign` and `Flush`.
use piscsi.Common.{
  ℕ, ◌+◌, ◌-◌, ◌<◌, ◌≡◌, refl, subst, sym, ap, ◌∙◌, ◌⊎◌, inl, inr, true, false, arith, Bool-cases,
  some,
}
use piscsi.Devices.ImageFile.{Block, ImageFile}
use piscsi.Devices.DiskTrack.{DiskTrack, first_sector, save}
use piscsi.Devices.DiskTrack.Coherence.{IsInSync, save-sectors}
use piscsi.Devices.DiskCache.{DiskCache, set_track}
use piscsi.Devices.DiskCache.Coherence.{
  IsOn, IsCoherent, slot, save-either, set_file-IsCoherent, same_slots-IsCoherent,
}
use piscsi.Devices.DiskCache.Slots.{set_track-IsCoherent, used_slot, track_or}

pub save-keeps :
    (t : DiskTrack) (m : ℕ) (f : ImageFile)
    → ((save t m f).1.track_number ≡ t.track_number)
      × ((save t m f).1.sector_count ≡ t.sector_count)
      × ((save t m f).1.buffer ≡ t.buffer)
unfolding save
save-keeps t m f = ground arith

save-failed : (t : DiskTrack) (m : ℕ) (f : ImageFile) → (save t m f).0 ≡ false → (save t m f).1 ≡ t
unfolding save
save-failed t m f h = ground arith

save-initialized :
    (t : DiskTrack) (m : ℕ) (f : ImageFile) → IsInSync t f → (save t m f).1.is_initialized ≡ true
unfolding save
save-initialized t m f y = ground (arith, y.initialized)

pub save-unmarked :
    (t : DiskTrack) (m : ℕ) (f : ImageFile) (k : ℕ)
    → IsInSync t f
    → (save t m f).0 ≡ true
    → (save t m f).1.modified_flags k ≡ false
unfolding save
save-unmarked t m f k y h = ground (arith, y.initialized, y.modified k)

-- A save that is successful leaves the sectors of the track in the file.
pub save-on :
    (t : DiskTrack) (m : ℕ) (f : ImageFile) (k : ℕ)
    → IsInSync t f
    → (save t m f).0 ≡ true
    → k < t.sector_count
    → (save t m f).3.sectors (first_sector t + k) ≡ t.buffer k
save-on t m f k y h a =
    let at : first_sector t + k - first_sector t ≡ k = omega arith in
    ground (arith, save-sectors t m f (first_sector t + k) y h, ap t.buffer at)

save-IsInSync :
    (t : DiskTrack) (m : ℕ) (f : ImageFile)
    → IsInSync t f
    → IsInSync t (save t m f).3
    → IsInSync (save t m f).1 (save t m f).3
save-IsInSync t m f y z = elim (Bool-cases (save t m f).0) [
  | inr bad ↦ subst (λ u. IsInSync u (save t m f).3) (sym (save-failed t m f bad)) z
  | inl good ↦ record {
    initialized = save-initialized t m f y;
    modified = λ k _. save-unmarked t m f k y good;
    unmarked = λ k a _.
        let keeps = save-keeps t m f in
        ground (arith, keeps, ap (λ b. b k) keeps.2, save-on t m f k y good);
  }
]

-- The cache with the file that a save has left.
pub after_save-IsCoherent :
    (c : DiskCache) (disk : ℕ → Block) (i : ℕ) (t : DiskTrack) (m m' : ℕ)
    → slot c i ≡ some t
    → IsCoherent c disk
    → IsCoherent (record c { cache_miss_write_count = m'; file = (save t m c.file).3 }) disk
after_save-IsCoherent c disk i t m m' e x =
    let either : (s : ℕ)
        → ((save t m c.file).3.sectors s ≡ c.file.sectors s)
          ⊎ ((save t m c.file).3.sectors s ≡ disk s) =
      λ s. elim (save-either t m c.file s) [
        | inl same ↦ inl same
        | inr (on, w) ↦
            (let back : first_sector t + (s - first_sector t) ≡ s = omega (arith, on) in
              inr (w ∙ x.cached i (s - first_sector t) t e (omega (arith, on)) ∙ ap disk back))
      ] in
    same_slots-IsCoherent (record c { file = (save t m c.file).3 }) _ disk (λ j. refl) refl
      (set_file-IsCoherent c disk (save t m c.file).3 either x)

pub saved_track-IsCoherent :
    (c : DiskCache) (disk : ℕ → Block) (i : ℕ) (t : DiskTrack) (m m' : ℕ)
    → slot c i ≡ some t
    → IsCoherent c disk
    → IsCoherent
        (set_track i
          (some (save t m c.file).1)
          (record c { cache_miss_write_count = m'; file = (save t m c.file).3 }))
        disk
saved_track-IsCoherent c disk i t m m' e x =
    let c1 = record c { cache_miss_write_count = m'; file = (save t m c.file).3 } in
    let x1 : IsCoherent c1 disk = after_save-IsCoherent c disk i t m m' e x in
    let keeps = save-keeps t m c.file in
    let sync = save-IsInSync t m c.file (x.synced i t e) (x1.synced i t e) in
    set_track-IsCoherent c1 disk disk i (save t m c.file).1 (used_slot c disk i t x e) sync
      (ground (arith, keeps, x.fits i t e))
      (λ j u n g q. absurd (n (x.distinct j i u t g e (q ∙ keeps.0))))
      (λ k a. ground (arith, keeps, ap (λ b. b k) keeps.2, x.cached i k t e)) (λ s. inl refl)
      (λ u g s on.
        let it : t ≡ u = ap (λ o. track_or o t) (sym e ∙ g) in
        let on_t = subst (IsOn s) (sym it) on in ground (arith, keeps, on_t))
      x1
