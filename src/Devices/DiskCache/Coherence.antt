-- ===== src/Devices/DiskCache/Coherence.antt =====
-- The cache of tracks and the disk that it stands for: cpp/devices/disk_cache.cpp. The disk gives
-- each sector the data that was last written, in the cache or in the file.
use piscsi.Common.{
  ℕ, zero, suc, ◌+◌, ◌-◌, ◌≤◌, ◌<◌, ◌≡◌, refl, sym, ap, ◌∙◌, ◌⊎◌, inl, inr, arith, Option, none,
  some,
}
use piscsi.Devices.ImageFile.{Block, ImageFile, next_outcome, next_outcome-sectors, write_run}
use piscsi.Devices.DiskTrack.{DiskTrack, first_sector, save, save_from, run_end}
use piscsi.Devices.DiskTrack.Laws.{run_end_bounds}
use piscsi.Devices.DiskTrack.Coherence.{IsInSync}
use piscsi.Devices.DiskCache.{DiskCache, cache_max}

abbrev pub slot : DiskCache → ℕ → Option DiskTrack
slot c i = (c.cache i).disktrk

-- The sector `s` is on the track `t`.
abbrev pub IsOn : ℕ → DiskTrack → Type 0
IsOn s t = (first_sector t ≤ s) × (s < first_sector t + t.sector_count)

abbrev pub IsCovered : DiskCache → ℕ → Type 0
IsCovered c s = (i : ℕ) × (t : DiskTrack) × (slot c i ≡ some t) × IsOn s t

pub record IsCoherent (c : DiskCache) (disk : ℕ → Block) : Type 0 where
  pub unused : (i : ℕ) → cache_max ≤ i → slot c i ≡ none
  pub synced : (i : ℕ) (t : DiskTrack) → slot c i ≡ some t → IsInSync t c.file
  pub fits : (i : ℕ) (t : DiskTrack) → slot c i ≡ some t → t.sector_count ≤ 256
  pub distinct :
      (i j : ℕ) (t u : DiskTrack)
      → slot c i ≡ some t
      → slot c j ≡ some u
      → t.track_number ≡ u.track_number
      → i ≡ j
  pub cached :
      (i k : ℕ) (t : DiskTrack)
      → slot c i ≡ some t
      → k < t.sector_count
      → t.buffer k ≡ disk (first_sector t + k)
  pub uncached : (s : ℕ) → (c.file.sectors s ≡ disk s) ⊎ IsCovered c s

-- What a save writes, successful or not, are sectors of the track.
save_from-either :
    (n i : ℕ) (t : DiskTrack) (f : ImageFile) (s : ℕ)
    → ((save_from n i t f).1.sectors s ≡ f.sectors s)
      ⊎ (IsOn s t × ((save_from n i t f).1.sectors s ≡ t.buffer (s - first_sector t)))
unfolding save_from write_run
save_from-either zero i t f s = inl refl
save_from-either (suc n) i t f s =
    let j = run_end (t.sector_count - i) i t in
    let f1 = (next_outcome f).1 in
    let bounds = run_end_bounds (t.sector_count - i) i t in
    ground (
      arith,
      bounds,
      next_outcome-sectors f s,
      save_from-either n (i + 1) t f s,
      save_from-either n j t (write_run t.buffer (first_sector t) i j f1) s,
    )

pub save-either :
    (t : DiskTrack) (m : ℕ) (f : ImageFile) (s : ℕ)
    → ((save t m f).3.sectors s ≡ f.sectors s)
      ⊎ (IsOn s t × ((save t m f).3.sectors s ≡ t.buffer (s - first_sector t)))
unfolding save
save-either t m f s =
    ground
      (arith, next_outcome-sectors f s, save_from-either t.sector_count 0 t (next_outcome f).1 s)

-- The file may take over any sectors of the disk.
pub set_file-IsCoherent :
    (c : DiskCache) (disk : ℕ → Block) (f : ImageFile)
    → ((s : ℕ) → (f.sectors s ≡ c.file.sectors s) ⊎ (f.sectors s ≡ disk s))
    → IsCoherent c disk
    → IsCoherent (record c { file = f }) disk
set_file-IsCoherent c disk f either x = record {
  unused = x.unused;
  synced = λ i t e. record {
    initialized = (x.synced i t e).initialized;
    modified = (x.synced i t e).modified;
    unmarked = λ k a m.
        ground
          (arith, either (first_sector t + k), (x.synced i t e).unmarked k a m, x.cached i k t e a);
  };
  fits = x.fits;
  distinct = x.distinct;
  cached = x.cached;
  uncached =
      λ s. elim (x.uncached s) [ inl e ↦ ground (arith, either s, e) | inr covered ↦ inr covered ];
}

-- Only the tracks in the slots and the sectors of the file count.
pub same_slots-IsCoherent :
    (c c' : DiskCache) (disk : ℕ → Block)
    → ((i : ℕ) → slot c' i ≡ slot c i)
    → c'.file ≡ c.file
    → IsCoherent c disk
    → IsCoherent c' disk
same_slots-IsCoherent c c' disk same f x = record {
  unused = λ i a. same i ∙ x.unused i a;
  synced = λ i t e. ground (arith, f, x.synced i t (sym (same i) ∙ e));
  fits = λ i t e. x.fits i t (sym (same i) ∙ e);
  distinct = λ i j t u e g. x.distinct i j t u (sym (same i) ∙ e) (sym (same j) ∙ g);
  cached = λ i k t e. x.cached i k t (sym (same i) ∙ e);
  uncached = λ s. elim (x.uncached s) [
    | inl e ↦ inl (ap (λ g. g.sectors s) f ∙ e)
    | inr (i, t, e, on) ↦ inr (i, t, same i ∙ e, on)
  ];
}
