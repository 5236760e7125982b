-- ===== src/Devices/DiskCache/Flushing.antt =====
-- `Flush` of cpp/devices/disk_cache.cpp, and the cache at the start.
use piscsi.Common.{
  ℕ, zero, suc, ◌+◌, ◌-◌, ◌<◌, ◌≡◌, ◌≢◌, refl, subst, sym, ap, ◌∙◌, inl, inr, Bool, true, false,
  ◌==◌, arith, Bool-cases, Option, none, some, if_intro_by,
}
use piscsi.Devices.ImageFile.{Block}
use piscsi.Devices.DiskTrack.{DiskTrack, first_sector, save}
use piscsi.Devices.DiskCache.{DiskCache, cache_max, flush_slot, flush_from, flush}
use piscsi.Devices.DiskCache.Coherence.{IsCoherent, slot}
use piscsi.Devices.DiskCache.Slots.{set_track_self, set_track_other, used_slot, track_or}
use piscsi.Devices.DiskCache.Saving.{saved_track-IsCoherent, save-unmarked}

-- A slot without changes that are not in the file.
abbrev IsClean : DiskCache → ℕ → Type 0
IsClean c j = (t : DiskTrack) (k : ℕ) → slot c j ≡ some t → t.modified_flags k ≡ false

-- What the flush of one slot does.
abbrev FlushesSlot : (ℕ → Block) → ℕ → DiskCache → Bool × DiskCache → Type 0
FlushesSlot disk i c r =
    IsCoherent r.1 disk × ((j : ℕ) → j ≢ i → slot r.1 j ≡ slot c j) × (r.0 ≡ true → IsClean r.1 i)

flush_slot-FlushesSlot :
    (c : DiskCache) (disk : ℕ → Block) (i : ℕ) (o : Option DiskTrack)
    → slot c i ≡ o
    → IsCoherent c disk
    → FlushesSlot disk i c (flush_slot i o c)
unfolding flush_slot
flush_slot-FlushesSlot c disk i none e x = (x, λ j n. refl, λ h t k g. let clash = sym e ∙ g in cc)
flush_slot-FlushesSlot c disk i (some t) e x =
    let saved = save t c.cache_miss_write_count c.file in
    let c1 = record c { cache_miss_write_count = saved.2; file = saved.3 } in
    (
      saved_track-IsCoherent c disk i t c.cache_miss_write_count saved.2 e x,
      λ j n. set_track_other c1 i j (some saved.1) n,
      λ h u k g.
          let it : saved.1 ≡ u =
            ap (λ o. track_or o t) (sym (set_track_self c1 i (some saved.1)) ∙ g) in
          sym (ap (λ v. v.modified_flags k) it)
          ∙ save-unmarked t c.cache_miss_write_count c.file k (x.synced i t e) h,
    )

-- What the flush of the slots below `i` does.
abbrev Flushes : (ℕ → Block) → ℕ → Bool × DiskCache → Type 0
Flushes disk i r = IsCoherent r.1 disk × (r.0 ≡ true → (j : ℕ) → j < i → IsClean r.1 j)

flush_from-Flushes :
    (n i : ℕ) (c : DiskCache) (disk : ℕ → Block)
    → ((j : ℕ) → j < i → IsClean c j)
    → IsCoherent c disk
    → Flushes disk (i + n) (flush_from n i c)
unfolding flush_from
flush_from-Flushes zero i c disk clean x = (x, λ h j a. clean j (omega arith))
flush_from-Flushes (suc n) i c disk clean x =
    let r = flush_slot i (slot c i) c in
    let (x1, others, done) = flush_slot-FlushesSlot c disk i (slot c i) refl x in
    let at : i + 1 + n ≡ i + suc n = omega arith in
    if_intro_by (Flushes disk (i + suc n)) r.0 {x = flush_from n (i + 1) r.1} {y = (false, r.1)}
      (λ good.
        let clean1 : (j : ℕ) → j < i + 1 → IsClean r.1 j = λ j a. elim (Bool-cases (j == i)) [
          | inl same ↦ subst (IsClean r.1) (ground (arith, same)) (done good)
          | inr other ↦ λ t k e.
              clean j (ground (arith, other)) t k (sym (others j (ground (arith, other))) ∙ e)
        ] in
        subst (λ m. Flushes disk m (flush_from n (i + 1) r.1)) at
          (flush_from-Flushes n (i + 1) r.1 disk clean1 x1))
      λ bad. (x1, λ h. cc)

flush-Flushes :
    (c : DiskCache) (disk : ℕ → Block) → IsCoherent c disk → Flushes disk cache_max (flush c)
unfolding flush
flush-Flushes c disk x = flush_from-Flushes cache_max 0 c disk (λ j a. absurd (omega arith)) x

-- `Flush` keeps the disk that the cache stands for, also if it fails.
pub flush-IsCoherent :
    (c : DiskCache) (disk : ℕ → Block) → IsCoherent c disk → IsCoherent (flush c).1 disk
flush-IsCoherent c disk x = (flush-Flushes c disk x).0

-- After a successful `Flush` every sector of the file is that of the disk that the cache stands for.
pub flush-sectors :
    (c : DiskCache) (disk : ℕ → Block) (s : ℕ)
    → IsCoherent c disk
    → (flush c).0 ≡ true
    → (flush c).1.file.sectors s ≡ disk s
flush-sectors c disk s x good =
    let (y, clean) = flush-Flushes c disk x in
    elim (y.uncached s) [
      | inl h ↦ h
      | inr (i, t, e, on) ↦
          (let k = s - first_sector t in
            let back : first_sector t + k ≡ s = omega (arith, on) in
            let below : k < t.sector_count = omega (arith, on) in
            let none_left = clean good i (used_slot _ disk i t y e) t k e in
            sym (ap (flush c).1.file.sectors back)
            ∙ sym ((y.synced i t e).unmarked k below none_left)
            ∙ y.cached i k t e below
            ∙ ap disk back)
    ]

-- A cache without tracks stands for its file.
pub empty-IsCoherent : (c : DiskCache) → ((i : ℕ) → slot c i ≡ none) → IsCoherent c c.file.sectors
empty-IsCoherent c e = record {
  unused = λ i _. e i;
  synced = λ i t g. let clash = sym (e i) ∙ g in cc;
  fits = λ i t g. let clash = sym (e i) ∙ g in cc;
  distinct = λ i j t u g _ _. let clash = sym (e i) ∙ g in cc;
  cached = λ i k t g _. let clash = sym (e i) ∙ g in cc;
  uncached = λ s. inl refl;
}
