-- ===== src/Devices/DiskCache/Slots.antt =====
-- What the operations of cpp/devices/disk_cache.cpp do to the tracks in the slots.
use piscsi.Common.{
  ℕ, ◌+◌, ◌≤◌, ◌<◌, ◌≡◌, ◌≢◌, refl, subst, sym, ap, ◌∙◌, ◌⊎◌, inl, inr, ltb, ◌==◌, arith,
  Bool-cases, Option, none, some,
}
use piscsi.Devices.ImageFile.{Block}
use piscsi.Devices.DiskTrack.{DiskTrack, first_sector}
use piscsi.Devices.DiskTrack.Coherence.{IsInSync}
use piscsi.Devices.DiskCache.{DiskCache, cache_max, set_track}
use piscsi.Devices.DiskCache.Coherence.{IsOn, IsCoherent, slot}

-- What holds of the new track in a slot, and of those in the others, holds of all.
set_track-all :
    (P : ℕ → DiskTrack → Type 0) (c : DiskCache) (i : ℕ) (o : Option DiskTrack)
    → ((u : DiskTrack) → o ≡ some u → P i u)
    → ((j : ℕ) (u : DiskTrack) → j ≢ i → slot c j ≡ some u → P j u)
    → (j : ℕ) (u : DiskTrack) → slot (set_track i o c) j ≡ some u
    → P j u
set_track-all P c i o p q j u e = elim (Bool-cases (j == i)) [
  | inl at ↦
      (let same : i ≡ j = ground (arith, at) in
        subst (λ l. P l u) same (p u (ground (arith, at, e))))
  | inr ne ↦ q j u (ground (arith, ne)) (ground (arith, ne, e))
]

abbrev pub track_or : Option DiskTrack → DiskTrack → DiskTrack
track_or none t = t
track_or (some u) t = u

pub set_track-some :
    (P : ℕ → DiskTrack → Type 0) (c : DiskCache) (i : ℕ) (t : DiskTrack)
    → P i t
    → ((j : ℕ) (u : DiskTrack) → j ≢ i → slot c j ≡ some u → P j u)
    → (j : ℕ) (u : DiskTrack) → slot (set_track i (some t) c) j ≡ some u
    → P j u
set_track-some P c i t p q =
    set_track-all P c i (some t) (λ u e. subst (P i) (ap (λ o. track_or o t) e) p) q

pub set_track-none :
    (P : ℕ → DiskTrack → Type 0) (c : DiskCache) (i : ℕ)
    → ((j : ℕ) (u : DiskTrack) → j ≢ i → slot c j ≡ some u → P j u)
    → (j : ℕ) (u : DiskTrack) → slot (set_track i none c) j ≡ some u
    → P j u
set_track-none P c i q = set_track-all P c i none (λ u e. cc) q

pub set_track_self : (c : DiskCache) (i : ℕ) (o : Option DiskTrack) → slot (set_track i o c) i ≡ o
set_track_self c i o = ground arith

pub set_track_other :
    (c : DiskCache) (i j : ℕ) (o : Option DiskTrack) → j ≢ i → slot (set_track i o c) j ≡ slot c j
set_track_other c i j o n = ground arith

-- A slot with a track is one of the 16.
pub used_slot :
    (c : DiskCache) (disk : ℕ → Block) (i : ℕ) (t : DiskTrack)
    → IsCoherent c disk
    → slot c i ≡ some t
    → i < cache_max
used_slot c disk i t x e = elim (Bool-cases (ltb i cache_max)) [
  | inl b ↦ ground arith
  | inr b ↦ (let u = x.unused i (ground arith) in cc)
]

unused-set_track :
    (c : DiskCache) (disk : ℕ → Block) (i : ℕ) (o : Option DiskTrack)
    → i < cache_max
    → IsCoherent c disk
    → (j : ℕ) → cache_max ≤ j
    → slot (set_track i o c) j ≡ none
unused-set_track c disk i o b x j a = set_track_other c i j o (ground arith) ∙ x.unused j a

-- A track in a slot may become another one that is in sync, and the disk change with it, if the
-- track has the sectors of the disk and no other track changes.
pub set_track-IsCoherent :
    (c : DiskCache) (old disk : ℕ → Block) (i : ℕ) (t : DiskTrack)
    → i < cache_max
    → IsInSync t c.file
    → t.sector_count ≤ 256
    → ((j : ℕ) (u : DiskTrack) → j ≢ i → slot c j ≡ some u → u.track_number ≢ t.track_number)
    → ((k : ℕ) → k < t.sector_count → t.buffer k ≡ disk (first_sector t + k))
    → ((s : ℕ) → (old s ≡ disk s) ⊎ IsOn s t)
    → ((u : DiskTrack) → slot c i ≡ some u → (s : ℕ) → IsOn s u → IsOn s t)
    → IsCoherent c old
    → IsCoherent (set_track i (some t) c) disk
set_track-IsCoherent c old disk i t b y f n d change cover x = record {
  unused = unused-set_track c old i (some t) b x;
  synced = set_track-some (λ j u. IsInSync u c.file) c i t y (λ j u m. x.synced j u);
  fits = set_track-some (λ j u. u.sector_count ≤ 256) c i t f (λ j u m. x.fits j u);
  distinct = λ j l u v e g.
      set_track-some (λ j u. u.track_number ≡ v.track_number → j ≡ l) c i t
        (set_track-some (λ l v. t.track_number ≡ v.track_number → i ≡ l) c i t (λ q. refl)
          (λ l v m h q. absurd (n l v m h (sym q))) l v g)
        (λ j u m h.
          set_track-some (λ l v. u.track_number ≡ v.track_number → j ≡ l) c i t
            (λ q. absurd (n j u m h q)) (λ l v w k. x.distinct j l u v h k) l v g)
        j u e;
  cached = λ j k u e.
      set_track-some (λ j u. k < u.sector_count → u.buffer k ≡ disk (first_sector u + k)) c i t
        (d k)
        (λ j u m h a.
          let same = x.cached j k u h a in
          let apart = n j u m h in
          let near = x.fits j u h in
          elim (change (first_sector u + k)) [
            | inl g ↦ same ∙ g
            | inr on ↦ absurd (ground (arith, apart, near, on, f))
          ])
        j u e;
  uncached = λ s. elim (change s) [
    | inr on ↦ inr (i, t, set_track_self c i (some t), on)
    | inl g ↦ elim (x.uncached s) [
      | inl h ↦ inl (h ∙ g)
      | inr (j, u, e, on) ↦ elim (Bool-cases (j == i)) [
        | inl at ↦
            (let here : slot c i ≡ some u = ap (slot c) (ground (arith, at)) ∙ e in
              inr (i, t, set_track_self c i (some t), cover u here s on))
        | inr m ↦ inr (j, u, set_track_other c i j (some t) (ground (arith, m)) ∙ e, on)
      ]
    ]
  ];
}

-- A track whose sectors are all in the file can be dropped.
pub drop_track-IsCoherent :
    (c : DiskCache) (disk : ℕ → Block) (i : ℕ) (t : DiskTrack)
    → slot c i ≡ some t
    → ((s : ℕ) → IsOn s t → c.file.sectors s ≡ disk s)
    → IsCoherent c disk
    → IsCoherent (set_track i none c) disk
drop_track-IsCoherent c disk i t at w x = record {
  unused = unused-set_track c disk i none (used_slot c disk i t x at) x;
  synced = set_track-none (λ j u. IsInSync u c.file) c i (λ j u m. x.synced j u);
  fits = set_track-none (λ j u. u.sector_count ≤ 256) c i (λ j u m. x.fits j u);
  distinct = λ j l u v e g.
      set_track-none (λ j u. u.track_number ≡ v.track_number → j ≡ l) c i
        (λ j u m h.
          set_track-none (λ l v. u.track_number ≡ v.track_number → j ≡ l) c i
            (λ l v w k. x.distinct j l u v h k) l v g)
        j u e;
  cached = λ j k u e.
      set_track-none (λ j u. k < u.sector_count → u.buffer k ≡ disk (first_sector u + k)) c i
        (λ j u m. x.cached j k u) j u e;
  uncached = λ s. elim (x.uncached s) [
    | inl h ↦ inl h
    | inr (j, u, e, on) ↦ elim (Bool-cases (j == i)) [
      | inl same ↦
          (let here : slot c i ≡ some u = ap (slot c) (ground (arith, same)) ∙ e in
            let it : t ≡ u = ap (λ o. track_or o t) (sym at ∙ here) in
            inl (w s (subst (IsOn s) (sym it) on)))
      | inr m ↦ inr (j, u, set_track_other c i j none (ground (arith, m)) ∙ e, on)
    ]
  ];
}
