-- ===== src/Devices/DiskCache/Assign.antt =====
-- `Load` and `Assign` of cpp/devices/disk_cache.cpp: whatever fails, no sector of the disk is lost.
use piscsi.Common.{
  ℕ, zero, suc, ◌+◌, ◌-◌, ◌≤◌, ◌<◌, ◌≡◌, ◌≢◌, refl, subst, sym, ap, ◌∙◌, inl, inr, Bool, true,
  false, not, if◌then◌else◌, ltb, ◌==◌, arith, Bool-cases, Option, none, some, ==_iff, if_intro,
  if_intro_by,
}
use piscsi.Devices.ImageFile.{Block, ImageFile, next_outcome, next_outcome-sectors}
use piscsi.Devices.DiskTrack.{DiskTrack, new_track, first_sector, save, load, init}
use piscsi.Devices.DiskTrack.Coherence.{load-IsInSync}
use piscsi.Devices.DiskCache.{
  DiskCache, cache_max, set_track, set_serial, load_track, sectors_left, is_below_zero, load_slot,
  evict, find_slot, holds, is_empty, assign_empty, assign_found, assign,
}
use piscsi.Devices.DiskCache.Coherence.{
  IsOn, IsCoherent, slot, set_file-IsCoherent, same_slots-IsCoherent,
}
use piscsi.Devices.DiskCache.Saving.{save-on, after_save-IsCoherent, saved_track-IsCoherent}
use piscsi.Devices.DiskCache.Slots.{
  set_track-IsCoherent, drop_track-IsCoherent, set_track_self, used_slot, set_track-none,
}

-- No slot holds the track.
abbrev IsAbsent : ℕ → DiskCache → Type 0
IsAbsent track c = (j : ℕ) (u : DiskTrack) → slot c j ≡ some u → u.track_number ≢ track

-- The slot that is the result holds the track.
abbrev pub IsAssigned : ℕ → Option ℕ × DiskCache → Type 0
IsAssigned track r =
    (i : ℕ) → r.0 ≡ some i → (t : DiskTrack) × (slot r.1 i ≡ some t) × (t.track_number ≡ track)

load-sectors :
    (t : DiskTrack) (m : ℕ) (f : ImageFile) (s : ℕ) → (load t m f).3.sectors s ≡ f.sectors s
unfolding load
load-sectors t m f s =
    let f1 = (next_outcome f).1 in
    let f2 = (next_outcome f1).1 in
    ground (arith, next_outcome-sectors f s, next_outcome-sectors f1 s, next_outcome-sectors f2 s)

load-init :
    (t : DiskTrack) (track n m : ℕ) (f : ImageFile)
    → ((load (init track n t) m f).1.track_number ≡ track)
      × ((load (init track n t) m f).1.sector_count ≡ n)
unfolding load init
load-init t track n m f = ground arith

load-unmarked :
    (t : DiskTrack) (track n m k : ℕ) (f : ImageFile)
    → (load (init track n t) m f).0 ≡ true
    → (load (init track n t) m f).1.modified_flags k ≡ false
unfolding load init
load-unmarked t track n m k f h = ground arith

-- What a load leaves, in a slot for a track.
abbrev IsLoaded : (ℕ → Block) → ℕ → ℕ → Bool × DiskCache → Type 0
IsLoaded disk i track r =
    IsCoherent r.1 disk
    × (r.0 ≡ true → (u : DiskTrack) × (slot r.1 i ≡ some u) × (u.track_number ≡ track))

load_track-IsLoaded :
    (c : DiskCache) (disk : ℕ → Block) (i track : ℕ) (t : DiskTrack)
    → i < cache_max
    → slot c i ≡ none
    → IsAbsent track c
    → IsCoherent c disk
    → IsLoaded disk i track (load_track i track t c)
unfolding load_track
load_track-IsLoaded c disk i track t b e absent x =
    let rest = sectors_left c.blocks track in
    let n = if ltb 256 rest then 256 else rest in
    let loaded = load (init track n t) c.cache_miss_read_count c.file in
    let c1 = record c { cache_miss_read_count = loaded.2; file = loaded.3 } in
    let x0 = set_file-IsCoherent c disk loaded.3 (λ s. inl (load-sectors _ _ c.file s)) x in
    let x1 : IsCoherent c1 disk = same_slots-IsCoherent _ c1 disk (λ j. refl) refl x0 in
    let as_init = load-init t track n c.cache_miss_read_count c.file in
    let t1 = loaded.1 in
    let failed = record c1 { read_error_count = c.read_error_count + 1 } in
    let refused = record c {
      cache_miss_read_count = c.cache_miss_read_count + 1;
      read_error_count = c.read_error_count + 1;
    } in
    if_intro (IsLoaded disk i track) (is_below_zero rest)
      (same_slots-IsCoherent c refused disk (λ j. refl) refl x, λ g. cc)
      (if_intro_by (IsLoaded disk i track) (not loaded.0) {x = (false, failed)}
        {y = (true, set_track i (some t1) c1)}
        (λ h. (same_slots-IsCoherent c1 failed disk (λ j. refl) refl x1, λ g. cc))
        λ h.
          let good : loaded.0 ≡ true = ground (arith, h) in
          let sync = load-IsInSync t c.cache_miss_read_count track n c.file good in
          let small : t1.sector_count ≤ 256 = ground (arith, as_init) in
          let content : (k : ℕ) → k < t1.sector_count → t1.buffer k ≡ disk (first_sector t1 + k) =
            λ k a. elim (x1.uncached (first_sector t1 + k)) [
              | inl g ↦ sync.unmarked k a (load-unmarked t track n _ k c.file good) ∙ g
              | inr (j, u, g, on) ↦
                  absurd (ground (arith, absent j u g, x1.fits j u g, on, small, as_init))
            ] in
          (
            set_track-IsCoherent c1 disk disk i t1 b sync small
                (λ j u m g q. absent j u g (q ∙ as_init.0)) content (λ s. inl refl)
                (λ u g s on. let clash = sym e ∙ g in cc) x1,
            λ _. (t1, set_track_self c1 i (some t1), as_init.0),
          ))

-- What `Assign` gives: the disk is kept, and the slot that is found holds the track.
abbrev pub Assigns : (ℕ → Block) → ℕ → Option ℕ × DiskCache → Type 0
Assigns disk track r = IsCoherent r.1 disk × IsAssigned track r

set_serial-slot : (c : DiskCache) (i j : ℕ) → slot (set_serial i c) j ≡ slot c j
set_serial-slot c i j = elim (Bool-cases (j == i)) [
  | inl at ↦ ground (arith, ap (slot c) ((==_iff j i).0 at))
  | inr ne ↦ ground arith
]

set_serial-Assigns :
    (c : DiskCache) (disk : ℕ → Block) (i track : ℕ)
    → IsCoherent c disk
    → (u : DiskTrack) → slot c i ≡ some u
    → u.track_number ≡ track
    → Assigns disk track (some i, set_serial i c)
set_serial-Assigns c disk i track x u e n = (
  same_slots-IsCoherent c (set_serial i c) disk (set_serial-slot c i) refl x,
  λ j h.
      let it : i ≡ j = ground (arith, h) in
      (u, set_serial-slot c i j ∙ subst (λ l. slot c l ≡ some u) it e, n),
)

load_slot-Assigns :
    (c : DiskCache) (disk : ℕ → Block) (i track : ℕ) (t : DiskTrack)
    → i < cache_max
    → slot c i ≡ none
    → IsAbsent track c
    → IsCoherent c disk
    → Assigns disk track (load_slot i track t c)
unfolding load_slot
load_slot-Assigns c disk i track t b e absent x =
    let loaded = load_track-IsLoaded c disk i track t b e absent x in
    let c1 = (load_track i track t c).1 in
    if_intro_by (Assigns disk track) (load_track i track t c).0 {x = (some i, set_serial i c1)}
      {y = (none, c1)}
      (λ good. let (u, at, n) = loaded.1 good in set_serial-Assigns c1 disk i track loaded.0 u at n)
      λ bad. (loaded.0, λ j h. cc)

evict-Assigns :
    (c : DiskCache) (disk : ℕ → Block) (i track : ℕ) (o : Option DiskTrack)
    → slot c i ≡ o
    → IsAbsent track c
    → IsCoherent c disk
    → Assigns disk track (evict i track o c)
unfolding evict
evict-Assigns c disk i track none e absent x = (x, λ j h. cc)
evict-Assigns c disk i track (some t) e absent x =
    let saved = save t c.cache_miss_write_count c.file in
    let c1 = record c { cache_miss_write_count = saved.2; file = saved.3 } in
    let c2 = set_track i none c1 in
    let m = c.cache_miss_write_count in
    let kept = record c1 { cache = (set_track i (some saved.1) c1).cache } in
    let x1 : IsCoherent c1 disk = after_save-IsCoherent c disk i t m saved.2 e x in
    if_intro_by (Assigns disk track) (not saved.0) {x = (none, kept)}
      {y = load_slot i track saved.1 c2}
      (λ bad. (saved_track-IsCoherent c disk i t m saved.2 e x, λ j h. cc))
      λ h.
        let good : saved.0 ≡ true = ground (arith, h) in
        let written : (s : ℕ) → IsOn s t → c1.file.sectors s ≡ disk s = λ s on.
          let back : first_sector t + (s - first_sector t) ≡ s = omega (arith, on) in
          let below : s - first_sector t < t.sector_count = omega (arith, on) in
          sym (ap c1.file.sectors back)
          ∙ save-on t m c.file (s - first_sector t) (x.synced i t e) good below
          ∙ x.cached i (s - first_sector t) t e below
          ∙ ap disk back in
        load_slot-Assigns c2 disk i track saved.1 (used_slot c disk i t x e)
          (set_track_self c1 i none)
          (set_track-none (λ _ u. u.track_number ≢ track) c1 i (λ j u _. absent j u))
          (drop_track-IsCoherent c1 disk i t e written x1)

pub find_slot-none :
    (test : Option DiskTrack → Bool) (n i j : ℕ) (c : DiskCache)
    → find_slot test n i c ≡ none
    → i ≤ j
    → j < i + n
    → test (slot c j) ≡ false
unfolding find_slot
find_slot-none test zero i j c h a b = absurd (omega arith)
find_slot-none test (suc n) i j c h a b = elim (Bool-cases (i == j)) [
  | inl at ↦ ground (arith, h, ap (λ l. test (slot c l)) ((==_iff i j).0 at))
  | inr ne ↦ find_slot-none test n (i + 1) j c (ground (arith, h)) (ground arith) (omega arith)
]

pub find_slot-some :
    (test : Option DiskTrack → Bool) (n i k : ℕ) (c : DiskCache)
    → find_slot test n i c ≡ some k
    → (test (slot c k) ≡ true) × (k < i + n)
unfolding find_slot
find_slot-some test zero i k c h = cc
find_slot-some test (suc n) i k c h = elim (Bool-cases (test (slot c i))) [
  | inl good ↦
      (let it : i ≡ k = ground (arith, h) in ground (arith, good, ap (λ l. test (slot c l)) it))
  | inr bad ↦ ground (arith, find_slot-some test n (i + 1) k c (ground (arith, h)))
]

pub holds-some :
    (track : ℕ) (o : Option DiskTrack)
    → holds track o ≡ true
    → (u : DiskTrack) × (o ≡ some u) × (u.track_number ≡ track)
holds-some track none h = cc
holds-some track (some t) h = (t, refl, ground (arith, h))

is_empty-none : (o : Option DiskTrack) → is_empty o ≡ true → o ≡ none
is_empty-none none h = refl
is_empty-none (some t) h = cc

find_slot-IsAbsent :
    (c : DiskCache) (disk : ℕ → Block) (track : ℕ)
    → find_slot (holds track) cache_max 0 c ≡ none
    → IsCoherent c disk
    → IsAbsent track c
find_slot-IsAbsent c disk track h x j u e q =
    let missed =
      find_slot-none (holds track) cache_max 0 j c h (omega arith) (used_slot c disk j u x e) in
    let found : holds track (some u) ≡ true = ground (arith, q) in
    absurd (ground (arith, missed, ap (holds track) e, found))

assign_empty-Assigns :
    (c : DiskCache) (disk : ℕ → Block) (track : ℕ) (o : Option ℕ)
    → find_slot is_empty cache_max 0 c ≡ o
    → IsAbsent track c
    → IsCoherent c disk
    → Assigns disk track (assign_empty track o c)
unfolding assign_empty
assign_empty-Assigns c disk track (some i) h absent x =
    let found = find_slot-some is_empty cache_max 0 i c h in
    load_slot-Assigns c disk i track new_track (omega (arith, found)) (is_empty-none _ found.0)
      absent x
assign_empty-Assigns c disk track none h absent x = evict-Assigns c disk _ track _ refl absent x

assign_found-Assigns :
    (c : DiskCache) (disk : ℕ → Block) (track : ℕ) (o : Option ℕ)
    → find_slot (holds track) cache_max 0 c ≡ o
    → IsCoherent c disk
    → Assigns disk track (assign_found track o c)
unfolding assign_found
assign_found-Assigns c disk track (some i) h x =
    let found = find_slot-some (holds track) cache_max 0 i c h in
    let (u, e, n) = holds-some track (slot c i) found.0 in set_serial-Assigns c disk i track x u e n
assign_found-Assigns c disk track none h x =
    assign_empty-Assigns c disk track _ refl (find_slot-IsAbsent c disk track h x) x

pub assign-Assigns :
    (c : DiskCache) (disk : ℕ → Block) (track : ℕ)
    → IsCoherent c disk
    → Assigns disk track (assign track c)
unfolding assign
assign-Assigns c disk track x = assign_found-Assigns c disk track _ refl x
