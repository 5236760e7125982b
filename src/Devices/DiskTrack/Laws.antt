-- ===== src/Devices/DiskTrack/Laws.antt =====
-- What the loops of cpp/devices/disk_track.cpp write.
use piscsi.Common.{
  ℕ, zero, suc, ◌+◌, ◌-◌, ◌≤◌, ◌<◌, ◌≡◌, ◌≢◌, ap, ◌∙◌, refl, ◌⊎◌, inl, inr, Bool, true, false, ◌&&◌,
  if◌then◌else◌, ltb, leb, arith, Bool-cases, [], ◌∷◌, ==_iff,
}
use piscsi.Devices.ImageFile.{Block, ImageFile, next_outcome, write_run, next_outcome-sectors}
use piscsi.Devices.DiskTrack.{DiskTrack, first_sector, run_end, save_from, same_block}

pub same_block-eq : (a b : Block) → same_block a b ≡ true → a ≡ b
unfolding same_block
same_block-eq [] [] h = refl
same_block-eq [] (y ∷ ys) h = cc
same_block-eq (x ∷ xs) [] h = cc
same_block-eq (x ∷ xs) (y ∷ ys) h = ground (arith, same_block-eq xs ys)

-- The run ends behind its start, within the sectors, and all its sectors are modified.
pub run_end_bounds : (n j : ℕ) (t : DiskTrack) → (j ≤ run_end n j t) × (run_end n j t ≤ j + n)
unfolding run_end
run_end_bounds zero j t = omega arith
run_end_bounds (suc n) j t = ground (arith, run_end_bounds n (j + 1) t)

run_end_modified :
    (n j k : ℕ) (t : DiskTrack) → j ≤ k → k < run_end n j t → t.modified_flags k ≡ true
unfolding run_end
run_end_modified zero j k t a b = absurd (omega arith)
run_end_modified (suc n) j k t a b = ground (arith, run_end_modified n (j + 1) k t, ==_iff j k)

-- The sectors of a track in the file once the modified ones from `i` on have been written.
abbrev Saved : DiskTrack → ℕ → ImageFile → ImageFile → Type 0
Saved t i f g =
    (s : ℕ)
    → g.sectors s ≡ (
        if leb (first_sector t + i) s
          && (ltb s (first_sector t + t.sector_count) && t.modified_flags (s - first_sector t))
        then t.buffer (s - first_sector t)
        else f.sectors s)

-- A round of the outer loop that finds a modified sector goes on behind it.
run_end_next : (i n : ℕ) (t : DiskTrack) → t.modified_flags i ≡ true → i < run_end (suc n) i t
unfolding run_end
run_end_next i n t m = ground (arith, run_end_bounds n (i + 1) t)

-- Whether a modified sector in the range is the sector `s` of the file.
abbrev is_saved : DiskTrack → ℕ → ℕ → ℕ → Bool
is_saved t i j s =
    leb (first_sector t + i) s
    && (ltb s (first_sector t + j) && t.modified_flags (s - first_sector t))

is_saved-skip :
    (t : DiskTrack) (i j s : ℕ)
    → t.modified_flags i ≡ false
    → is_saved t i j s ≡ is_saved t (i + 1) j s
is_saved-skip t i j s m =
    let at : (first_sector t + i ≡ s) ⊎ (first_sector t + i ≢ s) = ground arith in
    elim at [
      | inl e ↦
          (let k : s - first_sector t ≡ i = omega arith in
            let m' : t.modified_flags (s - first_sector t) ≡ false = ap t.modified_flags k ∙ m in
            ground arith)
      | inr e ↦ ground arith
    ]

-- A run of modified sectors, as it is written.
is_saved-run :
    (t : DiskTrack) (i n j s : ℕ)
    → run_end n i t ≡ j
    → (leb (first_sector t + i) s && ltb s (first_sector t + j)) ≡ is_saved t i j s
is_saved-run t i n j s e =
    elim (Bool-cases (leb (first_sector t + i) s && ltb s (first_sector t + j))) [
      | inl inside ↦
          (let m = run_end_modified n i (s - first_sector t) t (ground arith) (ground arith) in
            ground arith)
      | inr outside ↦ ground arith
    ]

save_from-run :
    (t : DiskTrack) (i j s : ℕ) (f g : ImageFile)
    → i < j
    → j ≤ t.sector_count
    → (leb (first_sector t + i) s && ltb s (first_sector t + j)) ≡ is_saved t i j s
    → g.sectors s ≡ (
        if is_saved t j t.sector_count s
        then t.buffer (s - first_sector t)
        else (write_run t.buffer (first_sector t) i j f).sectors s)
    → g.sectors s
      ≡ (if is_saved t i t.sector_count s then t.buffer (s - first_sector t) else f.sectors s)
unfolding write_run
save_from-run t i j s f g a b run h = ground arith

pub save_from-Saved :
    (n i : ℕ) (t : DiskTrack) (f : ImageFile)
    → t.sector_count ≤ i + n
    → (save_from n i t f).0 ≡ true
    → Saved t i f (save_from n i t f).1
unfolding save_from
save_from-Saved zero i t f h good s = ground arith
save_from-Saved (suc n) i t f h good s = elim (Bool-cases (leb t.sector_count i)) [
  | inl done ↦ ground arith
  | inr more ↦ elim (Bool-cases (t.modified_flags i)) [
    | inr skip ↦
        (let good' : (save_from n (i + 1) t f).0 ≡ true = ground arith in
          let ih = save_from-Saved n (i + 1) t f (omega arith) good' s in
          ground (arith, is_saved-skip t i t.sector_count s skip, ih))
    | inl m ↦
        (let j = run_end (t.sector_count - i) i t in
          let e : t.sector_count - i ≡ suc (t.sector_count - i - 1) = ground arith in
          let after : i < j =
            ground
              (arith, run_end_next i (t.sector_count - i - 1) t m, ap (λ r. run_end r i t) e) in
          let within = (run_end_bounds (t.sector_count - i) i t).1 in
          let f1 = (next_outcome f).1 in
          let f2 = write_run t.buffer (first_sector t) i j f1 in
          let good' : (save_from n j t f2).0 ≡ true = ground arith in
          let ih = save_from-Saved n j t f2 (ground arith) good' s in
          let run = is_saved-run t i (t.sector_count - i) j s refl in
          let done = save_from-run t i j s f1 (save_from n j t f2).1 after (ground arith) run ih in
          ground (arith, done, next_outcome-sectors f s))
  ]
]
