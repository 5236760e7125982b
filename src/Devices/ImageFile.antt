-- ===== src/Devices/ImageFile.antt =====
-- The image file of a disk, as the caches in cpp/devices use it: sectors by number. The size of a
-- sector is a property of the disk, so a transfer at `sector << shift_count` is one of a sector.
--
-- What the operating system answers is a list of outcomes: each allocation of a buffer, opening,
-- reading and writing takes the next one. A failed read gives nothing that is used; a failed write
-- leaves the sectors as they were. After the last outcome all calls succeed.
use piscsi.Common.{
  ℕ, ◌+◌, ◌-◌, ◌≡◌, arith, Bool, true, ◌&&◌, List, [], ◌∷◌, if◌then◌else◌, leb, ltb,
}

abbrev pub Block : Type 0
Block = List ℕ

pub record ImageFile : Type 0 where
  pub sectors : ℕ → Block
  pub outcomes : List Bool

unfoldable pub next_outcome : ImageFile → Bool × ImageFile
next_outcome f = elim f.outcomes [
  | [] ↦ (true, f)
  | good ∷ rest ↦ (good, record f { outcomes = rest })
]

-- Writes the sectors from `first` up to `last` from a buffer whose index 0 is the sector `base`.
unfoldable pub write_run : (ℕ → Block) → ℕ → ℕ → ℕ → ImageFile → ImageFile
write_run buffer base first last f = record f {
  sectors =
      λ s. if leb (base + first) s && ltb s (base + last) then buffer (s - base) else f.sectors s;
}

-- An outcome leaves the sectors alone.
pub next_outcome-sectors : (f : ImageFile) (s : ℕ) → (next_outcome f).1.sectors s ≡ f.sectors s
unfolding next_outcome
next_outcome-sectors f s = ground arith
