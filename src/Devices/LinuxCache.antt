-- ===== src/Devices/LinuxCache.antt =====
-- cpp/devices/linux_cache.h and .cpp: access to the image file with no cache but that of Linux.
--
-- The stream is the file with its outcomes; a transfer of `length` bytes is one of whole sectors. An
-- `int` length from 2^31 on is negative, which a stream refuses. The statistics are left out.
pub mod Laws
use piscsi.Common.{
  ℕ, zero, suc, ◌+◌, ◌*◌, ◌/◌, ◌%◌, ◌^◌, Bool, true, false, not, ◌&&◌, ◌||◌, Option, none, some,
  List, [], ◌∷◌, if◌then◌else◌, ltb, leb, ◌==◌, get_or,
}
use piscsi.Devices.ImageFile.{Block, ImageFile, next_outcome, write_run}

pub record LinuxCache : Type 0 where
  pub file : ImageFile
  pub has_filename : Bool
  pub sector_size : ℕ
  pub sectors : ℕ
  pub write_through : Bool
  pub read_error_count : ℕ
  pub write_error_count : ℕ

-- `Init`
unfoldable pub init : LinuxCache → Bool × LinuxCache
init c =
    let (good, file') = next_outcome c.file in
    if c.sector_size == 0 || c.sectors == 0 || not c.has_filename
    then (false, c)
    else (good, record c { file = file' })

-- The sectors of a run of `n` sectors from `start` on.
unfoldable pub run_sectors : (ℕ → Block) → ℕ → ℕ → List Block
run_sectors disk start zero = []
run_sectors disk start (suc n) = disk start ∷ run_sectors disk (start + 1) n

-- Whether a stream accepts a length.
abbrev pub is_length : ℕ → Bool
is_length length = not (length == 0) && ltb length (2 ^ 31)

-- `Read` of `length` bytes: the sectors, or nothing if the source returns 0.
unfoldable pub read : ℕ → ℕ → LinuxCache → Option (List Block) × LinuxCache
read start length c =
    let (good, file') = next_outcome c.file in
    if length == 0
    then (none, c)
    else if is_length length && good
    then (
      some (run_sectors file'.sectors start (length / c.sector_size)),
      record c { file = file' },
    )
    else (none, record c { file = file'; read_error_count = c.read_error_count + 1 })

-- `Flush`
unfoldable pub flush : LinuxCache → Bool × LinuxCache
flush c =
    let (good, file') = next_outcome c.file in
    if good
    then (true, record c { file = file' })
    else (false, record c { file = file'; write_error_count = c.write_error_count + 1 })

-- `Write` of `length` bytes
unfoldable pub write : List Block → ℕ → ℕ → LinuxCache → Bool × LinuxCache
write blocks start length c =
    let (good, file') = next_outcome c.file in
    let n = length / c.sector_size in
    let c' = record c { file = write_run (λ i. get_or blocks i []) start 0 n file' } in
    if length == 0
    then (false, if c.write_through then (flush c).1 else c)
    else if not (is_length length && good)
    then (false, record c { file = file'; write_error_count = c.write_error_count + 1 })
    else if c.write_through
    then flush c'
    else (true, c')

-- `sectors < start + count`, in 64 bits
abbrev pub exceeds : ℕ → ℕ → LinuxCache → Bool
exceeds start count c = ltb c.sectors ((start + count) % 2 ^ 64)

-- `ReadSectors`, with a length of 32 bits
unfoldable pub read_sectors : ℕ → ℕ → LinuxCache → Option (List Block) × LinuxCache
read_sectors start count c =
    if exceeds start count c then (none, c) else read start (c.sector_size * count % 2 ^ 32) c

-- `WriteSectors`
unfoldable pub write_sectors : List Block → ℕ → ℕ → LinuxCache → Bool × LinuxCache
write_sectors blocks start count c =
    if exceeds start count c
    then (false, c)
    else write blocks start (c.sector_size * count % 2 ^ 32) c

-- `ReadLong` and `WriteLong`
unfoldable pub read_long : ℕ → ℕ → LinuxCache → Option (List Block) × LinuxCache
read_long start length c = if leb c.sectors start then (none, c) else read start length c

unfoldable pub write_long : List Block → ℕ → ℕ → LinuxCache → Bool × LinuxCache
write_long blocks start length c =
    if leb c.sectors start then (false, c) else write blocks start length c
