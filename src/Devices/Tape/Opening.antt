-- ===== src/Devices/Tape/Opening.antt =====
-- How a tape is opened: `ValidateFile`, `ValidateBlockSize` and `Open` of cpp/devices/tape.cpp.
--
-- The image file, whether it exists and is writable, whether it is a tar file, and the value of the
-- parameter `append` are arguments. An exception is the result false. The state of the stream is that
-- of the first outcome of the file. An `fstream` that could not open a file, here one that is not
-- writable, is not `bad`, and reads nothing.
use piscsi.Common.{
  ℕ, ◌+◌, ◌-◌, ◌/◌, ◌%◌, ◌^◌, Bool, true, false, not, ◌&&◌, Option, none, some, if◌then◌else◌, ltb,
  ◌==◌, ℤ, pos, negsuc, drop, [],
}
use piscsi.Shared.S2pUtil.{Text, parse_as_unsigned_int}
use piscsi.Shared.SimhUtil.{head_outcome}
use piscsi.Controllers.State.{Controller}
use piscsi.Devices.StorageDevice.{set_block_size, update_storage}
use piscsi.Devices.StorageDevice.Validation.{validate_storage_file}
use piscsi.Devices.Tape.{TapeFile}
use piscsi.Devices.Tape.Transfer.{Tapes, update_tape}

-- `ValidateBlockSize`
unfoldable pub validate_block_size : ℕ → Bool
validate_block_size size = not (size == 0) && size % 4 == 0

-- What `Open` is given: the image file if it exists, whether it is writable and a tar file, and the
-- parameter `append`.
pub record Image : Type 0 where
  pub content : Option TapeFile
  pub writable : Bool
  pub tar : Bool
  pub append : Text

abbrev pub no_file : TapeFile
no_file = record { bytes = λ _. 0; size = 0; outcomes = [] }

abbrev pub file_of : Option TapeFile → TapeFile
file_of none = no_file
file_of (some f) = f

abbrev pub size_of : Option TapeFile → Option ℕ
size_of none = none
size_of (some f) = some f.size

-- The file that is created in append mode: empty but for a byte at the end of the first block. The
-- result is false where the stream is bad.
unfoldable pub create_file : ℕ → TapeFile → Bool × TapeFile
create_file block_size f = (
  head_outcome f.outcomes,
  record { bytes = λ _. 0; size = block_size; outcomes = drop 1 f.outcomes },
)

-- The file, after the check of its size in append mode.
unfoldable pub extend : ℕ → ℕ → Image → Bool × Option TapeFile
unfolding create_file
extend max block_size image =
    let o = image.content in
    let (good, f) = create_file block_size (file_of o) in
    if image.writable && not (max == 0) && ltb (file_of o).size block_size
    then (good, some f)
    else (true, o)

-- `file.open` and the extension of the file
unfoldable pub load_tape : ℕ → Image → Option TapeFile → Controller Tapes → Controller Tapes
unfolding update_tape
load_tape lun image o s =
    let opened = if image.writable then file_of o else no_file in
    update_tape lun (λ t. record t { file = opened; tar_file = image.tar }) s

-- `ValidateFile`
unfoldable pub validate_tape :
    ℕ → Image → Option TapeFile → Controller Tapes → Bool × Controller Tapes
unfolding load_tape
validate_tape lun image o s =
    let (valid, s') = validate_storage_file lun (size_of o) image.writable s in
    if not valid then (false, s') else (true, load_tape lun image o s')

-- `ResetPositions` on the tape of a LUN
abbrev pub rewind_tape : ℕ → Controller Tapes → Controller Tapes
rewind_tape lun s = update_tape lun (λ t. record t { tape_position = 0; object_location = 0 }) s

-- `Open` from the maximum size on
unfoldable pub open_limited : ℕ → ℕ → Image → Controller Tapes → Bool × Controller Tapes
unfolding update_tape update_storage
open_limited max lun image s =
    let size = (s.extra.storage lun).block_size in
    let file_size = (file_of image.content).size in
    let limit = if max == 0 && not (file_size == 0) then file_size else max in
    let measured =
      update_tape lun
        (λ t. record t {
          block_size_for_descriptor = size;
          file_size = file_size;
          max_file_size = max;
        })
        s in
    let limited = update_tape lun (λ t. record t { max_file_size = limit }) measured in
    let counted =
      update_storage lun (λ d. record d { blocks = file_size / size % 2 ^ 32 }) limited in
    let (good, o) = extend max size image in
    let (valid, s') = validate_tape lun image o counted in
    if not (max == 0) && ltb max size
    then (false, update_tape lun (λ t. record t { max_file_size = max }) s)
    else if not good
    then (false, measured)
    else (valid, if valid then rewind_tape lun s' else s')

-- `Open`: a number that does not fit into an `int` is negative, and smaller than the size of a block.
unfoldable pub open_appended : ℤ → ℕ → Image → Controller Tapes → Bool × Controller Tapes
open_appended (pos max) lun image s = open_limited max lun image s
open_appended (negsuc n) lun image s = (
  false,
  if n == 0 then s else update_tape lun (λ t. record t { max_file_size = 2 ^ 64 - (n + 1) }) s,
)

unfoldable pub open_tape : ℕ → Image → Controller Tapes → Bool × Controller Tapes
unfolding update_storage
open_tape lun image s =
    let configured = (s.extra.storage lun).configured_block_size in
    let (accepted, d) =
      set_block_size (if configured == 0 then 512 else configured) (s.extra.storage lun) in
    if not accepted
    then (false, s)
    else open_appended (parse_as_unsigned_int image.append) lun image
        (update_storage lun (λ _. d) s)
