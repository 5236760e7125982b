-- ===== src/Devices/Tape.antt =====
-- cpp/devices/tape.h and .cpp: the state of a tape drive, its image file, and the errors it reports.
--
-- The image is a file of bytes with the outcomes of the calls of the operating system; after the last
-- outcome all calls succeed. An `int64_t` is its bit pattern of 64 bits, negative from 2^63 on. An
-- error that only a flush of the stream would meet is one of the write before it.
pub mod Seeking
pub mod Finding
pub mod Writing
pub mod Reading
pub mod Transfer
pub mod Commands
pub mod Handlers
pub mod Opening
pub mod Opened
pub mod Progress
pub mod MaximumSize
pub mod Overflow
pub mod LawfulTransfer
pub mod Lawful
pub mod OddRecords
pub mod Records
pub mod ReadBack
pub mod Parts
pub mod RoundTrip
pub mod Written
pub mod Spacing
pub mod Searching
pub mod Termination
pub mod Tests
use piscsi.Common.{
  ℕ, zero, suc, ◌+◌, ◌-◌, ◌*◌, ◌/◌, ◌%◌, ◌^◌, Bool, true, false, not, ◌&&◌, ◌||◌, List, [], ◌∷◌,
  if◌then◌else◌, ltb, leb, ◌==◌, length, get_or, drop,
}
use piscsi.Scsi.{SenseKey, Asc, Ascq}
use piscsi.Shared.SimhUtil.{SimhMetaData, head_outcome}
use piscsi.Base.PrimaryDevice.{PrimaryDevice, set_information, set_filemark, set_eom, set_ili}
use piscsi.Controllers.State.{Outcome, ok, throw}

-- An addition and a subtraction of 64 and of 32 bits
abbrev pub add_64 : ℕ → ℕ → ℕ
add_64 a b = (a + b) % 2 ^ 64

abbrev pub sub_64 : ℕ → ℕ → ℕ
sub_64 a b = (a + 2 ^ 64 - b % 2 ^ 64) % 2 ^ 64

abbrev pub sub_32 : ℕ → ℕ → ℕ
sub_32 a b = (a + 2 ^ 32 - b % 2 ^ 32) % 2 ^ 32

abbrev pub is_negative : ℕ → Bool
is_negative p = leb (2 ^ 63) p

-- `META_DATA_SIZE`
abbrev pub meta_data_size : ℕ
meta_data_size = 4

-- `PRIVATE_MARKER_MAGIC`
abbrev pub private_marker_magic : ℕ
private_marker_magic = 0x533250

-- `Tape::ObjectType`, and a code that names none of them.
pub data ObjectType : Type 0 where
  block filemark end_of_data : ObjectType
  other_type : ℕ → ObjectType

abbrev pub object_code : ObjectType → ℕ
object_code ObjectType.block = 0
object_code ObjectType.filemark = 1
object_code ObjectType.end_of_data = 3
object_code (ObjectType.other_type n) = n

-- `static_cast<ObjectType>`
abbrev pub object_of : ℕ → ObjectType
object_of n =
    if n == 0
    then ObjectType.block
    else if n == 1
    then ObjectType.filemark
    else if n == 3
    then ObjectType.end_of_data
    else ObjectType.other_type n

abbrev pub is_block : ObjectType → Bool
is_block ObjectType.block = true
is_block _ = false

abbrev pub is_filemark : ObjectType → Bool
is_filemark ObjectType.filemark = true
is_filemark _ = false

abbrev pub is_end_of_data : ObjectType → Bool
is_end_of_data ObjectType.end_of_data = true
is_end_of_data _ = false

-- The image file and its stream
pub record TapeFile : Type 0 where
  pub bytes : ℕ → ℕ
  pub size : ℕ
  pub outcomes : List Bool

-- The `n` bytes from a position on.
unfoldable pub window : (ℕ → ℕ) → ℕ → ℕ → List ℕ
window bytes p zero = []
window bytes p (suc n) = bytes p ∷ window bytes (p + 1) n

-- `seekg` and `read` of `n` bytes: a part of them does not count.
unfoldable pub read_file : ℕ → ℕ → TapeFile → Bool × List ℕ × TapeFile
read_file p n f = (
  not (is_negative p) && leb (p + n) f.size && head_outcome f.outcomes,
  window f.bytes p n,
  record f { outcomes = drop 1 f.outcomes },
)

-- The bytes of a file with other bytes written at a position.
abbrev pub overlay : (ℕ → ℕ) → ℕ → List ℕ → ℕ → ℕ
overlay bytes p data' i =
    if leb p i && ltb i (p + length data') then get_or data' (i - p) 0 else bytes i

-- `seekp` and `write`
unfoldable pub write_file : ℕ → List ℕ → TapeFile → Bool × TapeFile
write_file p data' f =
    if not (is_negative p) && head_outcome f.outcomes
    then (
      true,
      record {
        bytes = overlay f.bytes p data';
        size = if ltb f.size (p + length data') then p + length data' else f.size;
        outcomes = drop 1 f.outcomes;
      },
    )
    else (false, record f { outcomes = drop 1 f.outcomes })

-- The fields of `Tape`; `current_meta_data` is used by `ReadData` alone.
pub record Tape : Type 0 where
  pub file : TapeFile
  pub tape_position : ℕ
  pub initial : Bool
  pub fixed : Bool
  pub block_size_for_descriptor : ℕ
  pub blocks_read : ℕ
  pub record_start : ℕ
  pub record_length : ℕ
  pub object_location : ℕ
  pub byte_count : ℕ
  pub remaining_count : ℕ
  pub file_size : ℕ
  pub max_file_size : ℕ
  pub tar_file : Bool
  pub expl : Bool
  pub read_error_count : ℕ
  pub write_error_count : ℕ

-- What a method of `Tape` works on that does not call the controller: the device, the size of its
-- blocks, the CDB and the tape.
pub record Drive : Type 0 where
  pub device : PrimaryDevice
  pub block_size : ℕ
  pub cdb : List ℕ
  pub tape : Tape

abbrev pub Motion : Type 0 → Type 0
Motion A = Drive → Outcome A × Drive

infixl 5 ◌>>=◌ ◌>>◌
abbrev pub ◌>>=◌ : {A B : Type 0} → Motion A → (A → Motion B) → Motion B
◌>>=◌ m f v = let (r, v') = m v in elim r [ ok a ↦ f a v' | throw k a ↦ (throw k a, v') ]

abbrev pub ◌>>◌ : {B : Type 0} → Motion (Unit {0}) → Motion B → Motion B
m >> k = m >>= λ _. k

abbrev pub set_tape : (Tape → Tape) → Drive → Drive
set_tape f v = record v { tape = f v.tape }

abbrev pub set_device : (PrimaryDevice → PrimaryDevice) → Drive → Drive
set_device f v = record v { device = f v.device }

abbrev pub set_position : ℕ → Drive → Drive
set_position p v = set_tape (λ t. record t { tape_position = p }) v

abbrev pub set_file : TapeFile → Drive → Drive
set_file f v = set_tape (λ t. record t { file = f }) v

-- `GetCdbByte`
abbrev pub cdb_byte : ℕ → Drive → ℕ
cdb_byte i v = get_or v.cdb i 0

abbrev pub count_read_error : Drive → Drive
count_read_error v = set_tape (λ t. record t { read_error_count = t.read_error_count + 1 }) v

abbrev pub count_write_error : Drive → Drive
count_write_error v = set_tape (λ t. record t { write_error_count = t.write_error_count + 1 }) v

-- `ResetPositions`
unfoldable pub reset_positions : Drive → Drive
reset_positions v = set_tape (λ t. record t { tape_position = 0; object_location = 0 }) v

-- `CheckForReadError` and `CheckForWriteError`, on the result of the stream.
unfoldable pub check_for_read_error : Bool → Motion (Unit {0})
check_for_read_error good v =
    if not good
    then (throw SenseKey.medium_error Asc.read_error, count_read_error v)
    else (ok tt, v)

unfoldable pub check_for_write_error : Bool → Motion (Unit {0})
check_for_write_error good v =
    if not good
    then (throw SenseKey.medium_error Asc.write_error, count_write_error v)
    else (ok tt, v)

-- `CheckForOverflow`: the sum has 64 bits with a sign.
unfoldable pub check_for_overflow : ℕ → Motion (Unit {0})
check_for_overflow length v =
    let end = add_64 v.tape.tape_position length in
    if not (is_negative end) && ltb v.tape.max_file_size end
    then (throw SenseKey.volume_overflow Asc.no_additional_sense_information, count_write_error v)
    else (ok tt, v)

-- `RaiseBeginningOfPartition`, `RaiseEndOfPartition` and `RaiseEndOfData`
unfoldable pub raise_beginning_of_partition : {A : Type 0} → ℕ → Motion A
unfolding reset_positions set_information set_eom
raise_beginning_of_partition info v = (
  throw SenseKey.no_sense Asc.no_additional_sense_information,
  set_device (λ d. set_eom Ascq.beginning_of_partition_medium_detected (set_information info d))
      (reset_positions v),
)

unfoldable pub raise_end_of_partition : {A : Type 0} → ℕ → Motion A
unfolding set_information set_eom
raise_end_of_partition info v = (
  throw SenseKey.medium_error Asc.no_additional_sense_information,
  set_device (λ d. set_eom Ascq.end_of_partition_medium_detected (set_information info d)) v,
)

unfoldable pub raise_end_of_data : {A : Type 0} → ℕ → Motion A
unfolding set_information
raise_end_of_data info v = (
  throw SenseKey.blank_check Asc.no_additional_sense_information,
  set_device (set_information info) (set_position (sub_64 v.tape.tape_position meta_data_size) v),
)
