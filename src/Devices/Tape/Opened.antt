-- ===== src/Devices/Tape/Opened.antt =====
-- A tape that has been opened (cpp/devices/tape.cpp) stands at its begin.
use native.Mathlib.Nat.{div-mul-le_self, mul-le-mul_right}
use piscsi.Common.{
  ℕ, ◌*◌, ◌/◌, ◌%◌, ◌^◌, ◌≡◌, ◌≤◌, sym, ap, ◌∙◌, subst, Bool, true, false, not, ◌&&◌, Option, none,
  if◌then◌else◌, ltb, ◌==◌, ℤ, pos, negsuc, arith, if_intro, if_intro_by,
}
use piscsi.Shared.S2pUtil.{parse_as_unsigned_int}
use piscsi.Controllers.State.{Controller, has_device, is_ready, ok}
use piscsi.Devices.StorageDevice.{set_block_size, update_storage}
use piscsi.Devices.StorageDevice.Validation.{validate_storage_file}
use piscsi.Devices.StorageDevice.Validated.{
  validate_storage_file-ready, validate_storage_file-extra,
}
use piscsi.Devices.Tape.{Drive, TapeFile, ObjectType}
use piscsi.Devices.Tape.Writing.{write_meta_data, write_end_of_data}
use piscsi.Devices.Tape.Transfer.{Tapes, update_tape}
use piscsi.Devices.Tape.Opening.{
  Image, file_of, size_of, extend, load_tape, validate_tape, rewind_tape, open_limited,
  open_appended, open_tape,
}

-- What `ValidateFile` leaves if it succeeds.
record Validates (lun : ℕ) (s : Controller Tapes) (r : Bool × Controller Tapes) : Type 0 where
  pub ready : r.0 ≡ true → has_device lun r.1 ≡ true → is_ready lun r.1 ≡ true
  pub storage : r.1.extra.storage ≡ s.extra.storage
  pub file_size : (r.1.extra.unit lun).file_size ≡ (s.extra.unit lun).file_size

validate_tape-Validates :
    (lun : ℕ) (image : Image) (o : Option TapeFile) (s : Controller Tapes)
    → Validates lun s (validate_tape lun image o s)
unfolding validate_tape load_tape update_tape
validate_tape-Validates lun image o s =
    let r = validate_storage_file lun (size_of o) image.writable s in
    let same = validate_storage_file-extra lun (size_of o) image.writable s in
    let ready = validate_storage_file-ready lun (size_of o) image.writable s in
    let size = ap (λ x. (x.unit lun).file_size) same in
    if_intro_by (Validates lun s) (not r.0) {x = (false, r.1)}
      {y = (true, load_tape lun image o r.1)}
      (λ bad. record { ready = λ e. cc e; storage = ap (λ x. x.storage) same; file_size = size })
      λ good. record {
        ready = λ _. ready (ground (arith, good));
        storage = ap (λ x. x.storage) same;
        file_size = ground (arith, size);
      }

-- What `Open` leaves if it succeeds.
pub record IsOpen (size lun : ℕ) (t : Controller Tapes) : Type 0 where
  pub ready : has_device lun t ≡ true → is_ready lun t ≡ true
  pub position : (t.extra.unit lun).tape_position ≡ 0
  pub location : (t.extra.unit lun).object_location ≡ 0
  pub file_size : (t.extra.unit lun).file_size ≡ size
  pub blocks : (t.extra.storage lun).blocks * (t.extra.storage lun).block_size ≤ size

abbrev Opens : ℕ → ℕ → Bool × Controller Tapes → Type 0
Opens size lun r = r.0 ≡ true → IsOpen size lun r.1

rewind_tape-IsOpen :
    (size lun : ℕ) (s : Controller Tapes)
    → (has_device lun s ≡ true → is_ready lun s ≡ true)
    → (s.extra.unit lun).file_size ≡ size
    → (s.extra.storage lun).blocks * (s.extra.storage lun).block_size ≤ size
    → IsOpen size lun (rewind_tape lun s)
unfolding update_tape
rewind_tape-IsOpen size lun s ready same blocks = record {
  ready = ready;
  position = ground arith;
  location = ground arith;
  file_size = ground (arith, same);
  blocks = blocks;
}

sectors-bound : (n b : ℕ) → n / b % 2 ^ 32 * b ≤ n
sectors-bound n b =
    let cut : n / b % 2 ^ 32 ≤ n / b = omega arith in
    let le = mul-le-mul_right b cut in omega (arith, le, div-mul-le_self n b)

open_limited-Opens :
    (max lun : ℕ) (image : Image) (s : Controller Tapes)
    → Opens (file_of image.content).size lun (open_limited max lun image s)
unfolding open_limited update_tape update_storage
open_limited-Opens max lun image s =
    let size = (s.extra.storage lun).block_size in
    let file_size = (file_of image.content).size in
    let limit = if max == 0 && not (file_size == 0) then file_size else max in
    let measured =
      update_tape lun
        (λ t. record t {
          block_size_for_descriptor = size;
          file_size = file_size;
          max_file_size = max;
        })
        s in
    let limited = update_tape lun (λ t. record t { max_file_size = limit }) measured in
    let counted =
      update_storage lun (λ d. record d { blocks = file_size / size % 2 ^ 32 }) limited in
    let e = extend max size image in
    let r = validate_tape lun image e.1 counted in
    let v = validate_tape-Validates lun image e.1 counted in
    let blocks = sectors-bound file_size size in
    let counted_size : (counted.extra.unit lun).file_size ≡ file_size = ground arith in
    let counted_blocks : (counted.extra.storage lun).blocks * (counted.extra.storage lun).block_size
        ≤ file_size =
      ground (arith, blocks) in
    let within : (r.1.extra.storage lun).blocks * (r.1.extra.storage lun).block_size ≤ file_size =
      subst (λ f. (f lun).blocks * (f lun).block_size ≤ file_size) (sym v.storage) counted_blocks in
    let opened : r.0 ≡ true → IsOpen file_size lun (rewind_tape lun r.1) = λ good.
      rewind_tape-IsOpen file_size lun r.1 (v.ready good) (v.file_size ∙ counted_size) within in
    if_intro (Opens file_size lun) (not (max == 0) && ltb max size) (λ bad. cc bad)
      (if_intro (Opens file_size lun) (not e.0) (λ bad. cc bad)
        (λ good. if_intro_by (IsOpen file_size lun) r.0 (λ _. opened good) λ bad. cc (bad, good)))

-- After a successful `Open` of a tape the drive is ready if the LUN has a device, stands at the begin of
-- the tape, knows the size that the file had before, and has no more blocks than were in it.
pub open_tape-IsOpen :
    (lun : ℕ) (image : Image) (s : Controller Tapes)
    → (open_tape lun image s).0 ≡ true
    → IsOpen (file_of image.content).size lun (open_tape lun image s).1
unfolding open_tape open_appended update_storage
open_tape-IsOpen lun image s =
    let configured = (s.extra.storage lun).configured_block_size in
    let r = set_block_size (if configured == 0 then 512 else configured) (s.extra.storage lun) in
    let s1 = update_storage lun (λ _. r.1) s in
    if_intro (Opens (file_of image.content).size lun) (not r.0) (λ bad. cc bad)
      (appended (parse_as_unsigned_int image.append) s1)
  where
    appended :
        (z : ℤ) (t : Controller Tapes)
        → Opens (file_of image.content).size lun (open_appended z lun image t)
    appended (pos max) t = open_limited-Opens max lun image t
    appended (negsuc n) t = λ bad. cc bad

-- On a tape whose image file `Open` has created `WriteMetaData` writes no end-of-data object at the begin.
pub open_tape-created :
    (lun : ℕ) (image : Image) (s : Controller Tapes) (v : Drive)
    → image.content ≡ none
    → (open_tape lun image s).0 ≡ true
    → v.tape ≡ (open_tape lun image s).1.extra.unit lun
    → write_meta_data ObjectType.end_of_data 0 v ≡ (ok tt, v)
unfolding write_meta_data write_end_of_data
open_tape-created lun image s v none_yet e same =
    let opened = open_tape-IsOpen lun image s e in
    let position = ap (λ t. t.tape_position) same ∙ opened.position in
    let size =
      ap (λ t. t.file_size) same ∙ opened.file_size ∙ ap (λ o. (file_of o).size) none_yet in
    ground (arith, position, size)
