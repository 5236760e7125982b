-- ===== src/Devices/Tape/Lawful.antt =====
-- The commands of a tape drive (cpp/devices/tape.cpp) keep the law that the controller expects of a
-- device.
use piscsi.Common.{ℕ, refl, Bool, true, false, Option, none, some, List, if_intro, ◌==◌, pos}
use piscsi.Scsi.{
  read_6, read_16, write_6, write_16, erase_6, read_block_limits, rewind, space_6,
  write_filemarks_6, write_filemarks_16, locate_10, locate_16, read_position, format_medium,
}
use piscsi.Controllers.State.{Controller, Action}
use piscsi.Controllers.Device.{primary_commands}
use piscsi.Controllers.Laws.Lines.{same_bus}
use piscsi.Controllers.Laws.Lawful.{IsLawful}
use piscsi.Controllers.Laws.Primary.{
  KeepsConsistent, Kept, keep, Entry, ready_then-KeepsConsistent, status_phase-KeepsConsistent,
  data_in_phase-KeepsConsistent, primary_commands-Entry,
}
use piscsi.Devices.StorageDevice.{check_write_preconditions}
use piscsi.Devices.StorageDevice.StartStop.{storage_commands}
use piscsi.Devices.StorageDevice.Laws.{
  check_write_preconditions-KeepsConsistent, storage_commands-Entry,
  dispatch_command-KeepsConsistent,
}
use piscsi.Devices.Tape.{Motion}
use piscsi.Devices.Tape.Transfer.{Tapes, update_tape, check_cdb}
use piscsi.Devices.Tape.Commands.{
  then_status, refuse_tar, modify, modify_tape, erase_6_command, erase_medium,
  read_block_limits_command, rewind_command, space, space_tape, space_6_command, mark, mark_tape,
  mark_or_skip, refuses_filemarks, write_filemarks_command, locate_command, report_position,
  read_position_command, format, format_medium_command, locate_any,
}
use piscsi.Devices.Tape.Handlers.{
  no_flush, reset_counters, tape_commands, paged_commands, tape_handlers, first_of,
}
use piscsi.Devices.Tape.LawfulTransfer.{
  check_cdb-KeepsConsistent, then-KeepsConsistent, then_status-KeepsConsistent,
  read-KeepsConsistent, write-KeepsConsistent, read_data-KeepsConsistent,
  write_data-KeepsConsistent,
}

modify-KeepsConsistent : (lun : ℕ) (m : Motion (Unit {0})) → KeepsConsistent (modify lun m)
unfolding modify
modify-KeepsConsistent lun m =
    then-KeepsConsistent (check_write_preconditions lun) (then_status lun m)
      (check_write_preconditions-KeepsConsistent lun) (then_status-KeepsConsistent lun m)

refuse_tar-KeepsConsistent : (lun : ℕ) → KeepsConsistent (refuse_tar lun)
unfolding refuse_tar
refuse_tar-KeepsConsistent lun s c = c

modify_tape-KeepsConsistent :
    (lun : ℕ) (m : Motion (Unit {0})) → KeepsConsistent (modify_tape lun m)
unfolding modify_tape
modify_tape-KeepsConsistent lun m =
    then-KeepsConsistent (refuse_tar lun) (modify lun m) (refuse_tar-KeepsConsistent lun)
      (modify-KeepsConsistent lun m)

space_tape-KeepsConsistent : (lun : ℕ) → KeepsConsistent (space_tape lun)
unfolding space_tape
space_tape-KeepsConsistent lun =
    then-KeepsConsistent (refuse_tar lun) (then_status lun space) (refuse_tar-KeepsConsistent lun)
      (then_status-KeepsConsistent lun space)

mark_or_skip-KeepsConsistent : (lun : ℕ) (b : Bool) → KeepsConsistent (mark_or_skip lun b)
unfolding mark_or_skip mark_tape
mark_or_skip-KeepsConsistent lun b s c =
    let all : Kept (mark_or_skip lun b s) =
      if_intro Kept (s.extra.unit lun).tar_file (keep (status_phase-KeepsConsistent s c)) (
        keep (
          then-KeepsConsistent (check_cdb (refuses_filemarks b)) (modify lun (mark b))
            (check_cdb-KeepsConsistent (refuses_filemarks b)) (modify-KeepsConsistent lun (mark b))
            s c)) in
    all.kept

locate_command-KeepsConsistent : (lun : ℕ) (b : Bool) → KeepsConsistent (locate_command lun b)
unfolding locate_command
locate_command-KeepsConsistent lun b =
    ready_then-KeepsConsistent lun (then_status lun (locate_any b))
      (then_status-KeepsConsistent lun (locate_any b))

tape_commands-Entry :
    (lun cmd : ℕ) (others : ℕ → Option (Action Tapes (Unit {0})))
    → Entry (others cmd)
    → Entry (tape_commands lun others cmd)
unfolding tape_commands erase_6_command read_block_limits_command rewind_command space_6_command
    write_filemarks_command locate_command read_position_command report_position
    format_medium_command
tape_commands-Entry lun cmd others e =
    if_intro Entry (cmd == read_6) (read-KeepsConsistent lun false) (
      if_intro Entry (cmd == read_16) (read-KeepsConsistent lun true) (
        if_intro Entry (cmd == write_6) (write-KeepsConsistent lun false) (
          if_intro Entry (cmd == write_16) (write-KeepsConsistent lun true) (
            if_intro Entry (cmd == erase_6)
              (ready_then-KeepsConsistent lun (modify_tape lun erase_medium)
                (modify_tape-KeepsConsistent lun erase_medium))
              (if_intro Entry (cmd == read_block_limits)
                (λ s c. data_in_phase-KeepsConsistent (pos 6) _ (same_bus c refl refl))
                (if_intro Entry (cmd == rewind) (then_status-KeepsConsistent lun _) (
                  if_intro Entry (cmd == space_6)
                    (ready_then-KeepsConsistent lun (space_tape lun)
                      (space_tape-KeepsConsistent lun))
                    (if_intro Entry (cmd == write_filemarks_6)
                      (ready_then-KeepsConsistent lun (mark_or_skip lun false)
                        (mark_or_skip-KeepsConsistent lun false))
                      (if_intro Entry (cmd == write_filemarks_16)
                        (ready_then-KeepsConsistent lun (mark_or_skip lun true)
                          (mark_or_skip-KeepsConsistent lun true))
                        (if_intro Entry (cmd == locate_10)
                          (locate_command-KeepsConsistent lun false)
                          (if_intro Entry (cmd == locate_16)
                            (locate_command-KeepsConsistent lun true)
                            (if_intro Entry (cmd == read_position)
                              (ready_then-KeepsConsistent lun (report_position lun) (λ s c.
                                data_in_phase-KeepsConsistent (pos 20) _ (same_bus c refl refl)))
                              (if_intro Entry (cmd == format_medium)
                                (ready_then-KeepsConsistent lun (modify_tape lun format)
                                  (modify_tape-KeepsConsistent lun format))
                                e)))))))))))))

first_of-Entry : (a b : Option (Action Tapes (Unit {0}))) → Entry a → Entry b → Entry (first_of a b)
first_of-Entry none b e f = f
first_of-Entry (some m) b e f = e

module _ (page_commands : ℕ → ℕ → Option (Action Tapes (Unit {0})))
    (inquiry_data : ℕ → Controller Tapes → List ℕ) (mode_select : ℕ → ℕ → Action Tapes (Unit {0}))
    (page-law : (lun cmd : ℕ) → Entry (page_commands lun cmd))
    (select-law : (lun n : ℕ) → KeepsConsistent (mode_select lun n)) where
  paged_commands-Entry :
      (lun cmd : ℕ) → Entry (paged_commands page_commands inquiry_data mode_select lun cmd)
  paged_commands-Entry lun cmd =
      first_of-Entry (page_commands lun cmd) (primary_commands (inquiry_data lun) lun cmd)
        (page-law lun cmd) (primary_commands-Entry (inquiry_data lun) lun cmd)

  -- The commands of a tape drive, `ReadData` and `WriteData` keep the agreement of lines and phase, if
  -- the commands of the page handler and MODE SELECT do.
  pub tape_handlers-IsLawful : IsLawful (tape_handlers page_commands inquiry_data mode_select)
  unfolding tape_handlers update_tape reset_counters
  tape_handlers-IsLawful = record {
    dispatch = λ lun cmd.
        let paged = paged_commands page_commands inquiry_data mode_select lun in
        let storage = storage_commands no_flush reset_counters lun paged in
        dispatch_command-KeepsConsistent _ lun cmd (
          tape_commands-Entry lun cmd storage (
            storage_commands-Entry no_flush reset_counters (λ l s c. c)
              (λ l s c. same_bus c refl refl) lun cmd paged (paged_commands-Entry lun cmd)));
    read_data = read_data-KeepsConsistent;
    write_data = λ lun offset n. write_data-KeepsConsistent lun n;
    mode_select = select-law;
  }
