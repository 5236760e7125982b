-- ===== src/Lib.antt =====
-- SCSI2Pi: a verification of the core of a SCSI device emulator for the Raspberry Pi (cpp/).
--
-- The program emulates SCSI devices on a bus whose lines are GPIO pins. A controller per target ID
-- runs through the phases of the bus: it is selected, takes messages and a CDB from the initiator,
-- lets the device of the addressed LUN execute the command, moves the data in chunks, and ends with
-- the status and a message. Each call of `Controller::Process` handles the phase in which the
-- controller is. The devices keep their sense data and reservations; disks keep their sectors in an
-- image file behind a cache of tracks.
--
-- Which file models what:
--   Common              lists, tests and integers that the others share
--   Scsi                cpp/shared/scsi.h: the codes; Scsi.Opcode: the operation codes
--   Shared.MemoryUtil   cpp/shared/memory_util.h, .cpp: numbers in buffers of bytes
--   Shared.CommandMetaData
--                       cpp/shared/command_meta_data.h, .cpp: the table of commands
--   Shared.S2pUtil      cpp/shared/s2p_util.cpp: splitting and parsing of strings
--   Shared.SimhUtil     cpp/shared/simh_util.h, .cpp: the records of SIMH tape images
--   Buses.Lines         the signal lines, and the phase table of cpp/buses/bus.cpp
--   Buses.Bus           cpp/buses/bus.h, .cpp: Signals (waiting, `GetPhase`), Handshake (all four
--                       hand-shakes, for targets and initiators), Laws and Transfers (proofs)
--   Base.Device         cpp/base/device.h, .cpp: the flags of a device
--   Base.PrimaryDevice  cpp/base/primary_device.h, .cpp: sense data, reservation, INQUIRY data
--   Controllers.State   cpp/controllers/abstract_controller.h, .cpp and phase_handler.h
--   Controllers.Phases, Command, Transfer, Process
--                       cpp/controllers/controller.cpp and phase_handler.cpp: the phases
--   Controllers.Device  the command handlers of cpp/base/primary_device.cpp, which call the phases
--   Controllers.Laws    proofs about all of these: Lines, Lawful and Invariant (phase and lines
--                       agree), Reach (all sequences of steps), Errors, Primary
--   Devices.ImageFile   the image file, as a function from sector numbers to sectors
--   Devices.DiskTrack   cpp/devices/disk_track.h, .cpp; Laws and Coherence (proofs)
--   Devices.DiskCache   cpp/devices/disk_cache.h, .cpp; Coherence, Slots, Saving, Assign, Refinement,
--                       Flushing and Availability (proofs)
--   Devices.LinuxCache  cpp/devices/linux_cache.h, .cpp: the file with no cache of tracks; Laws
--   Devices.Cache       cpp/devices/cache.h: both caches; Refinement (proofs for both)
--   Devices.PageHandler cpp/devices/page_handler.h, .cpp: mode pages; Laws
--   Devices.StorageDevice
--                       cpp/devices/storage_device.h, .cpp: StartStop, ModePages, Validation; Laws, ModeLaws,
--                       Reserved, Selecting and Validated (proofs)
--   Devices.Disk        cpp/devices/disk.h, .cpp: Access (transfers), Long, Capacity, Commands; Lawful,
--                       LawfulCommands and LawfulHandlers (the controller's law), Ranges, Sectors,
--                       Media, Capacities and BlockSize (proofs); Opening: ValidateFile and
--                       Open of scsi_hd.cpp, sasi_hd.cpp and optical_memory.cpp, with
--                       Validated and Opened (proofs)
--   Devices.Tape        cpp/devices/tape.h, .cpp: the drive and its file; Seeking and Finding (the
--                       searches over the objects of a tape), Writing, Reading, Transfer (READ,
--                       WRITE, LOCATE and the controller), Commands (all others), Handlers (the array of
--                       the commands, the mode pages, the eject), Opening; proofs: Progress,
--                       Termination and Searching (the searches end), Spacing, Written, Parts, RoundTrip,
--                       ReadBack and Records (a record is written and read), OddRecords, Overflow
--                       and MaximumSize, LawfulTransfer and Lawful (the controller's law), Opened
-- The modules called Tests run the definitions on concrete inputs.
--
-- State and operations. The controller is a record with the fields of `AbstractController` and
-- `Controller`; a method is a function on it, and one that may throw a `ScsiException` returns an
-- outcome beside the new state, since what has been written before an exception stays. The
-- functions that the device classes override (`Dispatch`, `ReadData`, `WriteData`, `ModeSelect`)
-- are a record of functions, `Handlers`, with the law `IsLawful`; the theorems on the controller
-- take any such record. The handlers of a disk and those of a tape drive are such records that keep
-- the law, for any commands of a derived class that keep it. The functions of the source call one
-- another in a circle (`Status`, `Send`, `DataIn`, `Error`), always with the phase known at the
-- call, so that the model calls the branch that the phase selects.
--
-- The other side of the bus is a schedule: a sample of the lines and of the data byte for each time
-- that the code acquires the bus, and whether the time-out of three seconds has passed. A theorem
-- that says nothing of the schedule is about all of them, so about each interleaving of the two
-- sides; once the schedule has run out the other side is silent and waiting times out. The answers of
-- the operating system for an image file are a list of outcomes in the same way.
--
-- A cache stands for a disk, a function from sector numbers to sectors (`IsCoherent`): the sectors of
-- the tracks in memory are those of the disk, and so are those of the file that no track covers. The
-- other cache has none but the file (`StandsFor` is for both). A disk owns its image file, by its
-- cache if it has one. The state that the storage devices add to a controller is `Storages`: the
-- device of each LUN, what the derived class adds, and the list of the files in use, which the source
-- shares among all controllers and the model keeps for each.
--
-- Bounds. All loops end by the structure of their data: counts, buffers, messages and schedules.
-- Some loops have fuel: `save_from` the number of sectors of a track, which is enough because each
-- round moves on by a sector at least, and `find_shift_count` the number of shifts to try. Another
-- one is the loop of MODE SELECT over the pages: each page takes two bytes, so that their length is
-- enough. The searches of a tape have the size of the file and the position as their fuel: a round
-- forward moves on by four bytes at least up to the end of the file, a round backwards moves back
-- by four; a round of `Erase` writes 4096 bytes. Bytes and machine words are natural numbers with
-- the wrap-around of the source written out.
--
-- Assertions are left out, as in a release build. A length in bytes has 32 bits; what would make an
-- `int` negative, a transfer of 2^31 bytes or more, is refused by `LinuxCache` and left out where
-- the controller would take it.
--
-- What is not modelled: pins, interrupts and delays (hardware); logging; the script generator; the
-- network and host services; protocol buffers and the command line tools; the access to the file
-- system and the statistics. The commands that hard disks, optical disks and the printer add are
-- not modelled either; those of a class derived from the disk, its mode pages and the mode pages of
-- the property file are arguments.
pub mod Common
pub mod Scsi
pub mod Shared
pub mod Buses
pub mod Base
pub mod Controllers
pub mod Devices
