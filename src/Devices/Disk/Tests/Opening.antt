-- ===== src/Devices/Disk/Tests/Opening.antt =====
-- A run of `Open` of a hard disk: cpp/devices/scsi_hd.cpp, disk.cpp.
use piscsi.Common.{[], true, some, refl}
use piscsi.Devices.ImageFile
use piscsi.Devices.LinuxCache
use piscsi.Devices.StorageDevice
use piscsi.Devices.StorageDevice.Validation
use piscsi.Devices.Disk
use piscsi.Devices.Disk.Opening.{open_hard_disk}
use piscsi.Devices.Disk.Opening
use piscsi.Devices.Disk.Opened.{IsWithin, open_hard_disk-IsOpen}
use piscsi.Devices.Disk.Validated.{IsOpen}
use piscsi.Devices.Disk.Tests.{with_cdb, sectors}

open_hard_disk-IsOpen_example :
    IsOpen sectors 0 (open_hard_disk 2 0 (some 1200) true (with_cdb [])).1
    × IsWithin 1200 ((open_hard_disk 2 0 (some 1200) true (with_cdb [])).1.extra.storage 0)
unfolding Opening.open_hard_disk Opening.open_sized Opening.validate_file
    Validation.validate_storage_file Opening.set_up_disk_cache Disk.set_up_cache Disk.init_cache
    Disk.make_cache Disk.update_disk StorageDevice.set_block_size StorageDevice.update_storage
    LinuxCache.init ImageFile.next_outcome
open_hard_disk-IsOpen_example = open_hard_disk-IsOpen 2 0 1200 true (with_cdb []) refl
