-- ===== src/Devices/StorageDevice/Selecting.antt =====
-- The loop of MODE SELECT in cpp/devices/storage_device.cpp over the pages.
use piscsi.Common.{
  ℕ, zero, suc, ◌+◌, ◌-◌, ◌≤◌, ◌≡◌, refl, ap, List, if◌then◌else◌, ◌==◌, arith, get_or,
}
use piscsi.Controllers.State.{ok}
use piscsi.Devices.PageHandler.{Pages}
use piscsi.Devices.StorageDevice.{StorageDevice}
use piscsi.Devices.StorageDevice.ModePages.{parse_page, parse_pages}

-- The loop ends: with the length as fuel, or more of it, the result is the same.
pub parse_pages-fuel :
    (fuel more : ℕ) (pages : Pages) (buf : List ℕ) (offset n : ℕ) (d : StorageDevice)
    → n ≤ fuel
    → n ≤ more
    → parse_pages fuel pages buf offset n d ≡ parse_pages more pages buf offset n d
unfolding parse_pages
parse_pages-fuel zero zero pages buf offset n d h k = refl
parse_pages-fuel zero (suc more) pages buf offset n d h k = ground arith
parse_pages-fuel (suc fuel) zero pages buf offset n d h k = ground arith
parse_pages-fuel (suc fuel) (suc more) pages buf offset n d h k =
    let size = get_or buf (offset + 1) 0 + 2 in
    ap (λ rest. if n == 0 then ok tt else parse_page pages buf offset n d rest)
      (parse_pages-fuel fuel more pages buf (offset + size) (n - size) d (omega arith)
        (omega arith))
