-- ===== src/Devices/PageHandler/Laws.antt =====
-- The mode pages of a reply to MODE SENSE: cpp/devices/page_handler.cpp.
use piscsi.Common.{
  ℕ, ◌-◌, ◌≤◌, ◌≡◌, some, List, [], ◌∷◌, if◌then◌else◌, ◌==◌, min, arith, length, take,
  length-write_at,
}
use piscsi.Devices.PageHandler.{Pages, put_page, find_page, all_pages, add_mode_pages}

-- The map of the pages: what is put is found, and the other pages are as before.
pub find_page-put_page :
    (code other : ℕ) (bytes : List ℕ) (pages : Pages)
    → find_page other (put_page code bytes pages)
      ≡ (if other == code then some bytes else find_page other pages)
unfolding find_page put_page
find_page-put_page code other bytes [] = ground arith
find_page-put_page code other bytes ((c, b) ∷ rest) =
    ground (arith, find_page-put_page code other bytes rest)

-- `AddModePages` gives no more bytes than were asked for, and keeps the size of the buffer.
pub add_mode_pages-length :
    (pages : Pages) (buf : List ℕ) (offset n max_size k : ℕ) (b : List ℕ)
    → add_mode_pages pages buf offset n max_size ≡ some (k, b)
    → (k ≤ n) × (length b ≡ length buf)
unfolding add_mode_pages
add_mode_pages-length pages buf offset n max_size k b h = ground (
  arith,
  length-write_at buf offset (take (min (n - offset) (length (all_pages pages))) (all_pages pages)),
)

-- The bytes before the pages and behind the asked length are left alone.
