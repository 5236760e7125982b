-- ===== src/Devices/PageHandler.antt =====
-- cpp/devices/page_handler.h and .cpp: the mode pages of a reply to MODE SENSE, and MODE SELECT.
--
-- `map<int, vector<byte>>` is a list of page codes with their bytes, in the order of the codes. The
-- pages of the property file are an argument.
pub mod Laws
use Prim.Native.Nat.{bit_or}
use piscsi.Common.{
  ℕ, ◌+◌, ◌-◌, ◌%◌, ◌^◌, Bool, true, false, not, ◌&&◌, ◌||◌, Option, none, some, List, [], ◌∷◌,
  ◌++◌, if◌then◌else◌, ltb, ◌==◌, min, length, get_or, set, take, write_at, test_bit, pos,
}
use piscsi.Scsi.{SenseKey, Asc}
use piscsi.Controllers.State.{throw, Action, get_cdb_byte}
use piscsi.Controllers.Device.{data_out_phase}

abbrev pub Pages : Type 0
Pages = List (ℕ × List ℕ)

-- `pages[code] = bytes`
unfoldable pub put_page : ℕ → List ℕ → Pages → Pages
put_page code bytes [] = (code, bytes) ∷ []
put_page code bytes ((c, b) ∷ rest) =
    let later = put_page code bytes rest in
    if code == c
    then (code, bytes) ∷ rest
    else if ltb code c
    then (code, bytes) ∷ (c, b) ∷ rest
    else (c, b) ∷ later

-- `pages.erase(code)`
unfoldable pub erase_page : ℕ → Pages → Pages
erase_page code [] = []
erase_page code ((c, b) ∷ rest) = if code == c then rest else (c, b) ∷ erase_page code rest

unfoldable pub find_page : ℕ → Pages → Option (List ℕ)
find_page code [] = none
find_page code ((c, b) ∷ rest) = if code == c then some b else find_page code rest

abbrev pub is_empty : {A : Type 0} → List A → Bool
is_empty [] = true
is_empty (x ∷ xs) = false

-- The pages of the property file replace the others; an empty one removes a page.
unfoldable pub merge_pages : Pages → Pages → Pages
merge_pages [] pages = pages
merge_pages ((c, b) ∷ custom) pages =
    merge_pages custom (if is_empty b then erase_page c pages else put_page c b pages)

-- A page with its code, beside the PS bit, and its size.
unfoldable pub page_bytes : ℕ → List ℕ → List ℕ
page_bytes code bytes =
    let coded = set bytes 0 (bit_or (get_or bytes 0 0) code) in
    set coded 1 ((length bytes + 2 ^ 8 - 2) % 2 ^ 8)

-- All pages but page 0, and page 0.
unfoldable pub numbered_pages : Pages → List ℕ
unfolding page_bytes
numbered_pages [] = []
numbered_pages ((c, b) ∷ rest) =
    let later = numbered_pages rest in if not (c == 0) then page_bytes c b ++ later else later

unfoldable pub page_0 : Option (List ℕ) → List ℕ
page_0 none = []
page_0 (some b) = b

unfoldable pub all_pages : Pages → List ℕ
unfolding numbered_pages page_0 find_page
all_pages pages = numbered_pages pages ++ page_0 (find_page 0 pages)

-- `AddModePages` on the pages: the size of the reply and the buffer, or nothing if it throws
-- INVALID FIELD IN CDB.
unfoldable pub add_mode_pages : Pages → List ℕ → ℕ → ℕ → ℕ → Option (ℕ × List ℕ)
unfolding all_pages
add_mode_pages pages buf offset n max_size =
    let result = all_pages pages in
    let size = min (n - offset) (length result) in
    if ltb n offset
    then some (n, buf)
    else if is_empty pages || ltb max_size (length result)
    then none
    else some
        (if ltb (size + offset) n then size + offset else n, write_at buf offset (take size result))

-- `ModeSelect`, by the flags of the device.
unfoldable pub mode_select_command : {X : Type 0} → Bool → Bool → ℕ → Action X (Unit {0})
mode_select_command supports_mode_select supports_save_parameters n s =
    if not supports_mode_select || (not supports_save_parameters && test_bit 0 (get_cdb_byte 1 s))
    then (throw SenseKey.illegal_request Asc.invalid_field_in_cdb, s)
    else data_out_phase (pos n) s
