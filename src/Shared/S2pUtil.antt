-- ===== src/Shared/S2pUtil.antt =====
-- cpp/shared/s2p_util.cpp: splitting and parsing of strings.
--
-- A string is the list of its characters. `getline` and `stoul` of the standard library are written
-- out as the source uses them; `unsigned long` has 64 bits. The texts of the messages are left out.
pub mod Laws
use piscsi.Common.{
  ℕ, zero, suc, ◌+◌, ◌-◌, ◌*◌, ◌%◌, ◌^◌, Bool, true, false, not, ◌&&◌, ◌||◌, Option, none, some,
  List, [], ◌∷◌, if◌then◌else◌, ltb, leb, ◌==◌, ℤ, pos, negsuc,
}

abbrev pub Text : Type 0
Text = List ℕ

-- `getline(str, component, separator)`: what is read, and the rest if the separator was found.
unfoldable pub get_line_until : ℕ → Text → Text × Option Text
get_line_until separator [] = ([], none)
get_line_until separator (c ∷ cs) =
    let (component, rest) = get_line_until separator cs in
    if c == separator then ([], some cs) else (c ∷ component, rest)

-- `Split` with `n` rounds of the loop left; the last component is a line.
unfoldable pub split_rounds : ℕ → ℕ → Text → List Text
split_rounds zero separator s = (get_line_until b'\n' s).0 ∷ []
split_rounds (suc n) separator [] = []
split_rounds (suc n) separator (c ∷ cs) =
    let (component, rest) = get_line_until separator (c ∷ cs) in
    component ∷ elim rest [ none ↦ [] | some r ↦ split_rounds n separator r ]

unfoldable pub split : Text → ℕ → ℕ → List Text
unfolding split_rounds
split s separator limit = split_rounds (limit - 1) separator s

abbrev pub is_digit : ℕ → Bool
is_digit c = leb b'0' c && leb c b'9'

abbrev pub is_number_text : Text → Bool
is_number_text [] = true
is_number_text (c ∷ cs) = (c == b' ' || is_digit c) && is_number_text cs

-- The number of the digits at the start of a text, behind the digits of `n`.
unfoldable pub read_digits : ℕ → Text → ℕ
read_digits n [] = n
read_digits n (c ∷ cs) =
    let rest = read_digits (n * 10 + (c - b'0')) cs in if is_digit c then rest else n

-- `stoul`: nothing where it throws.
unfoldable pub stoul : Text → Option ℕ
unfolding read_digits
stoul [] = none
stoul (c ∷ cs) =
    let later = stoul cs in
    let n = read_digits 0 (c ∷ cs) in
    if c == b' ' then later else if is_digit c && ltb n (2 ^ 64) then some n else none

-- `static_cast<int>`
unfoldable pub to_int : ℕ → ℤ
to_int n = let low = n % 2 ^ 32 in if ltb low (2 ^ 31) then pos low else negsuc (2 ^ 32 - 1 - low)

abbrev pub int_or_error : Option ℕ → ℤ
int_or_error none = negsuc 0
int_or_error (some n) = to_int n

-- `ParseAsUnsignedInt`
unfoldable pub parse_as_unsigned_int : Text → ℤ
unfolding stoul to_int
parse_as_unsigned_int s = if not (is_number_text s) then negsuc 0 else int_or_error (stoul s)

pub data Message : Type 0 where
  no_message missing_device_id invalid_device_id invalid_lun : Message

pub record IdAndLun : Type 0 where
  pub message : Message
  pub id : ℤ
  pub lun : ℤ

-- `n == -1 || n > limit`
abbrev pub is_invalid : ℕ → ℤ → Bool
is_invalid limit (pos n) = ltb limit n
is_invalid limit (negsuc n) = n == 0

-- `ParseIdAndLun` on its components
unfoldable pub parse_components : List Text → IdAndLun
unfolding parse_as_unsigned_int
parse_components [] = record { message = no_message; id = negsuc 0; lun = negsuc 0 }
parse_components (a ∷ []) =
    let id = parse_as_unsigned_int a in
    if is_invalid 7 id
    then record { message = invalid_device_id; id = negsuc 0; lun = negsuc 0 }
    else record { message = no_message; id = id; lun = negsuc 0 }
parse_components (a ∷ b ∷ _) =
    let id = parse_as_unsigned_int a in
    let lun = parse_as_unsigned_int b in
    if is_invalid 7 id
    then record { message = invalid_device_id; id = negsuc 0; lun = negsuc 0 }
    else if is_invalid 31 lun
    then record { message = invalid_lun; id = negsuc 0; lun = negsuc 0 }
    else record { message = no_message; id = id; lun = lun }

-- `ParseIdAndLun`
unfoldable pub parse_id_and_lun : Text → IdAndLun
unfolding parse_components split
parse_id_and_lun [] = record { message = missing_device_id; id = negsuc 0; lun = negsuc 0 }
parse_id_and_lun (c ∷ cs) = parse_components (split (c ∷ cs) b':' 2)

-- `HexToDec`
unfoldable pub hex_to_dec : ℕ → ℤ
hex_to_dec c =
    if leb b'0' c && leb c b'9'
    then pos (c - b'0')
    else if leb b'a' c && leb c b'f'
    then pos (c - b'a' + 10)
    else negsuc 0

abbrev pub is_blank : ℕ → Bool
is_blank c = c == b' ' || c == b'\r'

-- `Trim`, from the front and from the end.
unfoldable pub trim_front : Text → Text
trim_front [] = []
trim_front (c ∷ cs) = let rest = trim_front cs in if is_blank c then rest else c ∷ cs

-- A character before a text whose end is trimmed.
unfoldable pub put_trimmed : ℕ → Text → Text
put_trimmed c [] = if is_blank c then [] else c ∷ []
put_trimmed c (d ∷ ds) = c ∷ d ∷ ds

unfoldable pub trim_end : Text → Text
unfolding put_trimmed
trim_end [] = []
trim_end (c ∷ cs) = put_trimmed c (trim_end cs)

unfoldable pub trim : Text → Text
unfolding trim_front trim_end
trim s = trim_end (trim_front s)
