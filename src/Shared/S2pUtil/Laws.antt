-- ===== src/Shared/S2pUtil/Laws.antt =====
-- The bounds of the numbers that cpp/shared/s2p_util.cpp parses.
use piscsi.Common.{
  ℕ, ◌-◌, ◌%◌, ◌^◌, ◌≤◌, ◌<◌, ◌≡◌, ◌≢◌, refl, ap, ◌∙◌, true, false, none, some, List, [], ◌∷◌, ℤ,
  pos, negsuc, arith,
}
use piscsi.Shared.S2pUtil.{
  Text, IdAndLun, parse_as_unsigned_int, parse_components, parse_id_and_lun, is_invalid, stoul,
  to_int, read_digits, is_number_text, split, split_rounds, get_line_until, no_message, is_digit,
}

-- An ID that is not negative is at most 7, and a LUN that is not negative at most 31.
pub record InBounds (r : IdAndLun) : Type 0 where
  pub id : (i : ℕ) → r.id ≡ pos i → i ≤ 7
  pub lun : (l : ℕ) → r.lun ≡ pos l → l ≤ 31

valid-bound : (limit : ℕ) (n : ℤ) (i : ℕ) → is_invalid limit n ≡ false → n ≡ pos i → i ≤ limit
valid-bound limit (pos n) i h e = ground arith
valid-bound limit (negsuc n) i h e = cc e

parse_components-InBounds : (c : List Text) → InBounds (parse_components c)
unfolding parse_components
parse_components-InBounds [] = record { id = λ i e. cc e; lun = λ l e. cc e }
parse_components-InBounds (a ∷ []) = record {
  id = λ i e. ground (arith, valid-bound 7 (parse_as_unsigned_int a) i);
  lun = λ l e. ground arith;
}
parse_components-InBounds (a ∷ b ∷ r) = record {
  id = λ i e. ground (arith, valid-bound 7 (parse_as_unsigned_int a) i);
  lun = λ l e. ground (arith, valid-bound 31 (parse_as_unsigned_int b) l);
}

-- Whatever `ParseIdAndLun` is given, an ID that it returns is at most 7 and a LUN at most 31, unless
-- they are negative.
pub parse_id_and_lun-InBounds : (s : Text) → InBounds (parse_id_and_lun s)
unfolding parse_id_and_lun
parse_id_and_lun-InBounds [] = record { id = λ i e. cc e; lun = λ l e. cc e }
parse_id_and_lun-InBounds (c ∷ cs) = parse_components-InBounds (split (c ∷ cs) b':' 2)

-- The characters of digits, and the number behind the digits of `n`.
abbrev pub AreDigits : Text → Type 0
AreDigits [] = Unit {0}
AreDigits (c ∷ cs) = (is_digit c ≡ true) × AreDigits cs

AreDigits-line : (cs : Text) → AreDigits cs → get_line_until b':' cs ≡ (cs, none)
unfolding get_line_until
AreDigits-line [] d = refl
AreDigits-line (c ∷ cs) (d, ds) = ground (arith, AreDigits-line cs ds)

AreDigits-number : (cs : Text) → AreDigits cs → is_number_text cs ≡ true
AreDigits-number [] d = refl
AreDigits-number (c ∷ cs) (d, ds) = ground (arith, AreDigits-number cs ds)

AreDigits-stoul :
    (c : ℕ) (cs : Text)
    → AreDigits (c ∷ cs)
    → read_digits 0 (c ∷ cs) < 2 ^ 64
    → stoul (c ∷ cs) ≡ some (read_digits 0 (c ∷ cs))
unfolding stoul
AreDigits-stoul c cs (d, ds) small = ground arith

-- Digits are parsed as their number, in 32 bits and with a sign.
parse_as_unsigned_int-digits :
    (c : ℕ) (cs : Text)
    → AreDigits (c ∷ cs)
    → read_digits 0 (c ∷ cs) < 2 ^ 64
    → parse_as_unsigned_int (c ∷ cs) ≡ to_int (read_digits 0 (c ∷ cs))
unfolding parse_as_unsigned_int
parse_as_unsigned_int-digits c cs d small =
    ground (arith, AreDigits-number (c ∷ cs) d, AreDigits-stoul c cs d small)

split-digits : (c : ℕ) (cs : Text) → AreDigits (c ∷ cs) → split (c ∷ cs) b':' 2 ≡ (c ∷ cs) ∷ []
unfolding split split_rounds
split-digits c cs d = cc (AreDigits-line (c ∷ cs) d)

to_int-negative : (n : ℕ) → 2 ^ 31 ≤ n % 2 ^ 32 → to_int n ≡ negsuc (2 ^ 32 - 1 - n % 2 ^ 32)
unfolding to_int
to_int-negative n h = ground arith

parse_components-negative :
    (a : Text) (k : ℕ)
    → k ≢ 0
    → parse_as_unsigned_int a ≡ negsuc k
    → parse_components (a ∷ []) ≡ record { message = no_message; id = negsuc k; lun = negsuc 0 }
unfolding parse_components
parse_components-negative a k h e = ground (arith, e, h)

-- Digits whose number is, in 32 bits, from 2^31 to 2^32 - 2 are accepted as an ID, which is negative.
pub parse_id_and_lun-negative :
    (c : ℕ) (cs : Text)
    → AreDigits (c ∷ cs)
    → read_digits 0 (c ∷ cs) < 2 ^ 64
    → 2 ^ 31 ≤ read_digits 0 (c ∷ cs) % 2 ^ 32
    → read_digits 0 (c ∷ cs) % 2 ^ 32 < 2 ^ 32 - 1
    → ((parse_id_and_lun (c ∷ cs)).message ≡ no_message)
      × ((parse_id_and_lun (c ∷ cs)).id ≡ negsuc (2 ^ 32 - 1 - read_digits 0 (c ∷ cs) % 2 ^ 32))
unfolding parse_id_and_lun
parse_id_and_lun-negative c cs d small low high =
    let n = read_digits 0 (c ∷ cs) in
    let id = parse_as_unsigned_int-digits c cs d small ∙ to_int-negative n low in
    let all =
      ap parse_components (split-digits c cs d)
      ∙ parse_components-negative (c ∷ cs) (2 ^ 32 - 1 - n % 2 ^ 32) (omega arith) id in
    (ap (λ r. r.message) all, ap (λ r. r.id) all)
