-- ===== src/Base/PrimaryDevice/SenseLaws.antt =====
-- Where the sense data of cpp/base/primary_device.cpp have the sense key and the additional code.
use piscsi.Common.{
  ℕ, ◌+◌, ◌%◌, ◌^◌, ◌<◌, ◌≡◌, ◌∙◌, refl, Bool, List, get_or, set, length, replicate, arith,
  length-set, get_or-set_ne, get_or-set_self, if◌then◌else◌, if_intro, ltb, ap,
}
use piscsi.Scsi.{SenseKey, sense_code, asc_code, ascq_code}
use piscsi.Shared.MemoryUtil.{set_int32}
use piscsi.Shared.MemoryUtil.Laws.{length-set_int32}
use piscsi.Base.PrimaryDevice.{PrimaryDevice}
use piscsi.Base.PrimaryDevice.Sense.{sense_data, is_extended}

sense_code-bound : (k : SenseKey) → sense_code k < 16
sense_code-bound k = ground arith

-- The flags stand above the sense key.
flags-key :
    (k : ℕ) (ili filemark eom : Bool)
    → k < 16
    → (k + (if ili then 0x20 else 0) + (if filemark then 0x80 else 0) + (if eom then 0x40 else 0))
        % 2 ^ 4
      ≡ k
flags-key k ili filemark eom h = ground (arith, h)

abbrev HasCodes : (m a : ℕ) → List ℕ → Type 0
HasCodes m a xs = (get_or xs 2 0 ≡ m) × (get_or xs 12 0 ≡ a)

-- Byte 13 is none of them.
set-HasCodes : (m a v : ℕ) (xs : List ℕ) → HasCodes m a xs → HasCodes m a (set xs 13 v)
set-HasCodes m a v xs (p, q) =
    (get_or-set_ne xs 13 2 v 0 (ground arith) ∙ p, get_or-set_ne xs 13 12 v 0 (ground arith) ∙ q)

codes-HasCodes :
    (m a : ℕ) (xs : List ℕ) → length xs ≡ 18 → HasCodes m a (set (set (set xs 2 m) 7 10) 12 a)
codes-HasCodes m a xs h =
    let b2 = set xs 2 m in
    let b7 = set b2 7 10 in
    let l2 : length b2 ≡ 18 = length-set xs 2 m ∙ h in
    let l7 : length b7 ≡ 18 = length-set b2 7 10 ∙ l2 in
    (
      get_or-set_ne b7 12 2 a 0 (ground arith)
          ∙ get_or-set_ne b2 7 2 10 0 (ground arith)
          ∙ get_or-set_self xs 2 m 0 (omega (arith, h)),
      get_or-set_self b7 12 a 0 (omega (arith, l7)),
    )

-- The sense key is in the lower bits of byte 2, the additional code in byte 12.
pub sense_data-codes :
    (n : ℕ) (d : PrimaryDevice)
    → (get_or (sense_data n d) 2 0 % 2 ^ 4 ≡ sense_code d.sense_key)
      × (get_or (sense_data n d) 12 0 ≡ asc_code d.asc)
unfolding sense_data
sense_data-codes n d =
    let extended = is_extended n d in
    let b0 =
      set (replicate 18 0) 0 ((if extended then 0x70 else 0) + (if d.valid then 0x80 else 0)) in
    let at = if extended then 3 else 1 in
    let b1 = if d.valid then set_int32 b0 at d.information else b0 in
    let size : length b1 ≡ 18 =
      if_intro (λ (xs : List ℕ). length xs ≡ 18) d.valid (length-set_int32 b0 at d.information)
        refl in
    let has_eom = ltb 0 (ascq_code d.eom) in
    let key = sense_code d.sense_key in
    let m =
      key
      + (if d.ili then 0x20 else 0)
      + (if d.filemark then 0x80 else 0)
      + (if has_eom then 0x40 else 0) in
    let a = asc_code d.asc in
    let base = codes-HasCodes m a b1 size in
    let b12 = set (set (set b1 2 m) 7 10) 12 a in
    let b13 = if d.filemark then set b12 13 0x01 else b12 in
    let marked : HasCodes m a b13 =
      if_intro (HasCodes m a) d.filemark (set-HasCodes m a 0x01 b12 base) base in
    let (p, q) =
      if_intro (HasCodes m a) has_eom (set-HasCodes m a (ascq_code d.eom) b13 marked) marked in
    (
      ap (λ x. x % 2 ^ 4) p ∙ flags-key key d.ili d.filemark has_eom (sense_code-bound d.sense_key),
      q,
    )
