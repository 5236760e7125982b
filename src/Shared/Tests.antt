-- ===== src/Shared/Tests.antt =====
-- Runs of the code under cpp/shared.
use piscsi.Common.{ℕ, ◌≡◌, List, [], ◌∷◌, arith, some, refl, negsuc}
use piscsi.Shared.S2pUtil.{Text, no_message, read_digits, parse_id_and_lun}
use piscsi.Shared.S2pUtil.Laws.{parse_id_and_lun-negative}
use piscsi.Shared.SimhUtil.{SimhClass, read_meta_data, write_good_data}
use piscsi.Shared.SimhUtil.Laws.{read_meta_data-write_good_data}
use piscsi.Shared.CommandMetaData.{get_byte_count}
use piscsi.Shared.CommandMetaData.Laws.{get_byte_count-group}

-- "4294967294"
abbrev four_billion : Text
four_billion = b'4' ∷ b'2' ∷ b'9' ∷ b'4' ∷ b'9' ∷ b'6' ∷ b'7' ∷ b'2' ∷ b'9' ∷ b'4' ∷ []

abbrev six_bytes : List ℕ
six_bytes = 1 ∷ 2 ∷ 3 ∷ 4 ∷ 5 ∷ 6 ∷ []

get_byte_count-group_example : get_byte_count 0x28 ≡ 10
get_byte_count-group_example = get_byte_count-group 0x28 (omega arith) (ground arith) (ground arith)

read_meta_data-write_good_data_example :
    read_meta_data (write_good_data (1 ∷ 2 ∷ 3 ∷ []) 3 (record { bytes = []; outcomes = [] })).1 ≡ (
      some (record { cls = SimhClass.tape_mark_good_data_record; value = 3 }),
      record { bytes = 1 ∷ 2 ∷ 3 ∷ 3 ∷ 0 ∷ 0 ∷ 0 ∷ []; outcomes = [] },
    )
read_meta_data-write_good_data_example =
    read_meta_data-write_good_data (1 ∷ 2 ∷ 3 ∷ []) 3 (omega arith)

parse_id_and_lun-negative_example :
    ((parse_id_and_lun four_billion).message ≡ no_message)
    × ((parse_id_and_lun four_billion).id ≡ negsuc 1)
unfolding read_digits
parse_id_and_lun-negative_example =
    parse_id_and_lun-negative b'4'
      (b'2' ∷ b'9' ∷ b'4' ∷ b'9' ∷ b'6' ∷ b'7' ∷ b'2' ∷ b'9' ∷ b'4' ∷ [])
      (refl, (refl, (refl, (refl, (refl, (refl, (refl, (refl, (refl, (refl, tt))))))))))
      (omega arith) (omega arith) (omega arith)
