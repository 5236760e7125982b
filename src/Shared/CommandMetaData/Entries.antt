-- ===== src/Shared/CommandMetaData/Entries.antt =====
-- The explicit mapping in the constructor of cpp/shared/command_meta_data.cpp, in its order.
use piscsi.Common.{ℕ, Bool, true, false, List, [], ◌∷◌, ◌++◌, ℤ, pos, negsuc}

pub record CdbMetaData : Type 0 where
  pub allocation_length_offset : ℤ
  pub allocation_length_size : ℕ
  pub block_offset : ℕ
  pub block_size : ℕ
  pub has_data_out : Bool

pub record Entry : Type 0 where
  pub cmd : ℕ
  pub byte_count : ℕ
  pub meta_data : CdbMetaData

abbrev entry : ℕ → ℕ → ℤ → ℕ → ℕ → ℕ → Bool → Entry
entry c n o s bo bs d = record {
  cmd = c;
  byte_count = n;
  meta_data = record {
    allocation_length_offset = o;
    allocation_length_size = s;
    block_offset = bo;
    block_size = bs;
    has_data_out = d;
  };
}

low_commands : List Entry
low_commands =
    entry 0x00 6 (pos 0) 0 0 0 false
    ∷ entry 0x01 6 (pos 0) 0 0 0 false
    ∷ entry 0x05 6 (negsuc 5) 0 0 0 false
    ∷ entry 0x03 6 (pos 4) 1 0 0 false
    ∷ entry 0x04 6 (pos 0) 0 0 0 true
    ∷ entry 0x07 6 (pos 0) 0 0 0 false
    ∷ entry 0x08 6 (pos 4) 1 1 3 false
    ∷ entry 0x09 6 (pos 4) 1 0 0 false
    ∷ entry 0x0a 6 (pos 4) 1 1 3 true
    ∷ entry 0x0b 6 (pos 0) 0 0 0 false
    ∷ entry 0x0c 6 (pos 0) 0 0 0 false
    ∷ entry 0x0d 6 (pos 0) 0 0 0 false
    ∷ entry 0x0e 6 (pos 0) 0 0 0 false
    ∷ entry 0x0f 6 (pos 4) 1 1 3 false
    ∷ entry 0x10 6 (pos 0) 0 0 0 false
    ∷ entry 0x11 6 (pos 0) 0 0 0 false
    ∷ entry 0x12 6 (pos 4) 1 0 0 false
    ∷ entry 0x13 6 (pos 4) 1 1 3 true
    ∷ entry 0x15 6 (pos 4) 1 0 0 true
    ∷ entry 0x16 6 (pos 0) 0 0 0 false
    ∷ entry 0x17 6 (pos 0) 0 0 0 false
    ∷ entry 0x19 6 (pos 0) 0 0 0 false
    ∷ entry 0x1a 6 (pos 4) 1 0 0 false
    ∷ entry 0x1b 6 (pos 0) 0 0 0 false
    ∷ entry 0x1d 6 (pos 3) 2 0 0 false
    ∷ entry 0x1e 6 (pos 0) 0 0 0 false
    ∷ entry 0x23 10 (pos 7) 2 0 0 false
    ∷ entry 0x25 10 (negsuc 7) 0 0 0 false
    ∷ entry 0x28 10 (pos 7) 2 2 4 false
    ∷ entry 0x2a 10 (pos 7) 2 2 4 true
    ∷ entry 0x2b 10 (pos 0) 0 0 0 false
    ∷ entry 0x2c 10 (pos 7) 2 2 4 false
    ∷ entry 0x2e 10 (pos 7) 2 2 4 true
    ∷ entry 0x2f 10 (pos 7) 2 2 4 true
    ∷ entry 0x34 10 (negsuc 19) 0 0 0 false
    ∷ entry 0x35 10 (pos 0) 0 0 0 false
    ∷ entry 0x37 10 (pos 7) 2 0 0 false
    ∷ entry 0x38 10 (pos 8) 1 2 4 true
    ∷ entry 0x3b 10 (pos 6) 3 0 0 true
    ∷ entry 0x3c 10 (pos 6) 3 0 0 false
    ∷ entry 0x3e 10 (pos 7) 2 0 0 false
    ∷ entry 0x3f 10 (pos 7) 2 0 0 true
    ∷ entry 0x41 10 (pos 7) 2 0 0 true
    ∷ entry 0x42 10 (pos 7) 2 0 0 false
    ∷ entry 0x43 10 (pos 7) 2 0 0 false
    ∷ entry 0x44 10 (pos 7) 2 2 4 false
    ∷ entry 0x45 10 (pos 7) 2 2 4 false
    ∷ []

high_commands : List Entry
high_commands =
    entry 0x46 10 (pos 7) 2 0 0 false
    ∷ entry 0x47 10 (pos 0) 0 0 0 false
    ∷ entry 0x48 10 (pos 0) 0 0 0 false
    ∷ entry 0x4a 10 (pos 7) 2 0 0 false
    ∷ entry 0x4b 10 (pos 0) 0 0 0 false
    ∷ entry 0x4c 10 (pos 7) 2 0 0 true
    ∷ entry 0x4d 10 (pos 7) 2 0 0 false
    ∷ entry 0x51 10 (pos 7) 2 0 0 false
    ∷ entry 0x52 10 (pos 7) 2 0 0 false
    ∷ entry 0x56 10 (pos 7) 2 0 0 true
    ∷ entry 0x55 10 (pos 7) 2 0 0 true
    ∷ entry 0x57 10 (pos 7) 2 0 0 true
    ∷ entry 0x59 10 (pos 6) 3 0 0 false
    ∷ entry 0x5a 10 (pos 7) 2 0 0 false
    ∷ entry 0x5b 10 (pos 0) 0 0 0 false
    ∷ entry 0x5c 10 (pos 7) 2 0 0 false
    ∷ entry 0x5e 10 (pos 7) 2 0 0 false
    ∷ entry 0x5f 10 (pos 7) 2 0 0 true
    ∷ entry 0x80 16 (pos 0) 0 0 0 false
    ∷ entry 0x81 16 (pos 0) 0 0 0 false
    ∷ entry 0x88 16 (pos 10) 4 2 8 false
    ∷ entry 0x8a 16 (pos 10) 4 2 8 true
    ∷ entry 0x8e 16 (pos 10) 4 2 8 true
    ∷ entry 0x8f 16 (pos 10) 4 2 8 true
    ∷ entry 0x91 16 (pos 0) 0 0 0 false
    ∷ entry 0x92 16 (pos 0) 0 0 0 false
    ∷ entry 0x93 16 (pos 0) 0 0 0 false
    ∷ entry 0x9b 16 (pos 10) 4 0 0 false
    ∷ entry 0x9e 16 (pos 12) 2 0 0 false
    ∷ entry 0x9f 16 (pos 12) 2 0 0 true
    ∷ entry 0xa0 12 (pos 6) 4 0 0 false
    ∷ entry 0xa1 12 (pos 0) 0 0 0 false
    ∷ entry 0xa5 12 (pos 6) 4 2 4 false
    ∷ entry 0xa8 12 (pos 6) 4 2 4 false
    ∷ entry 0xaa 12 (pos 6) 4 2 4 true
    ∷ entry 0xac 12 (pos 6) 4 2 4 false
    ∷ entry 0xad 12 (pos 8) 2 0 0 false
    ∷ entry 0xaf 12 (pos 6) 4 2 4 true
    ∷ entry 0xaf 12 (pos 6) 4 2 4 true
    ∷ entry 0xb6 12 (pos 8) 2 0 0 false
    ∷ entry 0xb7 12 (pos 6) 4 0 0 false
    ∷ entry 0xb9 12 (pos 0) 0 0 0 false
    ∷ entry 0xbb 12 (pos 0) 0 0 0 false
    ∷ entry 0xbc 12 (pos 6) 4 2 4 false
    ∷ entry 0xbe 12 (pos 6) 3 2 4 false
    ∷ entry 0xc0 10 (pos 7) 2 0 0 true
    ∷ entry 0xc1 10 (pos 7) 2 0 0 false
    ∷ []

unfoldable pub explicit_commands : List Entry
unfolding low_commands high_commands
explicit_commands = low_commands ++ high_commands
