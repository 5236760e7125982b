-- ===== src/Shared/CommandMetaData.antt =====
-- cpp/shared/command_meta_data.cpp and .h: the byte counts and transfer parameters by operation
-- code. The arrays are functions of the code; the names, which only the log shows, are left out.
mod Entries
pub mod Laws
use Entries.{Entry, explicit_commands}
use piscsi.Common.{ℕ, zero, suc, ◌+◌, Bool, List, [], ◌∷◌, pos, false, ◌==◌, if◌then◌else◌}
pub use Entries.{CdbMetaData}

-- The arrays of the singleton. Before the constructor has run they are zero, since it is static.
pub record CommandMetaData : Type 0 where
  pub command_byte_counts : ℕ → ℕ
  pub cdb_meta_data : ℕ → CdbMetaData

abbrev pub no_meta_data : CdbMetaData
no_meta_data = record {
  allocation_length_offset = pos 0;
  allocation_length_size = 0;
  block_offset = 0;
  block_size = 0;
  has_data_out = false;
}

-- `CommandMetaData::AddCommand`
unfoldable pub add_command : CommandMetaData → ℕ → ℕ → CdbMetaData → CommandMetaData
add_command t cmd byte_count meta = record {
  command_byte_counts = λ i. if i == cmd then byte_count else t.command_byte_counts i;
  cdb_meta_data = λ i. if i == cmd then meta else t.cdb_meta_data i;
}

-- `for (int i = first; i < first + n; ++i) AddCommand(i, byte_count, ...)`
unfoldable pub add_range : ℕ → ℕ → ℕ → CommandMetaData → CommandMetaData
add_range zero first byte_count t = t
add_range (suc n) first byte_count t =
    add_range n (first + 1) byte_count (add_command t first byte_count no_meta_data)

unfoldable pub add_entries : List Entry → CommandMetaData → CommandMetaData
unfolding add_command
add_entries [] t = t
add_entries (e ∷ es) t = add_entries es (add_command t e.cmd e.byte_count e.meta_data)

-- The constructor: four ranges of operation codes, then the explicit mapping.
unfoldable pub meta_data : CommandMetaData
unfolding add_command add_range add_entries explicit_commands
meta_data = add_entries explicit_commands (
    add_range 0x20 0xa0 12 (
      add_range 0x20 0x80 16 (
        add_range 0x5f 0x20 10 (
          add_range 0x1f 0x00 6
            (record { command_byte_counts = λ _. 0; cdb_meta_data = λ _. no_meta_data })))))

unfoldable pub get_byte_count : ℕ → ℕ
unfolding meta_data
get_byte_count cmd = meta_data.command_byte_counts cmd

unfoldable pub get_cdb_meta_data : ℕ → CdbMetaData
unfolding meta_data
get_cdb_meta_data cmd = meta_data.cdb_meta_data cmd
