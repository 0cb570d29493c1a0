-- ===== src/Fs/Layout.antt =====
-- The part of the invariant that the sizes of the tables make up: `state_init` establishes it, and
-- no operation changes what it speaks of.
use so_ii.Prelude.{◌*◌, ◌≤◌, ◌<◌, ◌≡◌, int_limit, ◌^◌}
use so_ii.Fs.State.{State}

pub record HasTables (s : State) : Type 0 where
  pub block_size_pos : 0 < s.fs_params.block_size
  pub inodes_small : s.fs_params.max_inode_count ≤ int_limit
  pub blocks_small : s.fs_params.max_block_count ≤ int_limit
  pub files_small : s.fs_params.max_open_files_count ≤ int_limit
  pub disk_small : s.fs_params.max_block_count * s.fs_params.block_size < 2 ^ 63
  pub inode_table_size : s.inode_table.size ≡ s.fs_params.max_inode_count
  pub freeinode_ts_size : s.freeinode_ts.size ≡ s.fs_params.max_inode_count
  pub fs_data_size : s.fs_data.size ≡ s.fs_params.max_block_count * s.fs_params.block_size
  pub free_blocks_size : s.free_blocks.size ≡ s.fs_params.max_block_count
  pub open_file_table_size : s.open_file_table.size ≡ s.fs_params.max_open_files_count
  pub free_open_file_entries_size : s.free_open_file_entries.size ≡ s.fs_params.max_open_files_count
