-- ===== src/Fs/Inodes.antt =====
-- Creation and deletion of inodes, fs/state.c.
pub mod Overrun
pub mod Create
pub mod Delete
pub mod Format
pub mod Directories
use so_ii.Prelude.{
  ℕ, zero, suc, ◌+◌, ◌*◌, ◌/◌, ◌<◌, Bool, true, false, ℤ, pos, negsuc, minus_one, eq_ℤ, int_bytes,
  ltb, if◌then◌else◌,
}
use so_ii.Fs.State.{
  InodeType, t_file, t_directory, Inode, AllocationState, free, taken, Cmd, pure, get, ◌>>=◌, ◌>>◌,
  always_assert, at_int, load, store_inode, store_freeinode, store_bytes,
}
use so_ii.Fs.Tables.{
  valid_inumber, entry_taken, inode_alloc, data_block_alloc, data_block_free, data_block_get,
}

-- `sizeof(dir_entry_t)`: 40 bytes of name and 4 of the inumber.
abbrev pub dir_entry_size : ℕ
dir_entry_size = 44

abbrev pub max_file_name : ℕ
max_file_name = 40

-- MAX_DIR_ENTRIES.
abbrev pub max_dir_entries : ℕ → ℕ
max_dir_entries block_size = block_size / dir_entry_size

-- The address of entry `i` of the directory at `block`, and of its inumber.
abbrev pub entry_addr : ℕ → ℕ → ℕ
entry_addr block i = block + i * dir_entry_size

pub inode_delete : ℤ → Cmd (Unit {0})
inode_delete inumber = do
  valid ← get (λ s. valid_inumber s inumber)
  always_assert valid
  at_int inumber λ n. do
    a ← load (λ s. s.freeinode_ts) n
    always_assert (entry_taken a)
    inode ← load (λ s. s.inode_table) n
    if ltb 0 inode.i_size
        then data_block_free inode.i_data_block >> store_freeinode n free
        else store_freeinode n free

-- The loop that labels every entry of a new directory as empty.
pub clear_entries : (block rounds i : ℕ) → Cmd (Unit {0})
clear_entries block zero i = pure tt
clear_entries block (suc rounds) i = do
  store_bytes (entry_addr block i + max_file_name) (int_bytes minus_one)
  clear_entries block rounds (i + 1)

-- `i_size = 0` and `i_data_block = -1`.
pub reset_inode : ℕ → Cmd (Unit {0})
reset_inode n = do
  inode ← load (λ s. s.inode_table) n
  store_inode n (record inode { i_size = 0; i_data_block = minus_one })

-- The end of the case T_DIRECTORY, with block `b` for its entries.
format_directory : ℕ → ℤ → Cmd ℤ
unfolding clear_entries
format_directory n b = do
  block_size ← get (λ s. s.fs_params.block_size)
  inode ← load (λ s. s.inode_table) n
  store_inode n (record inode { i_size = block_size; i_data_block = b })
  dir_entry ← data_block_get b
  clear_entries dir_entry (max_dir_entries block_size) 0
  pure (pos n)

-- The case T_DIRECTORY, once the inode has its number and its type.
init_directory : ℕ → Cmd ℤ
unfolding reset_inode format_directory
init_directory n = do
  b ← data_block_alloc
  if eq_ℤ b minus_one
      then reset_inode n >> inode_delete (pos n) >> pure minus_one
      else format_directory n b

init_file : ℕ → Cmd ℤ
unfolding reset_inode
init_file n = reset_inode n >> pure (pos n)

init_inode : InodeType → ℕ → Cmd ℤ
init_inode t_file = init_file
init_inode t_directory = init_directory

-- What `inode_create` does with the inode that it has allocated.
initialise : InodeType → ℕ → Cmd ℤ
unfolding init_inode init_file init_directory
initialise i_type n = do
  inode ← load (λ s. s.inode_table) n
  store_inode n (record inode { i_node_type = i_type })
  init_inode i_type n

pub inode_create : InodeType → Cmd ℤ
unfolding initialise
inode_create i_type = do
  inumber ← inode_alloc
  if eq_ℤ inumber minus_one then pure minus_one else at_int inumber (initialise i_type)

-- A pointer into `inode_table` is the index of the inode.
pub inode_get : ℤ → Cmd ℕ
inode_get inumber = do
  valid ← get (λ s. valid_inumber s inumber)
  always_assert valid
  at_int inumber pure
