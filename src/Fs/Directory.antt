-- ===== src/Fs/Directory.antt =====
-- The entries of a directory, fs/state.c. A directory is a block of entries of 44 bytes, the name
-- first; an entry whose inumber is -1 is empty.
pub mod Entries
pub mod Find
pub mod Fill
pub mod Update
pub mod Add
pub mod Clear
pub mod Root
use so_ii.Prelude.{
  ℕ, zero, suc, ◌+◌, ◌*◌, ◌/◌, ◌-◌, ◌<◌, Bool, true, false, not, ◌&&◌, ◌||◌, Option, none, some,
  List, [], ◌∷◌, ◌++◌, replicate, length, ℤ, pos, negsuc, minus_one, eq_ℤ, int_at, int_bytes, ltb,
  ◌==◌, if◌then◌else◌,
}
use so_ii.Fs.State.{
  State, InodeType, t_file, t_directory, Inode, Cmd, pure, get, ◌>>=◌, ◌>>◌, load, load_bytes,
  store_bytes,
}
use so_ii.Fs.Strings.{strcmp_eq, strncmp_eq, strncpy_bytes}
use so_ii.Fs.Tables.{data_block_get}
use so_ii.Fs.Inodes.{dir_entry_size, max_file_name, max_dir_entries, entry_addr}

is_directory : InodeType → Bool
is_directory t_file = false
is_directory t_directory = true

-- The bytes of memory, once the `n` bytes at `a` are known to lie inside it.
pub bytes_at : ℕ → ℕ → Cmd (ℕ → ℕ)
bytes_at a n = do load_bytes a n; get (λ s. s.fs_data.at)

pub find_entry : List ℕ → (block rounds i : ℕ) → Cmd ℤ
unfolding bytes_at
find_entry name block zero i = pure minus_one
find_entry name block (suc rounds) i = do
  f ← bytes_at (entry_addr block i) dir_entry_size
  let inumber = int_at f (entry_addr block i + max_file_name)
  if not (eq_ℤ inumber minus_one) && strncmp_eq max_file_name f (entry_addr block i) name
      then pure inumber
      else find_entry name block rounds (i + 1)

pub find_in_dir : ℕ → List ℕ → Cmd ℤ
unfolding find_entry is_directory
find_in_dir inode sub_name = do
  i ← load (λ s. s.inode_table) inode
  if not (is_directory i.i_node_type) then pure minus_one else do
    dir_entry ← data_block_get i.i_data_block
    block_size ← get (λ s. s.fs_params.block_size)
    find_entry sub_name dir_entry (max_dir_entries block_size) 0

-- The entry at `a` becomes empty.
pub blank_entry : ℕ → Cmd ℤ
blank_entry a = do
  store_bytes (a + max_file_name) (int_bytes minus_one)
  store_bytes a (replicate max_file_name 0)
  pure (pos 0)

pub clear_entry : List ℕ → (block rounds i : ℕ) → Cmd ℤ
unfolding bytes_at blank_entry
clear_entry name block zero i = pure minus_one
clear_entry name block (suc rounds) i = do
  f ← bytes_at (entry_addr block i) dir_entry_size
  if strcmp_eq f (entry_addr block i) name
      then blank_entry (entry_addr block i)
      else clear_entry name block rounds (i + 1)

pub clear_dir_entry : ℕ → List ℕ → Cmd ℤ
unfolding clear_entry is_directory
clear_dir_entry inode sub_name = do
  i ← load (λ s. s.inode_table) inode
  if not (is_directory i.i_node_type) then pure minus_one else do
    dir_entry ← data_block_get i.i_data_block
    block_size ← get (λ s. s.fs_params.block_size)
    clear_entry sub_name dir_entry (max_dir_entries block_size) 0

-- The entry at `a` gets its inumber and its name, NUL behind it.
pub fill_entry : List ℕ → ℤ → ℕ → Cmd ℤ
fill_entry name inumber a = do
  store_bytes (a + max_file_name) (int_bytes inumber)
  store_bytes a (strncpy_bytes (max_file_name - 1) name)
  store_bytes (a + (max_file_name - 1)) (0 ∷ [])
  pure (pos 0)

pub add_entry : List ℕ → ℤ → (block rounds i : ℕ) → Cmd ℤ
unfolding bytes_at fill_entry
add_entry name inumber block zero i = pure minus_one
add_entry name inumber block (suc rounds) i = do
  f ← bytes_at (entry_addr block i) dir_entry_size
  if eq_ℤ (int_at f (entry_addr block i + max_file_name)) minus_one
      then fill_entry name inumber (entry_addr block i)
      else add_entry name inumber block rounds (i + 1)

pub add_dir_entry : ℕ → List ℕ → ℤ → Cmd ℤ
unfolding add_entry is_directory
add_dir_entry inode sub_name sub_inumber =
    if length sub_name == 0 || ltb (max_file_name - 1) (length sub_name) then pure minus_one else do
      i ← load (λ s. s.inode_table) inode
      if not (is_directory i.i_node_type) then pure minus_one else do
        dir_entry ← data_block_get i.i_data_block
        block_size ← get (λ s. s.fs_params.block_size)
        add_entry sub_name sub_inumber dir_entry (max_dir_entries block_size) 0
