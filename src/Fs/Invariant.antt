-- ===== src/Fs/Invariant.antt =====
-- The invariant of the file system between two operations: a root directory in block `r`, inodes
-- that are files with blocks of their own, and open files whose inodes were files.
pub mod Handles
pub mod Blocks
pub mod Inodes
pub mod Bytes
pub mod Written
use so_ii.Prelude.{ℕ, ◌*◌, ◌/◌, ◌≤◌, ◌<◌, ◌≡◌, ◌≢◌, ℤ, pos, List}
use so_ii.Fs.State.{Params, State, Inode, t_directory, AllocationState, taken}
use so_ii.Fs.Layout.{HasTables}
use so_ii.Fs.Tables.Files.{IsOpen}
use so_ii.Fs.Inodes.{max_dir_entries}
use so_ii.Fs.Directory.Entries.{IsDirectory, Binds}

abbrev pub inode_at : State → ℕ → Inode
inode_at s n = s.inode_table.at n

-- Inode `i` with number `n` is a regular file, or was one when it was opened: it has a block if it
-- is not empty, and never the block of the root directory.
pub record IsFile (r : ℕ) (p : Params) (n : ℕ) (i : Inode) : Type 0 where
  pub not_root : 0 < n
  pub small : n < p.max_inode_count
  pub fits : i.i_size ≤ p.block_size
  pub stored : 0 < i.i_size → (b : ℕ) × (i.i_data_block ≡ pos b) × (b < p.max_block_count) × (b ≢ r)

-- Inode `i` with number `n` and entry `a` of the bit map is a file in use that is not empty.
pub record IsStored (p : Params) (a : AllocationState) (n : ℕ) (i : Inode) : Type 0 where
  pub not_root : 0 < n
  pub small : n < p.max_inode_count
  pub is_taken : a ≡ taken
  pub nonempty : 0 < i.i_size

abbrev pub Stored : State → ℕ → Type 0
Stored s n = IsStored s.fs_params (s.freeinode_ts.at n) n (inode_at s n)

abbrev pub File : ℕ → State → ℕ → Type 0
File r s n = IsFile r s.fs_params n (inode_at s n)

-- An open file: its handle leads to an inode.
abbrev pub OpenFile : (r : ℕ) (s : State) (h : ℕ) → Type 0
OpenFile r s h = (n : ℕ) × ((s.open_file_table.at h).of_inumber ≡ pos n) × File r s n

-- The bytes of the root directory, and what it binds.
abbrev pub root_addr : ℕ → State → ℕ
root_addr r s = r * s.fs_params.block_size

abbrev pub root_entries : State → ℕ
root_entries s = max_dir_entries s.fs_params.block_size

abbrev pub Linked : (r : ℕ) (s : State) → List ℕ → ℕ → Type 0
Linked r s = Binds s.fs_data.at (root_addr r s) (root_entries s)

pub record HasFiles (r : ℕ) (s : State) : Type 0 where
  pub tables : HasTables s
  pub some_inode : 0 < s.fs_params.max_inode_count
  pub root_taken : s.freeinode_ts.at 0 ≡ taken
  pub root_directory : (inode_at s 0).i_node_type ≡ t_directory
  pub root_block : (inode_at s 0).i_data_block ≡ pos r
  pub root_small : r < s.fs_params.max_block_count
  pub root_block_taken : s.free_blocks.at r ≡ taken
  pub directory : IsDirectory s.fs_data.at (root_addr r s) (root_entries s)
  pub files :
      (n : ℕ) → 0 < n → n < s.fs_params.max_inode_count → s.freeinode_ts.at n ≡ taken → File r s n
  pub owned :
      (n b : ℕ) → Stored s n → (inode_at s n).i_data_block ≡ pos b → s.free_blocks.at b ≡ taken
  pub exclusive :
      (n k : ℕ)
      → Stored s n
      → Stored s k
      → (inode_at s n).i_data_block ≡ (inode_at s k).i_data_block
      → n ≡ k
  pub open_files : (h : ℕ) → IsOpen s h → OpenFile r s h

-- Every name of the root directory leads to an inode in use.
abbrev pub HasLinks : (r : ℕ) (s : State) → Type 0
HasLinks r s =
    (name : List ℕ) (n : ℕ)
    → Linked r s name n
    → (0 < n) × (n < s.fs_params.max_inode_count) × (s.freeinode_ts.at n ≡ taken)

pub record IsValid (r : ℕ) (s : State) : Type 0 where
  pub core : HasFiles r s
  pub open core use *
  pub links : HasLinks r s
