-- ===== src/Fs/Init.antt =====
-- Start and end of the file system: `state_init` and `state_destroy` of fs/state.c, `tfs_init`,
-- `tfs_destroy` and `tfs_default_params` of fs/operations.c.
pub mod Starts
pub mod Again
use so_ii.Prelude.{
  ℕ, ◌*◌, ◌/◌, ◌%◌, ◌^◌, Bool, true, not, ◌&&◌, Option, none, some, [], ℤ, pos, minus_one, eq_ℤ,
  ltb, leb, if◌then◌else◌, Array, null,
}
use so_ii.Fs.State.{
  Params, Inode, t_file, t_directory, AllocationState, free, OpenFileEntry, State, ok, fault, Cmd,
  pure, get, assign, ◌>>=◌, ◌>>◌,
}
use so_ii.Fs.Inodes.{inode_create}

-- What the six calls of `malloc` return: NULL, or memory with whatever it holds.
pub record Mallocs : Type 0 where
  pub inode_table : Option (ℕ → Inode)
  pub freeinode_ts : Option (ℕ → AllocationState)
  pub fs_data : Option (ℕ → ℕ)
  pub free_blocks : Option (ℕ → AllocationState)
  pub open_file_table : Option (ℕ → OpenFileEntry)
  pub free_open_file_entries : Option (ℕ → AllocationState)

-- The array for `count` elements of `size` bytes. The product is a `size_t`, so it may wrap.
pub allocate : {A : Type 0} → A → Option (ℕ → A) → (count size : ℕ) → Array A
allocate d none count size = null d
allocate d (some f) count size = record {
  allocated = true;
  size = count * size % 2 ^ 64 / size;
  at = f;
}

abbrev pub no_inode : Inode
no_inode = record { i_node_type = t_file; i_size = 0; i_data_block = minus_one }

abbrev pub no_open_file : OpenFileEntry
no_open_file = record { of_inumber = minus_one; of_offset = 0 }

-- The six assignments from `malloc`.
allocate_tables : Mallocs → State → State
unfolding allocate
allocate_tables m s = record s {
  inode_table = allocate no_inode m.inode_table p.max_inode_count 24;
  freeinode_ts = allocate free m.freeinode_ts p.max_inode_count 4;
  fs_data = allocate 0 m.fs_data (p.max_block_count * p.block_size) 1;
  free_blocks = allocate free m.free_blocks p.max_block_count 4;
  open_file_table = allocate no_open_file m.open_file_table p.max_open_files_count 16;
  free_open_file_entries = allocate free m.free_open_file_entries p.max_open_files_count 4;
}
  where
    p : Params
    p = s.fs_params

-- Whether each of the six allocations succeeded.
all_allocated : State → Bool
all_allocated s =
    s.inode_table.allocated && s.freeinode_ts.allocated && s.fs_data.allocated
    && s.free_blocks.allocated && s.open_file_table.allocated && s.free_open_file_entries.allocated

-- A loop that marks the first `count` entries of a map FREE.
all_free : ℕ → Array AllocationState → Array AllocationState
all_free count t = record t { at = λ i. if ltb i count then free else t.at i }

-- The three loops. Each writes inside its map, if that has as many entries as the loop has rounds.
mark_free : Cmd (Unit {0})
unfolding all_free
mark_free s =
    if leb p.max_inode_count s.freeinode_ts.size
      && leb p.max_block_count s.free_blocks.size
      && leb p.max_open_files_count s.free_open_file_entries.size
    then ok tt (record s {
      freeinode_ts = all_free p.max_inode_count s.freeinode_ts;
      free_blocks = all_free p.max_block_count s.free_blocks;
      free_open_file_entries = all_free p.max_open_files_count s.free_open_file_entries;
    })
    else fault
  where
    p : Params
    p = s.fs_params

-- `state_init`. The parameters are stored before the test on `inode_table`.
pub state_init : Mallocs → Params → Cmd ℤ
unfolding allocate_tables all_allocated mark_free
state_init m params = do
  assign (λ s. record s { fs_params = params })
  initialised ← get (λ s. s.inode_table.allocated)
  if initialised then pure minus_one else do
    assign (allocate_tables m)
    allocated ← get all_allocated
    if not allocated then pure minus_one else mark_free >> pure (pos 0)

pub state_destroy : Cmd ℤ
state_destroy = do
  assign λ s. record s {
    inode_table = null no_inode;
    freeinode_ts = null free;
    fs_data = null 0;
    free_blocks = null free;
    open_file_table = null no_open_file;
    free_open_file_entries = null free;
  }
  pure (pos 0)

-- The globals of a program that starts.
abbrev pub start : State
start = record {
  fs_params = record {
    max_inode_count = 0;
    max_block_count = 0;
    max_open_files_count = 0;
    block_size = 0;
  };
  inode_table = null no_inode;
  freeinode_ts = null free;
  fs_data = null 0;
  free_blocks = null free;
  open_file_table = null no_open_file;
  free_open_file_entries = null free;
  mutex_calls = [];
}

unfoldable pub tfs_default_params : Params
tfs_default_params = record {
  max_inode_count = 64;
  max_block_count = 1024;
  max_open_files_count = 16;
  block_size = 1024;
}

-- ROOT_DIR_INUM of fs/config.h.
abbrev pub root_dir_inum : ℕ
root_dir_inum = 0

-- `none` is a NULL `params_ptr`.
unfoldable pub tfs_init : Mallocs → Option Params → Cmd ℤ
tfs_init m params_ptr = do
  r ← state_init m (elim params_ptr [ none ↦ tfs_default_params | some p ↦ p ])
  if not (eq_ℤ r (pos 0)) then pure minus_one else do
    root ← inode_create t_directory
    if not (eq_ℤ root (pos root_dir_inum)) then pure minus_one else pure (pos 0)

pub tfs_destroy : Cmd ℤ
tfs_destroy = do r ← state_destroy; if not (eq_ℤ r (pos 0)) then pure minus_one else pure (pos 0)
