-- ===== src/Fs/Tables.antt =====
-- The tables of fs/state.c: the bit maps of inodes, blocks and open files, and their bounds.
pub mod Search
pub mod Alloc
pub mod Files
pub mod Blocks
pub mod Overrun
use so_ii.Prelude.{
  ℕ, zero, suc, ◌+◌, ◌*◌, ◌%◌, ◌^◌, Array, not, Bool, true, false, Option, none, some, ℤ, pos,
  negsuc, minus_one, int_of_size, ltb, ◌==◌, if◌then◌else◌,
}
use so_ii.Fs.State.{
  Params, State, AllocationState, free, taken, OpenFileEntry, Cmd, Run, ok, panic, fault, pure, get,
  ◌>>=◌, ◌>>◌, always_assert, at_int, load, store_freeinode, store_free_block, store_open_file,
  store_free_open_file,
}

-- `n >= 0 && n < limit`, the body of the three validity tests.
abbrev pub in_range : ℕ → ℤ → Bool
in_range limit (pos n) = ltb n limit
in_range limit (negsuc n) = false

unfoldable pub valid_inumber : State → ℤ → Bool
valid_inumber s = in_range s.fs_params.max_inode_count

pub valid_block_number : State → ℤ → Bool
valid_block_number s = in_range s.fs_params.max_block_count

pub valid_file_handle : State → ℤ → Bool
valid_file_handle s = in_range s.fs_params.max_open_files_count

unfoldable pub state_block_size : State → ℕ
state_block_size s = s.fs_params.block_size

-- The test that decides on a delay divides by the block size. The delay itself changes nothing.
pub storage_delay : ℕ → Cmd (Unit {0})
storage_delay i s = if s.fs_params.block_size == 0 then fault else ok tt s

no_delay : ℕ → Cmd (Unit {0})
no_delay i = pure tt

-- The search of the three allocators: the first FREE entry of `rounds` entries from `i` on.
pub first_free :
    (ℕ → Cmd (Unit {0})) → (State → Array AllocationState) → (rounds i : ℕ) → Cmd (Option ℕ)
first_free delay table zero i = pure none
first_free delay table (suc rounds) i = do
  delay i
  a ← load table i
  elim a [ free ↦ pure (some i) | taken ↦ first_free delay table rounds (i + 1) ]

take_inode : Option ℕ → Cmd ℤ
take_inode none = pure minus_one
take_inode (some i) = do store_freeinode i taken; pure (int_of_size i)

pub inode_alloc : Cmd ℤ
unfolding storage_delay first_free take_inode
inode_alloc = do
  count ← get (λ s. s.fs_params.max_inode_count)
  found ← first_free storage_delay (λ s. s.freeinode_ts) count 0
  take_inode found

take_block : Option ℕ → Cmd ℤ
take_block none = pure minus_one
take_block (some i) = do store_free_block i taken; pure (int_of_size i)

pub data_block_alloc : Cmd ℤ
unfolding storage_delay first_free take_block
data_block_alloc = do
  count ← get (λ s. s.fs_params.max_block_count)
  found ← first_free storage_delay (λ s. s.free_blocks) count 0
  take_block found

pub data_block_free : ℤ → Cmd (Unit {0})
unfolding valid_block_number
data_block_free block_number = do
  valid ← get (λ s. valid_block_number s block_number)
  always_assert valid
  at_int block_number λ b. store_free_block b free

-- The address of a block in `fs_data`.
pub data_block_get : ℤ → Cmd ℕ
unfolding valid_block_number
data_block_get block_number = do
  valid ← get (λ s. valid_block_number s block_number)
  always_assert valid
  block_size ← get (λ s. s.fs_params.block_size)
  at_int block_number λ b. pure (b * block_size % 2 ^ 64)

take_open_file : ℤ → ℕ → Option ℕ → Cmd ℤ
take_open_file inumber offset none = pure minus_one
take_open_file inumber offset (some i) = do
  store_free_open_file i taken
  store_open_file i (record { of_inumber = inumber; of_offset = offset })
  pure (pos i)

pub add_to_open_file_table : ℤ → ℕ → Cmd ℤ
unfolding first_free no_delay take_open_file
add_to_open_file_table inumber offset = do
  count ← get (λ s. s.fs_params.max_open_files_count)
  found ← first_free no_delay (λ s. s.free_open_file_entries) count 0
  take_open_file inumber offset found

unfoldable pub entry_taken : AllocationState → Bool
entry_taken free = false
entry_taken taken = true

pub remove_from_open_file_table : ℤ → Cmd (Unit {0})
unfolding valid_file_handle entry_taken
remove_from_open_file_table fhandle = do
  valid ← get (λ s. valid_file_handle s fhandle)
  always_assert valid
  at_int fhandle λ h. do
    a ← load (λ s. s.free_open_file_entries) h
    always_assert (entry_taken a)
    store_free_open_file h free

-- The index of the entry in `open_file_table`, or `none` for NULL.
pub get_open_file_entry : ℤ → Cmd (Option ℕ)
unfolding valid_file_handle entry_taken
get_open_file_entry fhandle = do
  valid ← get (λ s. valid_file_handle s fhandle)
  if not valid
      then pure none
      else at_int fhandle λ h. do
        a ← load (λ s. s.free_open_file_entries) h
        if not (entry_taken a) then pure none else pure (some h)
