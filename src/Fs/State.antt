-- ===== src/Fs/State.antt =====
-- The types of fs/state.h and fs/operations.h, the globals of fs/state.c as one record, and the
-- commands over it. A run ends with a value and the new globals, with PANIC (which exits), or with
-- a fault: an access outside an array, through NULL, or a division by zero.
use so_ii.Prelude.{
  ℕ, ◌+◌, Bool, List, ℤ, pos, negsuc, ltb, leb, if◌then◌else◌, Array, set, slice, copy_in, length,
}

pub record Params : Type 0 where
  pub max_inode_count : ℕ
  pub max_block_count : ℕ
  pub max_open_files_count : ℕ
  pub block_size : ℕ

pub data InodeType : Type 0 where
  t_file t_directory : InodeType

-- `i_data_block` is -1 where there is no block.
pub record Inode : Type 0 where
  pub i_node_type : InodeType
  pub i_size : ℕ
  pub i_data_block : ℤ

pub data AllocationState : Type 0 where
  free taken : AllocationState

pub record OpenFileEntry : Type 0 where
  pub of_inumber : ℤ
  pub of_offset : ℕ

-- The calls that are made on `g_library_mutex`.
pub data MutexCall : Type 0 where
  lock unlock : MutexCall

-- `fs_data` is an array of bytes. `mutex_calls` are the calls made so far, the first one first.
pub record State : Type 0 where
  pub fs_params : Params
  pub inode_table : Array Inode
  pub freeinode_ts : Array AllocationState
  pub fs_data : Array ℕ
  pub free_blocks : Array AllocationState
  pub open_file_table : Array OpenFileEntry
  pub free_open_file_entries : Array AllocationState
  pub mutex_calls : List MutexCall

pub data Run (A : Type 0) : Type 0 where
  ok : A → State → Run A
  panic : Run A
  fault : Run A

abbrev pub Cmd : Type 0 → Type 0
Cmd A = State → Run A

abbrev pub pure : {A : Type 0} → A → Cmd A
pure = ok

module _ {A B : Type 0} where
  abbrev pub and_then : Run A → (A → Cmd B) → Run B
  and_then (ok a s) k = k a s
  and_then panic k = panic
  and_then fault k = fault

  infixl 5 ◌>>=◌ ◌>>◌
  abbrev pub ◌>>=◌ : Cmd A → (A → Cmd B) → Cmd B
  m >>= k = λ s. and_then (m s) k

  abbrev pub ◌>>◌ : Cmd A → Cmd B → Cmd B
  m >> n = m >>= λ _. n

-- ALWAYS_ASSERT of utils/betterassert.h.
abbrev pub always_assert : Bool → Cmd (Unit {0})
always_assert b s = if b then ok tt s else panic

abbrev pub get : {A : Type 0} → (State → A) → Cmd A
get f s = ok (f s) s

abbrev pub assign : (State → State) → Cmd (Unit {0})
assign f s = ok tt (f s)

-- `table[i]`, as a value and as the target of an assignment.
unfoldable pub load : {A : Type 0} → (State → Array A) → ℕ → Cmd A
load table i s = if ltb i (table s).size then ok ((table s).at i) s else fault

unfoldable pub store :
    {A : Type 0} → (State → Array A) → (State → Array A → State) → ℕ → A → Cmd (Unit {0})
store table put i v s = if ltb i (table s).size then ok tt (put s (set (table s) i v)) else fault

-- An `int` as an index: a negative one is out of bounds.
abbrev pub at_int : {A : Type 0} → ℤ → (ℕ → Cmd A) → Cmd A
at_int (pos n) k = k n
at_int (negsuc n) k = λ _. fault

abbrev pub store_inode : ℕ → Inode → Cmd (Unit {0})
store_inode = store (λ s. s.inode_table) (λ s t. record s { inode_table = t })

abbrev pub store_freeinode : ℕ → AllocationState → Cmd (Unit {0})
store_freeinode = store (λ s. s.freeinode_ts) (λ s t. record s { freeinode_ts = t })

abbrev pub store_free_block : ℕ → AllocationState → Cmd (Unit {0})
store_free_block = store (λ s. s.free_blocks) (λ s t. record s { free_blocks = t })

abbrev pub store_open_file : ℕ → OpenFileEntry → Cmd (Unit {0})
store_open_file = store (λ s. s.open_file_table) (λ s t. record s { open_file_table = t })

abbrev pub store_free_open_file : ℕ → AllocationState → Cmd (Unit {0})
store_free_open_file =
    store (λ s. s.free_open_file_entries) (λ s t. record s { free_open_file_entries = t })

-- `memcpy` out of and into `fs_data`.
unfoldable pub load_bytes : ℕ → ℕ → Cmd (List ℕ)
load_bytes a n s = if leb (a + n) s.fs_data.size then ok (slice s.fs_data.at a n) s else fault

unfoldable pub store_bytes : ℕ → List ℕ → Cmd (Unit {0})
store_bytes a bs s =
    if leb (a + length bs) s.fs_data.size
    then ok tt (record s { fs_data = record s.fs_data { at = copy_in s.fs_data.at a bs } })
    else fault
