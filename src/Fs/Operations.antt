-- ===== src/Fs/Operations.antt =====
-- The operations of fs/operations.c on paths and handles. Each holds `g_library_mutex`; what the
-- pthread calls return is a parameter, the value of a call after the calls made before it.
pub mod Existing
pub mod Create
pub mod Open
pub mod Unlink
pub mod Close
pub mod Space
pub mod Write
pub mod Read
pub mod Lock
pub mod Calls
pub mod Shut
pub mod RoundTrip
pub mod Remade
pub mod Reused
use so_ii.Prelude.{
  ℕ, zero, suc, ◌+◌, ◌-◌, ◌/◌, ◌%◌, ◌^◌, Bool, true, false, not, ◌&&◌, Option, none, some, List, [],
  ◌∷◌, ◌++◌, take, length, ℤ, pos, negsuc, minus_one, eq_ℤ, add_size, sub_size, ltb, leb, ◌==◌,
  if◌then◌else◌,
}
use so_ii.Fs.State.{
  State, Inode, t_file, OpenFileEntry, MutexCall, lock, unlock, Run, ok, fault, Cmd, pure, get,
  assign, ◌>>=◌, ◌>>◌, at_int, load, store_inode, store_open_file, load_bytes, store_bytes,
}
use so_ii.Fs.Tables.{
  state_block_size, data_block_alloc, data_block_free, data_block_get, add_to_open_file_table,
  remove_from_open_file_table, get_open_file_entry,
}
use so_ii.Fs.Inodes.{inode_create, inode_delete, inode_get}
use so_ii.Fs.Directory.{find_in_dir, clear_dir_entry, add_dir_entry}
use so_ii.Fs.Init.{root_dir_inum}

-- A `char const *`: `none` is NULL.
abbrev pub Path? : Type 0
Path? = Option (List ℕ)

unfoldable pub valid_pathname : Path? → Bool
valid_pathname none = false
valid_pathname (some []) = false
valid_pathname (some (c ∷ name)) = ltb 1 (length (c ∷ name)) && c == b'/'

-- `name + 1`.
unfoldable pub skip_slash : Path? → List ℕ
skip_slash none = []
skip_slash (some []) = []
skip_slash (some (c ∷ name)) = name

-- The bits TFS_O_CREAT, TFS_O_TRUNC and TFS_O_APPEND of a mode.
abbrev pub creates : ℕ → Bool
creates mode = mode % 2 == 1

abbrev pub truncates : ℕ → Bool
truncates mode = mode / 2 % 2 == 1

abbrev pub appends : ℕ → Bool
appends mode = mode / 4 % 2 == 1

abbrev pub is_nonneg : ℤ → Bool
is_nonneg (pos n) = true
is_nonneg (negsuc n) = false

-- `(ssize_t)n`.
pub ssize_of : ℕ → ℤ
ssize_of n = if ltb n (2 ^ 63) then pos n else negsuc (2 ^ 64 - 1 - n)

pub tfs_lookup : Path? → ℕ → Cmd ℤ
tfs_lookup name root_inode =
    if not (valid_pathname name) then pure minus_one else find_in_dir root_inode (skip_slash name)

-- The truncation of an inode, and what it leaves alone otherwise.
pub truncate_inode : ℕ → Cmd (Unit {0})
truncate_inode n = do
  inode ← load (λ s. s.inode_table) n
  if ltb 0 inode.i_size
      then data_block_free inode.i_data_block >> store_inode n (record inode { i_size = 0 })
      else pure tt

pub open_existing : ℤ → ℕ → Cmd ℤ
open_existing inum mode = do
  n ← inode_get inum
  if truncates mode then truncate_inode n else pure tt
  inode ← load (λ s. s.inode_table) n
  add_to_open_file_table inum (if appends mode then inode.i_size else 0)

-- A new file after its entry in the directory: without one the inode is given back.
pub register : ℕ → ℤ → Cmd ℤ
register n r =
    if eq_ℤ r minus_one
    then inode_delete (pos n) >> pure minus_one
    else add_to_open_file_table (pos n) 0

pub open_new : ℕ → Path? → Cmd ℤ
open_new root name = do
  inum ← inode_create t_file
  if eq_ℤ inum minus_one
      then pure minus_one
      else at_int inum λ n. do r ← add_dir_entry root (skip_slash name) (pos n); register n r

pub open_body : Path? → ℕ → Cmd ℤ
open_body name mode = if not (valid_pathname name) then pure minus_one else do
  root ← inode_get (pos root_dir_inum)
  inum ← tfs_lookup name root
  if is_nonneg inum
      then open_existing inum mode
      else if creates mode
      then open_new root name
      else pure minus_one

pub close_body : ℤ → Cmd ℤ
close_body fhandle = do
  file ← get_open_file_entry fhandle
  elim file [ none ↦ pure minus_one | some h ↦ remove_from_open_file_table fhandle >> pure (pos 0) ]

-- The number of bytes that a write of `to_write` at `offset` makes.
pub write_count : (block_size offset to_write : ℕ) → ℕ
write_count block_size offset to_write =
    if ltb block_size (add_size to_write offset) then sub_size block_size offset else to_write

-- The block of an empty file is allocated at the first write; `false` is a full disk.
pub ensure_block : ℕ → Cmd Bool
ensure_block n = do
  inode ← load (λ s. s.inode_table) n
  if not (inode.i_size == 0) then pure true else do
    bnum ← data_block_alloc
    if eq_ℤ bnum minus_one
        then pure false
        else store_inode n (record inode { i_data_block = bnum }) >> pure true

-- `memcpy` of the first `count` bytes of `buffer` into the block, then the new offset and size.
pub write_block : (n h : ℕ) (buffer : List ℕ) (count : ℕ) → Cmd ℤ
write_block n h buffer count = if ltb (length buffer) count then (λ _. fault) else do
  inode ← load (λ s. s.inode_table) n
  block ← data_block_get inode.i_data_block
  file ← load (λ s. s.open_file_table) h
  store_bytes (block + file.of_offset) (take count buffer)
  let offset = add_size file.of_offset count
  store_open_file h (record file { of_offset = offset })
  store_inode n (record inode { i_size = if ltb inode.i_size offset then offset else inode.i_size })
  pure (ssize_of count)

pub write_file : (h : ℕ) (buffer : List ℕ) (to_write : ℕ) → Cmd ℤ
write_file h buffer to_write = do
  file ← load (λ s. s.open_file_table) h
  n ← inode_get file.of_inumber
  block_size ← get state_block_size
  let count = write_count block_size file.of_offset to_write
  if not (ltb 0 count) then pure (ssize_of count) else do
    space ← ensure_block n
    if not space then pure minus_one else write_block n h buffer count

pub write_body : ℤ → List ℕ → ℕ → Cmd ℤ
write_body fhandle buffer to_write = do
  file ← get_open_file_entry fhandle
  elim file [ none ↦ pure minus_one | some h ↦ write_file h buffer to_write ]

-- The number of bytes that a read of `len` at `offset` makes.
pub read_count : (i_size offset len : ℕ) → ℕ
read_count i_size offset len =
    if ltb len (sub_size i_size offset) then len else sub_size i_size offset

-- What a read returns, and the bytes that it has put into the caller's buffer.
abbrev pub Reply : Type 0
Reply = ℤ × List ℕ

pub read_file : (h len : ℕ) → Cmd Reply
read_file h len = do
  file ← load (λ s. s.open_file_table) h
  n ← inode_get file.of_inumber
  inode ← load (λ s. s.inode_table) n
  let count = read_count inode.i_size file.of_offset len
  if not (ltb 0 count) then pure (ssize_of count, []) else do
    block ← data_block_get inode.i_data_block
    bytes ← load_bytes (block + file.of_offset) count
    store_open_file h (record file { of_offset = add_size file.of_offset count })
    pure (ssize_of count, bytes)

pub read_body : ℤ → ℕ → Cmd Reply
read_body fhandle len = do
  file ← get_open_file_entry fhandle
  elim file [ none ↦ pure (minus_one, []) | some h ↦ read_file h len ]

pub unlink_body : Path? → Cmd ℤ
unlink_body target = if not (valid_pathname target) then pure minus_one else do
  root ← inode_get (pos root_dir_inum)
  inum ← tfs_lookup target root
  if eq_ℤ inum minus_one then pure minus_one else do
    inode_delete inum
    r ← clear_dir_entry root (skip_slash target)
    if eq_ℤ r minus_one then pure minus_one else pure (pos 0)

-- What a call returns after the calls on the mutex made before it.
abbrev pub Pthread : Type 0
Pthread = List MutexCall → MutexCall → ℤ

module _ (pthread : Pthread) where
  pub mutex : MutexCall → Cmd ℤ
  mutex call s =
      ok (pthread s.mutex_calls call) (record s { mutex_calls = s.mutex_calls ++ (call ∷ []) })

  -- `body` between `lock` and `unlock`, which every return of the source makes.
  pub with_lock : {A : Type 0} → A → (A → A) → Cmd A → Cmd A
  unfolding mutex
  with_lock failed forget body = do
    l ← mutex lock
    if eq_ℤ l minus_one
        then pure failed
        else do a ← body; u ← mutex unlock; if eq_ℤ u minus_one then pure (forget a) else pure a

  pub tfs_open : Path? → ℕ → Cmd ℤ
  tfs_open name mode = with_lock minus_one (λ _. minus_one) (open_body name mode)

  pub tfs_close : ℤ → Cmd ℤ
  tfs_close fhandle = with_lock minus_one (λ _. minus_one) (close_body fhandle)

  pub tfs_write : ℤ → List ℕ → ℕ → Cmd ℤ
  tfs_write fhandle buffer to_write =
      with_lock minus_one (λ _. minus_one) (write_body fhandle buffer to_write)

  pub tfs_read : ℤ → ℕ → Cmd Reply
  tfs_read fhandle len =
      with_lock (minus_one, []) (λ (r, bytes). (minus_one, bytes)) (read_body fhandle len)

  pub tfs_unlink : Path? → Cmd ℤ
  tfs_unlink target = with_lock minus_one (λ _. minus_one) (unlink_body target)
