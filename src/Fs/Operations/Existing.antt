-- ===== src/Fs/Operations/Existing.antt =====
-- `tfs_open` of a file that exists: truncation, then a handle at the start or the end.
use so_ii.Prelude.{
  ℕ, ◌<◌, ◌≡◌, ◌≢◌, ◌⊎◌, inl, inr, refl, arith, ℤ, pos, ltb, ltb→lt, Bool-cases, if◌then◌else◌,
}
use so_ii.Fs.State.{State, Inode, taken, and_then, load}
use so_ii.Fs.Returns.{Returns, returns, load-ok, store-ok}
use so_ii.Fs.Returns
use so_ii.Fs.Tables.Blocks.{data_block_free_of}
use so_ii.Fs.Tables.Files.{Opens, add_to_open_file_table_lem}
use so_ii.Fs.Tables.{add_to_open_file_table}
use so_ii.Fs.Inodes.Delete.{inode_get-ok}
use so_ii.Fs.Invariant.{IsValid, File, Stored, inode_at}
use so_ii.Fs.Invariant.Handles.{HasFiles-opened}
use so_ii.Fs.Invariant.Blocks.{freed_block, HasFiles-freed_block}
use so_ii.Fs.Invariant.Inodes.{with_inode, HasFiles-emptied, emptied_block}
use so_ii.Fs.Operations.{truncate_inode, open_existing, truncates, appends}

-- `s1` is `s` with file `n` empty and its block, if it had one, free.
abbrev pub Truncates : State → ℕ → State → Type 0
Truncates s n s1 =
    (((inode_at s n).i_size ≡ 0) × (s1 ≡ s))
    ⊎ ((b : ℕ) × ((inode_at s n).i_data_block ≡ pos b)
        × (s1 ≡ freed_block (with_inode s n (record (inode_at s n) { i_size = 0 })) b))

module _ {r : ℕ} {s : State} (n : ℕ) (v : IsValid r s) (not_root : 0 < n)
    (small : n < s.fs_params.max_inode_count) (is : s.freeinode_ts.at n ≡ taken) where
  open v use {core, links}

  stored : 0 < (inode_at s n).i_size → Stored s n
  stored q = record { not_root = not_root; small = small; is_taken = is; nonempty = q }

  empty_inode : Inode
  empty_inode = record (inode_at s n) { i_size = 0 }

  truncated-IsValid :
      (b : ℕ)
      → 0 < (inode_at s n).i_size
      → (inode_at s n).i_data_block ≡ pos b
      → b ≢ r
      → IsValid r (freed_block (with_inode s n empty_inode) b)
  unfolding empty_inode
  truncated-IsValid b q e ne = record {
    core =
        HasFiles-freed_block b ne
          (emptied_block n empty_inode not_root small refl core b (stored q) e)
          (HasFiles-emptied n empty_inode not_root small refl core);
    links = links;
  }

  truncate_inode_lem :
      Returns
        (λ _ s1.
          IsValid r s1
          × Truncates s n s1
          × (s1.freeinode_ts.at n ≡ taken)
          × (s1.fs_params ≡ s.fs_params))
        (truncate_inode n s)
  unfolding truncate_inode empty_inode
  truncate_inode_lem = elim (Bool-cases (ltb 0 (inode_at s n).i_size)) [
    | inr miss ↦
        rw (load-ok (λ s. s.inode_table) s n (omega (arith, core.tables)), miss)
          (returns (v, inl (ground arith, refl), is, refl))
    | inl hit ↦
        let (b, e, low, ne) = (core.files n not_root small is).stored (ltb→lt 0 _ hit) in
        rw
          (
            load-ok (λ s. s.inode_table) s n (omega (arith, core.tables)),
            hit,
            data_block_free_of core.tables low e,
            store-ok (λ s. s.inode_table) (freed_block s b) n (omega (arith, core.tables))
                (λ s t. record s { inode_table = t }) empty_inode,
          )
          (returns (truncated-IsValid b (ltb→lt 0 _ hit) e ne, inr (b, e, refl), is, refl))
  ]

-- What a handle on file `n` leaves of a valid state.
pub Opens-IsValid :
    {r : ℕ} {s : State} (n offset : ℕ) (z : ℤ) (s' : State)
    → IsValid r s
    → File r s n
    → Opens s (pos n) offset z s'
    → IsValid r s'
Opens-IsValid n offset z s' v file (inr (e, full, same)) = rw same v
Opens-IsValid n offset z s' v file (inl (h, e, first, same)) =
    rw same (record { core = HasFiles-opened h n offset file v.core; links = v.links })

-- The state that the handle is opened in, and the offset that it gets.
abbrev pub Reopens : State → (n mode : ℕ) → ℤ → State → Type 0
Reopens s n mode z s' =
    (s1 : State) × (if truncates mode then Truncates s n s1 else (s1 ≡ s))
    × Opens s1 (pos n) (if appends mode then (inode_at s1 n).i_size else 0) z s'

module _ {r : ℕ} {s : State} (n mode : ℕ) (v : IsValid r s) (not_root : 0 < n)
    (small : n < s.fs_params.max_inode_count) (is : s.freeinode_ts.at n ≡ taken) where
  -- The handle, after the truncation.
  add_handle :
      {s1 : State}
      → IsValid r s1
      → s1.freeinode_ts.at n ≡ taken
      → s1.fs_params ≡ s.fs_params
      → Returns
          (λ z s'.
            IsValid r s'
            × Opens s1 (pos n) (if appends mode then (inode_at s1 n).i_size else 0) z s')
          (and_then
            (load (λ s. s.inode_table) n s1)
            λ inode. add_to_open_file_table (pos n) (if appends mode then inode.i_size else 0))
  add_handle {s1} w t same =
      let low : n < s1.fs_params.max_inode_count = rw same small in
      let offset = if appends mode then (inode_at s1 n).i_size else 0 in
      rw (load-ok (λ s. s.inode_table) s1 n (omega (arith, w.core.tables))) (
        Returns.mono (add_to_open_file_table_lem (pos n) offset w.core.tables)
          λ z s' o. (Opens-IsValid n offset z s' w (w.core.files n not_root low t) o, o))

  -- From a valid state and for an inode in use that is not the root: opening it returns, in a valid
  -- state, after a truncation to size 0 (its block freed) where the mode has TFS_O_TRUNC, with the
  -- first free handle at the file's size where the mode has TFS_O_APPEND and at 0 otherwise; or -1
  -- where no handle is free.
  pub open_existing_lem :
      Returns (λ z s'. IsValid r s' × Reopens s n mode z s') (open_existing (pos n) mode s)
  unfolding open_existing
  open_existing_lem = elim (Bool-cases (truncates mode)) [
    | inl hit ↦
        rw (inode_get-ok v.core.tables n small, hit)
          (Returns.bind (truncate_inode_lem n v not_root small is) λ _ s1 (w, cut, t, same).
            Returns.mono (add_handle w t same) λ z s' (w', o). (w', (s1, cut, o)))
    | inr miss ↦
        rw (inode_get-ok v.core.tables n small, miss)
          (Returns.mono (add_handle v is refl) λ z s' (w', o). (w', (s, refl, o)))
  ]
