-- ===== src/Fs/Inodes/Delete.antt =====
-- Deletion by `inode_delete`.
use so_ii.Prelude.{ℕ, ◌≡◌, ◌<◌, ℤ, pos, set, arith, lt→ltb}
use so_ii.Fs.State.{State, taken, free, ok}
use so_ii.Fs.Returns.{load-ok, store-ok}
use so_ii.Fs.Layout.{HasTables}
use so_ii.Fs.Tables.{valid_inumber, entry_taken}
use so_ii.Fs.Tables.Blocks.{data_block_free-ok}
use so_ii.Fs.Inodes.{inode_delete, inode_get}

module _ {s : State} (v : HasTables s) (n : ℕ) (small : n < s.fs_params.max_inode_count) where
  pub inode_get-ok : inode_get (pos n) s ≡ ok n s
  unfolding inode_get valid_inumber
  inode_get-ok = rw (lt→ltb n s.fs_params.max_inode_count small)

  pub inode_get_of : {z : ℤ} → z ≡ pos n → inode_get z s ≡ ok n s
  inode_get_of e = rw e inode_get-ok

  -- An empty inode gives nothing back but its number.
  pub inode_delete-empty :
      s.freeinode_ts.at n ≡ taken
      → (s.inode_table.at n).i_size ≡ 0
      → inode_delete (pos n) s ≡ ok tt (record s { freeinode_ts = set s.freeinode_ts n free })
  unfolding inode_delete valid_inumber entry_taken
  inode_delete-empty is empty = rw (
    lt→ltb n s.fs_params.max_inode_count small,
    load-ok (λ s. s.freeinode_ts) s n (omega (arith, v)),
    is,
    load-ok (λ s. s.inode_table) s n (omega (arith, v)),
    empty,
    store-ok (λ s. s.freeinode_ts) s n (omega (arith, v)) (λ s t. record s { freeinode_ts = t })
        free,
  )

  -- Another one gives its block back, too.
  pub inode_delete-stored :
      (b : ℕ)
      → s.freeinode_ts.at n ≡ taken
      → 0 < (s.inode_table.at n).i_size
      → (s.inode_table.at n).i_data_block ≡ pos b
      → b < s.fs_params.max_block_count
      → inode_delete (pos n) s
        ≡ ok tt (record s {
          free_blocks = set s.free_blocks b free;
          freeinode_ts = set s.freeinode_ts n free;
        })
  unfolding inode_delete valid_inumber entry_taken
  inode_delete-stored b is nonempty block low =
      let s1 = record s { free_blocks = set s.free_blocks b free } in
      rw (
        lt→ltb n s.fs_params.max_inode_count small,
        load-ok (λ s. s.freeinode_ts) s n (omega (arith, v)),
        is,
        load-ok (λ s. s.inode_table) s n (omega (arith, v)),
        lt→ltb 0 (s.inode_table.at n).i_size nonempty,
        block,
        data_block_free-ok v low,
        store-ok (λ s. s.freeinode_ts) s1 n (omega (arith, v))
            (λ s t. record s { freeinode_ts = t }) free,
      )
