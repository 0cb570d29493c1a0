-- ===== src/Fs/Inodes/Directories.antt =====
-- Creation of a directory by `inode_create`.
use so_ii.Prelude.{ℕ, ◌*◌, ◌<◌, ◌≡◌, refl, ap, inl, inr, ℤ, pos, minus_one, arith, set, update_self}
use so_ii.Fs.State.{State, Inode, t_directory, free, taken, ok, pure, ◌>>◌}
use so_ii.Fs.Returns.{Returns, returns, load-ok, store-ok}
use so_ii.Fs.Returns
use so_ii.Fs.Layout.{HasTables}
use so_ii.Fs.Tables.Search.{IsFirstFree, AllTaken}
use so_ii.Fs.Tables.Alloc.{inode_alloc_lem, data_block_alloc_lem}
use so_ii.Fs.Tables.Blocks.{block_fits, data_block_get-ok}
use so_ii.Fs.Inodes.{
  max_dir_entries, inode_delete, inode_create, initialise, init_inode, init_directory,
  format_directory, reset_inode,
}
use so_ii.Fs.Inodes.Create.{reset_inode-ok}
use so_ii.Fs.Inodes.Delete.{inode_delete-empty}
use so_ii.Fs.Inodes.Format.{labels, clear_entries-ok}
use so_ii.Fs.Directory.Fill.{with_bytes}

-- Inode `n` as a directory, while it has no block.
abbrev pub named : State → ℕ → State
named s n = record s {
  freeinode_ts = set s.freeinode_ts n taken;
  inode_table = set s.inode_table n (record (s.inode_table.at n) { i_node_type = t_directory });
}

-- Inode `n` as an empty directory in block `b`.
abbrev pub with_directory : State → (n b : ℕ) → State
with_directory s n b =
    with_bytes
      (record (named s n) {
        free_blocks = set s.free_blocks b taken;
        inode_table = set (named s n).inode_table n (record ((named s n).inode_table.at n) {
          i_size = s.fs_params.block_size;
          i_data_block = pos b;
        });
      })
      (labels s.fs_data.at (b * s.fs_params.block_size) (max_dir_entries s.fs_params.block_size) 0)

-- The directory given up again.
abbrev pub without_directory : State → ℕ → State
without_directory s n = record s {
  freeinode_ts = set (set s.freeinode_ts n taken) n free;
  inode_table =
      set (named s n).inode_table n
        (record ((named s n).inode_table.at n) { i_size = 0; i_data_block = minus_one });
}

-- What the creation of a directory returns and leaves.
pub data CreatesDirectory (s : State) (z : ℤ) (s' : State) : Type 0 where
  created :
      (n b : ℕ)
      → IsFirstFree s.freeinode_ts.at 0 s.fs_params.max_inode_count n
      → IsFirstFree s.free_blocks.at 0 s.fs_params.max_block_count b
      → z ≡ pos n
      → s' ≡ with_directory s n b
      → CreatesDirectory s z s'
  no_block :
      (n : ℕ)
      → IsFirstFree s.freeinode_ts.at 0 s.fs_params.max_inode_count n
      → AllTaken s.free_blocks.at 0 s.fs_params.max_block_count
      → z ≡ minus_one
      → s' ≡ without_directory s n
      → CreatesDirectory s z s'
  no_inode :
      AllTaken s.freeinode_ts.at 0 s.fs_params.max_inode_count
      → z ≡ minus_one
      → s' ≡ s
      → CreatesDirectory s z s'

module _ {s : State} (v : HasTables s) (n : ℕ) (small : n < s.fs_params.max_inode_count) where
  -- The states that the creation goes through.
  abbrev with_block : ℕ → State
  with_block b = record (named s n) { free_blocks = set s.free_blocks b taken }

  abbrev with_entries : ℕ → State
  with_entries b = record (with_block b) {
    inode_table = set (named s n).inode_table n (record ((named s n).inode_table.at n) {
      i_size = s.fs_params.block_size;
      i_data_block = pos b;
    });
  }

  named-HasTables : HasTables (named s n)
  named-HasTables = let w = v in omega arith

  with_entries-HasTables : (b : ℕ) → HasTables (with_entries b)
  with_entries-HasTables b = let w = v in omega arith

  format_directory-ok :
      (b : ℕ)
      → b < s.fs_params.max_block_count
      → format_directory n (pos b) (with_block b) ≡ ok (pos n) (with_directory s n b)
  unfolding format_directory
  format_directory-ok b low =
      let size = s.fs_params.block_size in
      rw (
        load-ok (λ s. s.inode_table) (with_block b) n (omega (arith, v)),
        store-ok (λ s. s.inode_table) (with_block b) n (omega (arith, v))
            (λ s t. record s { inode_table = t })
            (record ((named s n).inode_table.at n) { i_size = size; i_data_block = pos b }),
        data_block_get-ok (with_entries-HasTables b) low,
        clear_entries-ok (with_entries b) (b * size) (max_dir_entries size) 0
            (omega (arith, v, block_fits b s.fs_params.max_block_count size low)),
      )

  abbrev emptied : Inode
  emptied = record ((named s n).inode_table.at n) { i_size = 0; i_data_block = minus_one }

  abbrev reset : State
  reset = record (named s n) { inode_table = set (named s n).inode_table n emptied }

  reset-HasTables : HasTables reset
  reset-HasTables = let w = v in omega arith

  -- Without a block the inode is given back.
  give_up :
      Returns
        (λ z s'. (z ≡ minus_one) × (s' ≡ without_directory s n))
        ((reset_inode n >> inode_delete (pos n) >> pure minus_one) (named s n))
  give_up =
      rw
        (
          reset_inode-ok (named s n) n (omega (arith, v)),
          inode_delete-empty reset-HasTables n small (update_self s.freeinode_ts.at n taken)
              (ap (λ (i : Inode). i.i_size) (update_self (named s n).inode_table.at n emptied)),
        )
        (returns (refl, refl))

  init_directory_lem :
      IsFirstFree s.freeinode_ts.at 0 s.fs_params.max_inode_count n
      → Returns (CreatesDirectory s) (init_directory n (named s n))
  unfolding init_directory reset_inode
  init_directory_lem first = Returns.bind (data_block_alloc_lem named-HasTables) λ z s1 alloc.
      elim alloc [
        | inr (e, full, same) ↦
            rw (e, same) (Returns.mono give_up λ z' s' (e', same'). no_block n first full e' same')
        | inl (b, e, first', same) ↦
            rw (e, same, format_directory-ok b (omega (arith, first'.below)))
              (returns (created n b first first' refl refl))
      ]

-- Where the tables have their sizes: `inode_create(T_DIRECTORY)` returns; it takes the first free
-- inode and the first free block, makes the inode a directory of one block whose entries it labels
-- empty, and returns the inode's number. Without a free inode it returns -1 and changes nothing;
-- without a free block it returns -1 and the inode is free again.
pub inode_create-directory :
    {s : State} → HasTables s → Returns (CreatesDirectory s) (inode_create t_directory s)
unfolding inode_create initialise init_inode
inode_create-directory {s} v = Returns.bind (inode_alloc_lem v) λ z s1 alloc. elim alloc [
  | inr (e, full, same) ↦ rw (e, same) (returns (no_inode full refl refl))
  | inl (n, e, first, same) ↦
      let s2 = record s { freeinode_ts = set s.freeinode_ts n taken } in
      rw
        (
          e,
          same,
          load-ok (λ s. s.inode_table) s2 n (omega (arith, v, first.below)),
          store-ok (λ s. s.inode_table) s2 n (omega (arith, v, first.below))
              (λ s t. record s { inode_table = t })
              (record (s.inode_table.at n) { i_node_type = t_directory }),
        )
        (init_directory_lem v n (omega (arith, first.below)) first)
]
