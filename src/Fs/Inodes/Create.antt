-- ===== src/Fs/Inodes/Create.antt =====
-- Creation of a regular file by `inode_create`.
use so_ii.Prelude.{
  ℕ, ◌≡◌, ◌<◌, ◌∙◌, refl, ap, ◌⊎◌, inl, inr, ℤ, pos, minus_one, arith, set, update, update_self,
  update-update,
}
use so_ii.Fs.State.{State, Inode, t_file, taken, ok}
use so_ii.Fs.Returns.{Returns, returns, load-ok, store-ok}
use so_ii.Fs.Returns
use so_ii.Fs.Layout.{HasTables}
use so_ii.Fs.Tables.Search.{IsFirstFree, AllTaken}
use so_ii.Fs.Tables.Alloc.{inode_alloc_lem}
use so_ii.Fs.Inodes.{inode_create, initialise, init_inode, init_file, reset_inode}

abbrev pub new_file : Inode
new_file = record { i_node_type = t_file; i_size = 0; i_data_block = minus_one }

abbrev pub with_new_file : State → ℕ → State
with_new_file s n = record s {
  freeinode_ts = set s.freeinode_ts n taken;
  inode_table = set s.inode_table n new_file;
}

-- The first free inode, made an empty file; or -1, no change, and a table with no free inode.
abbrev pub Creates : State → ℤ → State → Type 0
Creates s r s' =
    ((n : ℕ) × (r ≡ pos n)
      × IsFirstFree s.freeinode_ts.at 0 s.fs_params.max_inode_count n
      × (s' ≡ with_new_file s n))
    ⊎ ((r ≡ minus_one) × AllTaken s.freeinode_ts.at 0 s.fs_params.max_inode_count × (s' ≡ s))

pub reset_inode-ok :
    (s : State) (n : ℕ)
    → n < s.inode_table.size
    → reset_inode n s
      ≡ ok tt (record s {
        inode_table =
            set s.inode_table n
              (record (s.inode_table.at n) { i_size = 0; i_data_block = minus_one });
      })
unfolding reset_inode
reset_inode-ok s n h = rw (load-ok (λ s. s.inode_table) s n h) (
    store-ok (λ s. s.inode_table) s n h (λ s t. record s { inode_table = t })
      (record (s.inode_table.at n) { i_size = 0; i_data_block = minus_one }))

abbrev typed : State → ℕ → Inode
typed s n = record (s.inode_table.at n) { i_node_type = t_file }

emptied_twice :
    (s : State) (n : ℕ)
    → (record (update s.inode_table.at n (typed s n) n) { i_size = 0; i_data_block = minus_one })
      ≡ new_file
emptied_twice s n =
    ap (λ (i : Inode). record i { i_size = 0; i_data_block = minus_one })
      (update_self s.inode_table.at n (typed s n))

new_table :
    (s : State) (n : ℕ)
    → update
        (update s.inode_table.at n (typed s n))
        n
        (record (update s.inode_table.at n (typed s n) n) { i_size = 0; i_data_block = minus_one })
      ≡ update s.inode_table.at n new_file
new_table s n =
    update-update s.inode_table.at n (typed s n)
      (record (update s.inode_table.at n (typed s n) n) { i_size = 0; i_data_block = minus_one })
    ∙ ap (update s.inode_table.at n) (emptied_twice s n)

-- What follows the allocation of inode `n`.
create :
    (s : State) (n : ℕ)
    → n < s.inode_table.size
    → IsFirstFree s.freeinode_ts.at 0 s.fs_params.max_inode_count n
    → Returns
        (Creates s)
        (initialise t_file n (record s { freeinode_ts = set s.freeinode_ts n taken }))
unfolding initialise init_inode init_file
create s n small first =
    let s1 = record s { freeinode_ts = set s.freeinode_ts n taken } in
    let s2 = record s1 { inode_table = set s1.inode_table n (typed s n) } in
    rw
      (
        load-ok (λ s. s.inode_table) s1 n small,
        store-ok (λ s. s.inode_table) s1 n small (λ s t. record s { inode_table = t }) (typed s n),
        reset_inode-ok s2 n small,
      )
      (returns (
        inl (
          n,
          refl,
          first,
          ap (λ (g : ℕ → Inode). record s1 { inode_table = record s.inode_table { at = g } })
              (new_table s n),
        )))

-- Where the tables have their sizes: `inode_create(T_FILE)` returns; it makes the first free inode an
-- empty file without a block and returns its number, or returns -1 and changes nothing when none is
-- free.
pub inode_create-file : {s : State} → HasTables s → Returns (Creates s) (inode_create t_file s)
unfolding inode_create
inode_create-file {s} v = Returns.bind (inode_alloc_lem v) λ r s1 alloc. elim alloc [
  | inr (e, full, same) ↦ rw (e, same) (returns (inr (refl, full, refl)))
  | inl (n, e, first, same) ↦ rw (e, same) (create s n (omega (arith, v, first.below)) first)
]
