-- ===== src/Fs/Invariant/Written.antt =====
-- A write to the block of an open file keeps the invariant.
use so_ii.Prelude.{
  ℕ, ◌+◌, ◌*◌, ◌/◌, ◌≡◌, ◌<◌, ◌≤◌, ◌≢◌, ◌∙◌, inl, inr, sym, ap, pos, set, arith, update,
  update_self, update_ne, List, length, copy_in, copy_in_outside,
}
use mathlib.Core.Path.{subst}
use native.Mathlib.Decide.{ℕ_discrete}
use so_ii.Fs.State.{State, Inode, OpenFileEntry, taken}
use so_ii.Fs.Tables.Blocks.{blocks_apart}
use so_ii.Fs.Inodes.{dir_entry_size, entry_addr}
use so_ii.Fs.Directory.Entries.{IsDirectory, IsDirectory-same, Binds, Holds-same}
use so_ii.Fs.Invariant.{
  IsFile, IsStored, Stored, File, HasFiles, Linked, inode_at, root_addr, root_entries,
}

-- Block `b` is that of inode `n`, and of no other file in use.
pub record HasBlock (r : ℕ) (s : State) (n b : ℕ) : Type 0 where
  pub block : (inode_at s n).i_data_block ≡ pos b
  pub low : b < s.fs_params.max_block_count
  pub not_root : b ≢ r
  pub owned : s.freeinode_ts.at n ≡ taken → s.free_blocks.at b ≡ taken
  pub alone :
      s.freeinode_ts.at n ≡ taken
      → (k : ℕ) → n ≢ k
      → Stored s k
      → (inode_at s k).i_data_block ≢ pos b

-- `s` with the bytes at address `a` overwritten, entry `h` of the open file table and inode `n`
-- replaced.
abbrev pub written : State → (a : ℕ) → List ℕ → (h : ℕ) → OpenFileEntry → (n : ℕ) → Inode → State
written s a bs h entry n i = record s {
  fs_data = record s.fs_data { at = copy_in s.fs_data.at a bs };
  open_file_table = set s.open_file_table h entry;
  inode_table = set s.inode_table n i;
}

-- A write inside block `b` does not touch the root directory.
root_kept :
    (f : ℕ → ℕ) (r b k o : ℕ) (bs : List ℕ)
    → b ≢ r
    → o + length bs ≤ k
    → (e : ℕ) → e < k / dir_entry_size
    → (j : ℕ) → j < dir_entry_size
    → copy_in f (b * k + o) bs (entry_addr (r * k) e + j) ≡ f (entry_addr (r * k) e + j)
root_kept f r b k o bs ne fits e p j q =
    copy_in_outside f (b * k + o) bs (entry_addr (r * k) e + j) (elim (blocks_apart b r k ne) [
      | inl before ↦ inr (omega arith)
      | inr behind ↦ inl (omega arith)
    ])

module _ {r : ℕ} {s : State} (n h b o : ℕ) (bs : List ℕ) (entry : OpenFileEntry) (i : Inode)
    (v : HasFiles r s) (file : File r s n) (block : HasBlock r s n b)
    (fits : o + length bs ≤ s.fs_params.block_size) (size : i.i_size ≤ s.fs_params.block_size)
    (same_block : i.i_data_block ≡ (inode_at s n).i_data_block)
    (same_inode : entry.of_inumber ≡ (s.open_file_table.at h).of_inumber) where
  new_file : IsFile r s.fs_params n i
  new_file = record {
    not_root = file.not_root;
    small = file.small;
    fits = size;
    stored = λ _. (b, same_block ∙ block.block, block.low, block.not_root);
  }

  any_file : (k : ℕ) → (n ≢ k → File r s k) → IsFile r s.fs_params k (update s.inode_table.at n i k)
  any_file k f = elim (ℕ_discrete n k) [
    | yes same ↦
        subst (λ (m : ℕ). IsFile r s.fs_params m (update s.inode_table.at n i m)) same
          (subst (IsFile r s.fs_params n) (sym (update_self s.inode_table.at n i)) new_file)
    | no other ↦
        subst (IsFile r s.fs_params k) (sym (update_ne s.inode_table.at n i k other)) (f other)
  ]

  -- The block of an inode, which no write changes.
  block_at : (k : ℕ) → (update s.inode_table.at n i k).i_data_block ≡ (inode_at s k).i_data_block
  block_at k = ground arith

  -- A file that is not empty was not empty before, if it is not the one written.
  was_stored :
      (k : ℕ)
      → n ≢ k
      → IsStored s.fs_params (s.freeinode_ts.at k) k (update s.inode_table.at n i k)
      → Stored s k
  was_stored k other t =
      subst (IsStored s.fs_params (s.freeinode_ts.at k) k) (update_ne s.inode_table.at n i k other)
        t

  owned :
      (k c : ℕ)
      → IsStored s.fs_params (s.freeinode_ts.at k) k (update s.inode_table.at n i k)
      → (update s.inode_table.at n i k).i_data_block ≡ pos c
      → s.free_blocks.at c ≡ taken
  owned k c t e = elim (ℕ_discrete n k) [
    | no other ↦ v.owned k c (was_stored k other t) (sym (block_at k) ∙ e)
    | yes same ↦
        let is : s.freeinode_ts.at n ≡ taken = ap s.freeinode_ts.at same ∙ t.is_taken in
        let here : pos b ≡ pos c =
          sym block.block
          ∙ ap (λ (m : ℕ). (inode_at s m).i_data_block) same
          ∙ sym (block_at k)
          ∙ e in
        cc (here, block.owned is)
  ]

  -- No other file in use has the block of the one written.
  apart :
      (k m : ℕ)
      → n ≡ k
      → n ≢ m
      → IsStored s.fs_params (s.freeinode_ts.at k) k (update s.inode_table.at n i k)
      → IsStored s.fs_params (s.freeinode_ts.at m) m (update s.inode_table.at n i m)
      → (update s.inode_table.at n i m).i_data_block ≢ (update s.inode_table.at n i k).i_data_block
  apart k m same other t u e =
      block.alone (ap s.freeinode_ts.at same ∙ t.is_taken) m other (was_stored m other u) (
        sym (block_at m)
        ∙ e
        ∙ block_at k
        ∙ sym (ap (λ (j : ℕ). (inode_at s j).i_data_block) same)
        ∙ block.block)

  exclusive :
      (k m : ℕ)
      → IsStored s.fs_params (s.freeinode_ts.at k) k (update s.inode_table.at n i k)
      → IsStored s.fs_params (s.freeinode_ts.at m) m (update s.inode_table.at n i m)
      → (update s.inode_table.at n i k).i_data_block ≡ (update s.inode_table.at n i m).i_data_block
      → k ≡ m
  exclusive k m t u e = elim (ℕ_discrete n k) [
    | yes here ↦ elim (ℕ_discrete n m) [
      | yes there ↦ sym here ∙ there
      | no other ↦ absurd (apart k m here other t u (sym e))
    ]
    | no other ↦ elim (ℕ_discrete n m) [
      | yes there ↦ absurd (apart m k there other u t e)
      | no other' ↦
          v.exclusive k m (was_stored k other t) (was_stored m other' u)
            (sym (block_at k) ∙ e ∙ block_at m)
    ]
  ]

  directory :
      IsDirectory
        (copy_in s.fs_data.at (b * s.fs_params.block_size + o) bs)
        (root_addr r s)
        (root_entries s)
  directory =
      let f = s.fs_data.at in
      let k = s.fs_params.block_size in
      IsDirectory-same f (copy_in f (b * k + o) bs) (root_addr r s) (root_entries s)
        (λ e p j q. sym (root_kept f r b k o bs block.not_root fits e p j q))
        (λ e p j q. root_kept f r b k o bs block.not_root fits e p j q) v.directory

  -- The root directory binds what it bound.
  pub Linked-written :
      (name : List ℕ) (k : ℕ)
      → Binds
          (copy_in s.fs_data.at (b * s.fs_params.block_size + o) bs)
          (root_addr r s)
          (root_entries s)
          name
          k
      → Linked r s name k
  Linked-written name k (e, p, holds) =
      let g = copy_in s.fs_data.at (b * s.fs_params.block_size + o) bs in
      (
        e,
        p,
        Holds-same g s.fs_data.at (root_addr r s) e
            (root_kept s.fs_data.at r b s.fs_params.block_size o bs block.not_root fits e p) holds,
      )

  -- And what it bound it binds.
  pub written-Linked :
      (name : List ℕ) (k : ℕ)
      → Linked r s name k
      → Binds
          (copy_in s.fs_data.at (b * s.fs_params.block_size + o) bs)
          (root_addr r s)
          (root_entries s)
          name
          k
  written-Linked name k (e, p, holds) =
      let f = s.fs_data.at in
      let g = copy_in f (b * s.fs_params.block_size + o) bs in
      (
        e,
        p,
        Holds-same f g (root_addr r s) e
            (λ j q. sym (root_kept f r b s.fs_params.block_size o bs block.not_root fits e p j q))
            holds,
      )

  pub HasFiles-written : HasFiles r (written s (b * s.fs_params.block_size + o) bs h entry n i)
  HasFiles-written = record {
    tables = let w = v.tables in omega arith;
    some_inode = v.some_inode;
    root_taken = v.root_taken;
    root_directory = ground (arith, v.root_directory, file.not_root);
    root_block = ground (arith, v.root_block, file.not_root);
    root_small = v.root_small;
    root_block_taken = v.root_block_taken;
    directory = directory;
    files = λ k p q t. any_file k (λ _. v.files k p q t);
    owned = owned;
    exclusive = exclusive;
    open_files = λ k opened.
        let (m, e, f) =
          v.open_files k (record { small = opened.small; is_taken = opened.is_taken }) in
        (m, ground (arith, e, same_inode), any_file m (λ _. f));
  }
