-- ===== src/Fs/Invariant/Inodes.antt =====
-- Creating, emptying and deleting a file keeps the invariant.
use so_ii.Prelude.{ℕ, ◌≡◌, update_self, update_ne, ◌<◌, ◌≢◌, pos, set, arith, ap, update, sym, ◌∙◌}
use mathlib.Core.Path.{subst}
use native.Mathlib.Decide.{ℕ_discrete}
use so_ii.Fs.State.{State, Inode, AllocationState, free, taken}
use so_ii.Fs.Tables.Files.{IsOpen}
use so_ii.Fs.Invariant.{IsFile, IsStored, Stored, File, HasFiles, OpenFile, inode_at}

-- `s` with inode `n` replaced.
abbrev pub with_inode : State → ℕ → Inode → State
with_inode s n i = record s { inode_table = set s.inode_table n i }

-- `s` with `n` taken as a new inode `i`.
abbrev pub created : State → ℕ → Inode → State
created s n i = record s {
  freeinode_ts = set s.freeinode_ts n taken;
  inode_table = set s.inode_table n i;
}

-- Inode `n`, not the root's, gets the empty inode `i`; its entry of the bit map may change.
module _ {r : ℕ} {s : State} (n : ℕ) (i : Inode) (not_root : 0 < n)
    (small : n < s.fs_params.max_inode_count) (empty : i.i_size ≡ 0) (v : HasFiles r s) where
  empty_File : IsFile r s.fs_params n i
  empty_File = record {
    not_root = not_root;
    small = small;
    fits = omega arith;
    stored = λ q. absurd (omega arith);
  }

  file : (k : ℕ) → (n ≢ k → File r s k) → File r (with_inode s n i) k
  file k f = elim (ℕ_discrete n k) [
    | yes same ↦
        subst (λ (m : ℕ). IsFile r s.fs_params m (update s.inode_table.at n i m)) same
          (subst (IsFile r s.fs_params n) (sym (update_self s.inode_table.at n i)) empty_File)
    | no other ↦
        subst (IsFile r s.fs_params k) (sym (update_ne s.inode_table.at n i k other)) (f other)
  ]

  -- A file that is not empty now is another file, and was not empty before.
  not_new :
      (a : AllocationState) (k : ℕ)
      → IsStored s.fs_params a k (update s.inode_table.at n i k)
      → n ≢ k
  not_new a k t = ground (arith, t.nonempty)

  was_stored :
      (k : ℕ)
      → IsStored s.fs_params (s.freeinode_ts.at k) k (update s.inode_table.at n i k)
      → Stored s k
  was_stored k t =
      let other = not_new (s.freeinode_ts.at k) k t in
      subst (IsStored s.fs_params (s.freeinode_ts.at k) k) (update_ne s.inode_table.at n i k other)
        t

  was_stored_created : (k : ℕ) → Stored (created s n i) k → Stored s k
  was_stored_created k t =
      let other = not_new (update s.freeinode_ts.at n taken k) k t in
      was_stored k (
        subst (λ (a : AllocationState). IsStored s.fs_params a k (update s.inode_table.at n i k))
          (update_ne s.freeinode_ts.at n taken k other) t)

  block_kept :
      (a : AllocationState) (k : ℕ)
      → IsStored s.fs_params a k (update s.inode_table.at n i k)
      → update s.inode_table.at n i k ≡ inode_at s k
  block_kept a k t = update_ne s.inode_table.at n i k (not_new a k t)

  open_file : (h : ℕ) → IsOpen s h → OpenFile r (with_inode s n i) h
  open_file h o = let (m, e, f) = v.open_files h o in (m, e, file m (λ _. f))

  pub HasFiles-created : HasFiles r (created s n i)
  HasFiles-created = record {
    tables = let w = v.tables in omega arith;
    some_inode = v.some_inode;
    root_taken = ground (arith, v.root_taken);
    root_directory = ground (arith, v.root_directory);
    root_block = ground (arith, v.root_block);
    root_small = v.root_small;
    root_block_taken = v.root_block_taken;
    directory = v.directory;
    files = λ k p q t. file k (λ other. v.files k p q (ground (arith, t)));
    owned = λ k b t e.
        v.owned k b (was_stored_created k t)
          (sym (ap (λ (j : Inode). j.i_data_block) (block_kept _ k t)) ∙ e);
    exclusive = λ k m t u e. v.exclusive k m (was_stored_created k t) (was_stored_created m u) (
        sym (ap (λ (j : Inode). j.i_data_block) (block_kept _ k t))
        ∙ e
        ∙ ap (λ (j : Inode). j.i_data_block) (block_kept _ m u));
    open_files = λ h o. open_file h (record { small = o.small; is_taken = o.is_taken });
  }

  -- The same where the bit map stays: the file is emptied.
  pub HasFiles-emptied : HasFiles r (with_inode s n i)
  HasFiles-emptied = record {
    tables = let w = v.tables in omega arith;
    some_inode = v.some_inode;
    root_taken = v.root_taken;
    root_directory = ground (arith, v.root_directory);
    root_block = ground (arith, v.root_block);
    root_small = v.root_small;
    root_block_taken = v.root_block_taken;
    directory = v.directory;
    files = λ k p q t. file k (λ other. v.files k p q t);
    owned = λ k b t e.
        v.owned k b (was_stored k t)
          (sym (ap (λ (j : Inode). j.i_data_block) (block_kept _ k t)) ∙ e);
    exclusive = λ k m t u e. v.exclusive k m (was_stored k t) (was_stored m u) (
        sym (ap (λ (j : Inode). j.i_data_block) (block_kept _ k t))
        ∙ e
        ∙ ap (λ (j : Inode). j.i_data_block) (block_kept _ m u));
    open_files = λ h o. open_file h (record { small = o.small; is_taken = o.is_taken });
  }

  -- After that no file in use has the block of inode `n`, if it had one.
  pub emptied_block :
      (b : ℕ)
      → Stored s n
      → (inode_at s n).i_data_block ≡ pos b
      → (k : ℕ) → Stored (with_inode s n i) k
      → (inode_at (with_inode s n i) k).i_data_block ≢ pos b
  emptied_block b t e k u e' =
      let same = ap (λ (j : Inode). j.i_data_block) (block_kept _ k u) in
      not_new _ k u (v.exclusive n k t (was_stored k u) (e ∙ sym e' ∙ same))

-- `s` with inode `n` given back.
abbrev pub freed_inode : State → ℕ → State
freed_inode s n = record s { freeinode_ts = set s.freeinode_ts n free }

module _ {r : ℕ} {s : State} (n : ℕ) (not_root : 0 < n) (v : HasFiles r s) where
  was_taken : (k : ℕ) → update s.freeinode_ts.at n free k ≡ taken → s.freeinode_ts.at k ≡ taken
  was_taken k t = ground arith

  in_use : (k : ℕ) → Stored (freed_inode s n) k → Stored s k
  in_use k t = record {
    not_root = t.not_root;
    small = t.small;
    is_taken = was_taken k t.is_taken;
    nonempty = t.nonempty;
  }

  pub HasFiles-freed_inode : HasFiles r (freed_inode s n)
  HasFiles-freed_inode = record {
    tables = let w = v.tables in omega arith;
    some_inode = v.some_inode;
    root_taken = ground (arith, v.root_taken);
    root_directory = v.root_directory;
    root_block = v.root_block;
    root_small = v.root_small;
    root_block_taken = v.root_block_taken;
    directory = v.directory;
    files = λ k p q t. v.files k p q (was_taken k t);
    owned = λ k b t e. v.owned k b (in_use k t) e;
    exclusive = λ k m t u e. v.exclusive k m (in_use k t) (in_use m u) e;
    open_files = λ h o. v.open_files h (record { small = o.small; is_taken = o.is_taken });
  }

  pub freed_inode_block :
      (b : ℕ)
      → Stored s n
      → (inode_at s n).i_data_block ≡ pos b
      → (k : ℕ) → Stored (freed_inode s n) k
      → (inode_at (freed_inode s n) k).i_data_block ≢ pos b
  freed_inode_block b t e k u e' =
      let same : n ≡ k = v.exclusive n k t (in_use k u) (e ∙ sym e') in ground (arith, u.is_taken)
