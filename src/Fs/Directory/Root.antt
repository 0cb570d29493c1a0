-- ===== src/Fs/Directory/Root.antt =====
-- The three directory functions of fs/state.c on the root directory of a valid state.
use so_ii.Prelude.{
  ℕ, ◌+◌, ◌*◌, ◌≤◌, ◌<◌, ◌≡◌, ◌⊎◌, false, List, arith, ℤ, pos, minus_one, int_limit, length, ◌==◌,
  ltb, ◌||◌,
}
use so_ii.Fs.State.{State, ok}
use so_ii.Fs.Returns.{load-ok}
use so_ii.Fs.Strings.{IsString}
use so_ii.Fs.Tables.Blocks.{block_fits, data_block_get-ok}
use so_ii.Fs.Inodes.{max_file_name, dir_entry_size}
use so_ii.Fs.Directory.{find_in_dir, add_dir_entry, clear_dir_entry, is_directory}
use so_ii.Fs.Directory.Entries.{IsName}
use so_ii.Fs.Directory.Find.{Finds, find_entry-Finds}
use so_ii.Fs.Directory.Add.{Adds, add_entry-Adds}
use so_ii.Fs.Directory.Clear.{Clears, clear_entry-Clears}
use so_ii.Fs.Invariant.{HasFiles, Linked, root_addr, root_entries}

module _ {r : ℕ} {s : State} (v : HasFiles r s) where
  -- The entries lie on the disk.
  root_fits : root_addr r s + root_entries s * dir_entry_size ≤ s.fs_data.size
  root_fits = omega (
    arith,
    v.tables,
    block_fits r s.fs_params.max_block_count s.fs_params.block_size v.root_small,
  )

  -- For a name without NUL and a state with the invariant on files, `find_in_dir` on the root
  -- directory returns, and changes nothing: the result is the inode that the directory binds the
  -- name to, or -1 when it binds it to none.
  pub find_in_dir-Finds :
      (name : List ℕ)
      → IsString name
      → (z : ℤ) × (find_in_dir 0 name s ≡ ok z s)
        × Finds s.fs_data.at (root_addr r s) (root_entries s) name z
  unfolding find_in_dir is_directory
  find_in_dir-Finds name is =
      let (z, run, finds) =
        find_entry-Finds s (root_addr r s) (root_entries s) name (root_entries s) 0 (omega arith)
          root_fits is v.directory (λ e n p. absurd (omega arith)) in
      (
        z,
        rw
            (
              load-ok (λ s. s.inode_table) s 0 (omega (arith, v.tables, v.some_inode)),
              v.root_directory,
              v.root_block,
              data_block_get-ok v.tables v.root_small,
            )
            run,
        finds,
      )

  -- `add_dir_entry` refuses a name that is empty or too long.
  pub add_dir_entry-long :
      (name : List ℕ) (n : ℕ)
      → (length name ≡ 0) ⊎ (max_file_name ≤ length name)
      → add_dir_entry 0 name (pos n) s ≡ ok minus_one s
  unfolding add_dir_entry
  add_dir_entry-long name n bad = ground arith

  pub add_dir_entry-Adds :
      (name : List ℕ) (n : ℕ)
      → IsName name
      → n < int_limit
      → ((other : List ℕ) → ¬ Linked r s other n)
      → ((k : ℕ) → ¬ Linked r s name k)
      → (z : ℤ) × (s' : State) × (add_dir_entry 0 name (pos n) s ≡ ok z s')
        × Adds s (root_addr r s) (root_entries s) name n z s'
  unfolding add_dir_entry is_directory
  add_dir_entry-Adds name n is small inumber other =
      let (z, s', run, adds) =
        add_entry-Adds s (root_addr r s) (root_entries s) n name root_fits small is v.directory
          inumber other (root_entries s) 0 (omega arith) (λ e p. absurd (omega arith)) in
      let good : (length name == 0 || ltb 39 (length name)) ≡ false =
        ground (arith, is.nonempty, is.short) in
      (
        z,
        s',
        rw
            (
              good,
              load-ok (λ s. s.inode_table) s 0 (omega (arith, v.tables, v.some_inode)),
              v.root_directory,
              v.root_block,
              data_block_get-ok v.tables v.root_small,
            )
            run,
        adds,
      )

  -- For a name that the root directory binds, `clear_dir_entry` returns 0: the name is bound no
  -- longer, every other binding is as before, an entry is empty, and only entries of the directory
  -- are written.
  pub clear_dir_entry-Clears :
      (name : List ℕ) (n : ℕ)
      → Linked r s name n
      → (s' : State) × (clear_dir_entry 0 name s ≡ ok (pos 0) s')
        × Clears s (root_addr r s) (root_entries s) name n s'
  unfolding clear_dir_entry is_directory
  clear_dir_entry-Clears name n (e, bound, holds) =
      let (s', run, clears) =
        clear_entry-Clears s (root_addr r s) (root_entries s) n e name root_fits v.directory bound
          holds (root_entries s) 0 (omega arith) (omega arith) in
      (
        s',
        rw
            (
              load-ok (λ s. s.inode_table) s 0 (omega (arith, v.tables, v.some_inode)),
              v.root_directory,
              v.root_block,
              data_block_get-ok v.tables v.root_small,
            )
            run,
        clears,
      )
