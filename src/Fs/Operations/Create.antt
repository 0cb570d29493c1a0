-- ===== src/Fs/Operations/Create.antt =====
-- `tfs_open` of a new file: an inode, an entry of the root directory, a handle.
use so_ii.Prelude.{
  ℕ, ◌∙◌, ◌≤◌, ◌<◌, ◌≡◌, ◌⊎◌, inl, inr, refl, ap, List, arith, ℤ, pos, minus_one, length, update,
  update_self, update_ne,
}
use native.Mathlib.Decide.{dec_lt, ℕ_discrete}
use so_ii.Fs.State.{State, Inode, free, taken, ok, and_then}
use so_ii.Fs.Returns.{Returns, returns, load-ok, store-ok}
use so_ii.Fs.Returns
use so_ii.Fs.Strings.{IsString}
use so_ii.Fs.Tables.Search.{IsFirstFree, AllTaken}
use so_ii.Fs.Tables.Files.{Opens, add_to_open_file_table_lem}
use so_ii.Fs.Inodes.{max_file_name, inode_delete}
use so_ii.Fs.Directory.{add_dir_entry}
use so_ii.Fs.Inodes.Create.{new_file, with_new_file, inode_create-file}
use so_ii.Fs.Inodes.Delete.{inode_delete-empty}
use so_ii.Fs.Directory.Entries.{IsName, Binding}
use so_ii.Fs.Directory.Fill.{with_bytes}
use so_ii.Fs.Directory.Update.{Inserts, OnlyEntries}
use so_ii.Fs.Directory.Root.{add_dir_entry-long, add_dir_entry-Adds}
use so_ii.Fs.Invariant.{IsValid, HasFiles, HasLinks, Linked, root_addr, root_entries}
use so_ii.Fs.Invariant.Bytes.{HasFiles-with_bytes}
use so_ii.Fs.Invariant.Inodes.{freed_inode, HasFiles-created, HasFiles-freed_inode}
use so_ii.Fs.Operations.{Path?, skip_slash, register, open_new}
use so_ii.Fs.Operations.Existing.{Opens-IsValid}

-- The new file: the first free inode, bound to the name, and a handle at its start.
abbrev pub Makes : (r : ℕ) (s : State) → List ℕ → ℤ → State → Type 0
Makes r s name z s' =
    (n : ℕ) × (g : ℕ → ℕ) × IsFirstFree s.freeinode_ts.at 0 s.fs_params.max_inode_count n
    × Inserts s.fs_data.at g (root_addr r s) (root_entries s) name n
    × OnlyEntries s.fs_data.at g (root_addr r s) (root_entries s)
    × Opens (with_bytes (with_new_file s n) g) (pos n) 0 z s'

-- No entry of the root directory is empty.
abbrev pub NoEntry : (r : ℕ) → State → Type 0
NoEntry r s = (e : ℕ) → e < root_entries s → Binding s.fs_data.at (root_addr r s) e

-- No file is made: nothing changes, since no inode is free; or a free inode is taken and freed again,
-- since the name is too long or the directory is full.
abbrev pub Unmade : (r : ℕ) → State → List ℕ → State → Type 0
Unmade r s name s' =
    ((s' ≡ s) × AllTaken s.freeinode_ts.at 0 s.fs_params.max_inode_count)
    ⊎ ((n : ℕ) × (s.freeinode_ts.at n ≡ free)
        × (s' ≡ freed_inode (with_new_file s n) n)
        × ((max_file_name ≤ length name) ⊎ NoEntry r s))

-- The new file, or -1 and no file.
abbrev pub MakesOrFails : (r : ℕ) (s : State) → List ℕ → ℤ → State → Type 0
MakesOrFails r s name z s' = Makes r s name z s' ⊎ ((z ≡ minus_one) × Unmade r s name s')

module _ {r : ℕ} {s : State} (name : List ℕ) (v : IsValid r s) (string : IsString name)
    (nonempty : 0 < length name) (new : (k : ℕ) → ¬ Linked r s name k) where
  open v use {core, links}

  -- Inode `n` has been made a file.
  module _ (n : ℕ) (first : IsFirstFree s.freeinode_ts.at 0 s.fs_params.max_inode_count n) where
    not_root : 0 < n
    not_root = elim (ℕ_discrete n 0) [
      | yes zero' ↦ cc (first.is_free, ap s.freeinode_ts.at zero', core.root_taken)
      | no other ↦ omega arith
    ]

    small : n < s.fs_params.max_inode_count
    small = omega (arith, first.below)

    core1 : HasFiles r (with_new_file s n)
    core1 = HasFiles-created n new_file not_root small refl core

    unlinked : (other : List ℕ) → ¬ Linked r s other n
    unlinked other l = cc (first.is_free, (links other n l).2)

    links1 : HasLinks r (with_new_file s n)
    links1 other k l = let (a, b, c) = links other k l in (a, b, ground (arith, c))

    is_taken : update s.freeinode_ts.at n taken n ≡ taken
    is_taken = update_self s.freeinode_ts.at n taken

    -- The file is given up: its inode is free again.
    delete : inode_delete (pos n) (with_new_file s n) ≡ ok tt (freed_inode (with_new_file s n) n)
    delete =
        inode_delete-empty core1.tables n small is_taken
          (ap (λ (i : Inode). i.i_size) (update_self s.inode_table.at n new_file))

    given_up-IsValid : IsValid r (freed_inode (with_new_file s n) n)
    given_up-IsValid = record {
      core = HasFiles-freed_inode n not_root core1;
      links = λ other k l.
          let (a, b, c) = links1 other k l in
          (
            a,
            b,
            elim (ℕ_discrete n k) [
              | yes same ↦ absurd (unlinked other (rw same l))
              | no differs ↦ update_ne (update s.freeinode_ts.at n taken) n free k differs ∙ c
            ],
          );
    }

    -- The file has its entry.
    linked-IsValid :
        (g : ℕ → ℕ)
        → Inserts s.fs_data.at g (root_addr r s) (root_entries s) name n
        → IsValid r (with_bytes (with_new_file s n) g)
    linked-IsValid g inserts = record {
      core = HasFiles-with_bytes g inserts.directory core1;
      links = λ other k l. elim (inserts.was other k l) [
        | inl (_, i) ↦ rw i (not_root, small, is_taken)
        | inr old ↦ links1 other k old
      ];
    }

    add :
        Returns
          (λ z s'. IsValid r s' × MakesOrFails r s name z s')
          (and_then (add_dir_entry 0 name (pos n) (with_new_file s n)) (register n))
    unfolding register
    add = elim (dec_lt (length name) max_file_name) [
      | no long ↦
          rw (add_dir_entry-long core1 name n (inr (omega arith)), delete)
            (returns
              (given_up-IsValid, inr (refl, inr (n, first.is_free, refl, inl (omega arith)))))
      | yes short ↦
          let is : IsName name = record { string = string; nonempty = nonempty; short = short } in
          let (z, s', run, adds) =
            add_dir_entry-Adds core1 name n is (omega (arith, core.tables, small)) unlinked new in
          rw run (elim adds [
            | inr (e, same, full) ↦
                rw (e, same, delete)
                  (returns (given_up-IsValid, inr (refl, inr (n, first.is_free, refl, inr full))))
            | inl (g, e, same, inserts, only) ↦
                let w = linked-IsValid g inserts in
                rw (e, same)
                  (Returns.mono (add_to_open_file_table_lem (pos n) 0 w.core.tables) λ z' s'' o. (
                    Opens-IsValid n 0 z' s'' w (w.core.files n not_root small is_taken) o,
                    inl (n, g, first, inserts, only, o),
                  ))
          ])
    ]

  -- A new file is made, or -1 is returned and the directory stays.
  pub open_new_lem :
      (path : Path?)
      → skip_slash path ≡ name
      → Returns (λ z s'. IsValid r s' × MakesOrFails r s name z s') (open_new 0 path s)
  unfolding open_new
  open_new_lem path e = Returns.bind (inode_create-file core.tables) λ z s1 creates. elim creates [
    | inr (q, full, same) ↦ rw (q, same) (returns (v, inr (refl, inl (refl, full))))
    | inl (n, q, first, same) ↦ rw (q, same, e) (add n first)
  ]
