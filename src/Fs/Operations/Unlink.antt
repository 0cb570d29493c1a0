-- ===== src/Fs/Operations/Unlink.antt =====
-- `tfs_unlink` on every path: what it returns and what it leaves.
use so_ii.Prelude.{
  ℕ, ◌<◌, ◌≡◌, ◌∙◌, ◌⊎◌, inl, inr, refl, sym, true, false, List, arith, ℤ, pos, minus_one, set,
  Array, update_ne, Bool-cases, ltb, ltb→lt,
}
use so_ii.Fs.State.{State, AllocationState, free, ok}
use so_ii.Fs.Returns.{Returns, returns}
use so_ii.Fs.Inodes.{inode_delete}
use so_ii.Fs.Directory.{clear_dir_entry}
use so_ii.Fs.Inodes.Delete.{inode_get-ok, inode_delete-empty, inode_delete-stored}
use so_ii.Fs.Directory.Fill.{with_bytes}
use so_ii.Fs.Directory.Update.{Removes, OnlyEntries}
use so_ii.Fs.Directory.Root.{clear_dir_entry-Clears}
use so_ii.Fs.Invariant.{IsValid, HasFiles, Linked, root_addr, root_entries, inode_at, Stored}
use so_ii.Fs.Invariant.Blocks.{HasFiles-freed_block}
use so_ii.Fs.Invariant.Bytes.{HasFiles-with_bytes}
use so_ii.Fs.Invariant.Inodes.{HasFiles-freed_inode, freed_inode_block}
use so_ii.Fs.Operations.{Path?, valid_pathname, skip_slash, unlink_body}
use so_ii.Fs.Operations.Open.{IsPath, tfs_lookup-Finds}

-- The block of file `n`, if it has one, is free in the map `fb`, and no other changes.
abbrev pub FreesBlock : State → ℕ → Array AllocationState → Type 0
FreesBlock s n fb =
    (((inode_at s n).i_size ≡ 0) × (fb ≡ s.free_blocks))
    ⊎ ((b : ℕ) × ((inode_at s n).i_data_block ≡ pos b) × (fb ≡ set s.free_blocks b free))

-- `s` with inode `n` free, and the map of blocks `fb`.
abbrev pub given_back : State → ℕ → Array AllocationState → State
given_back s n fb = record s { free_blocks = fb; freeinode_ts = set s.freeinode_ts n free }

-- The name is gone from the directory, and the inode and the block of its file are free.
abbrev pub Unlinks : (r : ℕ) (s : State) → List ℕ → ℕ → ℤ → State → Type 0
Unlinks r s name n z s' =
    (fb : Array AllocationState) × (g : ℕ → ℕ) × (z ≡ pos 0)
    × FreesBlock s n fb
    × (s' ≡ with_bytes (given_back s n fb) g)
    × Removes s.fs_data.at g (root_addr r s) (root_entries s) name n
    × OnlyEntries s.fs_data.at g (root_addr r s) (root_entries s)

pub data UnlinkOutcome (r : ℕ) (s : State) (path : Path?) (z : ℤ) (s' : State) : Type 0 where
  rejected : valid_pathname path ≡ false → z ≡ minus_one → s' ≡ s → UnlinkOutcome r s path z s'
  missing :
      valid_pathname path ≡ true
      → ((k : ℕ) → ¬ Linked r s (skip_slash path) k)
      → z ≡ minus_one
      → s' ≡ s
      → UnlinkOutcome r s path z s'
  removed :
      (n : ℕ)
      → valid_pathname path ≡ true
      → Linked r s (skip_slash path) n
      → Unlinks r s (skip_slash path) n z s'
      → UnlinkOutcome r s path z s'

module _ {r : ℕ} {s : State} (name : List ℕ) (n : ℕ) (v : IsValid r s) (l : Linked r s name n) where
  open v use {core, links}

  not_root : 0 < n
  not_root = (links name n l).0

  small : n < s.fs_params.max_inode_count
  small = (links name n l).1

  -- The map of blocks after the deletion.
  delete :
      (fb : Array AllocationState) × FreesBlock s n fb
      × (inode_delete (pos n) s ≡ ok tt (given_back s n fb))
      × HasFiles r (given_back s n fb)
  delete = elim (Bool-cases (ltb 0 (inode_at s n).i_size)) [
    | inr none' ↦
        let empty : (inode_at s n).i_size ≡ 0 = ground arith in
        (
          s.free_blocks,
          inl (empty, refl),
          inode_delete-empty core.tables n small (links name n l).2 empty,
          HasFiles-freed_inode n not_root core,
        )
    | inl some' ↦
        let is = (links name n l).2 in
        let size = ltb→lt 0 _ some' in
        let stored : Stored s n = record {
          not_root = not_root;
          small = small;
          is_taken = is;
          nonempty = size;
        } in
        let (b, e, low, ne) = (core.files n not_root small is).stored size in
        (
          set s.free_blocks b free,
          inr (b, e, refl),
          inode_delete-stored core.tables n small b is size e low,
          HasFiles-freed_block b ne (freed_inode_block n not_root core b stored e)
              (HasFiles-freed_inode n not_root core),
        )
  ]

  remove :
      (fb : Array AllocationState) × (s' : State) × (inode_delete (pos n) s
        ≡ ok tt (given_back s n fb))
      × (clear_dir_entry 0 name (given_back s n fb) ≡ ok (pos 0) s')
      × IsValid r s'
      × Unlinks r s name n (pos 0) s'
  remove =
      let (fb, frees, run, core1) = delete in
      let (s', run', (g, same, removes, only)) = clear_dir_entry-Clears core1 name n l in
      (
        fb,
        s',
        run,
        run',
        rw same (record {
          core = HasFiles-with_bytes g removes.directory core1;
          links = λ other k l'.
              let (old, _, other_inode) = removes.was other k l' in
              let (a, b, c) = links other k old in
              (a, b, update_ne s.freeinode_ts.at n free k (λ e. other_inode (sym e)) ∙ c);
        }),
        (fb, g, refl, frees, same, removes, only),
      )

module _ {r : ℕ} {s : State} (path : Path?) (v : IsValid r s) (is : IsPath path) where
  pub unlink_body_lem :
      Returns (λ z s'. IsValid r s' × UnlinkOutcome r s path z s') (unlink_body path s)
  unfolding unlink_body
  unlink_body_lem = elim (Bool-cases (valid_pathname path)) [
    | inr bad ↦ rw bad (returns (v, rejected bad refl refl))
    | inl good ↦
        let (z, run, finds) = tfs_lookup-Finds path v is good in
        rw (good, inode_get-ok v.core.tables 0 v.core.some_inode, run)
          (elim finds [
            | inr (e, new) ↦ rw e (returns (v, missing good new refl refl))
            | inl (n, e, l) ↦
                let (fb, s', gone, cleared, w, unlinks) = remove (skip_slash path) n v l in
                rw (e, gone, cleared) (returns (w, removed n good l unlinks))
          ])
  ]
