-- ===== src/Fs/Init/Starts.antt =====
-- `tfs_init` on a program that starts: the file system is valid, and empty.
use so_ii.Prelude.{
  ℕ, ◌*◌, ◌%◌, ◌/◌, ◌^◌, ◌≤◌, ◌<◌, ◌≡◌, ◌≢◌, ◌∙◌, refl, ap, inl, arith, ℤ, pos, List, some,
  int_limit, le→leb, update_self, lt→ltb,
}
use native.Mathlib.Decide.{ℕ_discrete}
use so_ii.Fs.State.{Params, Inode, AllocationState, free, taken, OpenFileEntry, State, ok}
use so_ii.Fs.Returns.{Returns, returns}
use so_ii.Fs.Returns
use so_ii.Fs.Layout.{HasTables}
use so_ii.Fs.Tables.Search.{IsFirstFree}
use so_ii.Fs.Tables.Files.{IsOpen}
use so_ii.Fs.Inodes.{entry_addr, max_dir_entries}
use so_ii.Fs.Inodes.Format.{labels, labels-name, labels-inumber}
use so_ii.Fs.Inodes.Directories
use so_ii.Fs.Inodes.Directories.{CreatesDirectory, with_directory, inode_create-directory}
use so_ii.Fs.Directory.Entries.{IsEmpty, Holds, IsDirectory, not-IsEmpty-Holds}
use so_ii.Fs.Invariant.{HasFiles, IsValid, Linked}
use so_ii.Fs.Init.{
  Mallocs, allocate, allocate_tables, all_allocated, all_free, mark_free, state_init, start,
  tfs_init,
}

-- Sizes that numbers of type `int` and addresses of type `size_t` can take.
pub record AreSizes (p : Params) : Type 0 where
  pub block_size_pos : 0 < p.block_size
  pub some_inode : 0 < p.max_inode_count
  pub some_block : 0 < p.max_block_count
  pub inodes_small : p.max_inode_count ≤ int_limit
  pub blocks_small : p.max_block_count ≤ int_limit
  pub files_small : p.max_open_files_count ≤ int_limit
  pub disk_small : p.max_block_count * p.block_size < 2 ^ 63

-- The six calls of `malloc` succeed, and the memory holds what the six functions say.
abbrev pub memory :
    (ℕ → Inode)
    → (ℕ → AllocationState)
    → (ℕ → ℕ)
    → (ℕ → AllocationState)
    → (ℕ → OpenFileEntry)
    → (ℕ → AllocationState)
    → Mallocs
memory inodes inode_map disk block_map files file_map = record {
  inode_table = some inodes;
  freeinode_ts = some inode_map;
  fs_data = some disk;
  free_blocks = some block_map;
  open_file_table = some files;
  free_open_file_entries = some file_map;
}

module _ (p : Params) (m : Mallocs) where
  -- The state that `state_init` leaves.
  tables_of : State
  tables_of = allocate_tables m (record start { fs_params = p })

  initial : State
  unfolding tables_of
  initial = record tables_of {
    freeinode_ts = all_free p.max_inode_count tables_of.freeinode_ts;
    free_blocks = all_free p.max_block_count tables_of.free_blocks;
    free_open_file_entries = all_free p.max_open_files_count tables_of.free_open_file_entries;
  }

module _ (p : Params) (sizes : AreSizes p) (inodes : ℕ → Inode) (inode_map : ℕ → AllocationState)
    (disk : ℕ → ℕ) (block_map : ℕ → AllocationState) (files : ℕ → OpenFileEntry)
    (file_map : ℕ → AllocationState) where
  abbrev s0 : State
  s0 = initial p (memory inodes inode_map disk block_map files file_map)

  s0-HasTables : HasTables s0
  unfolding initial tables_of allocate_tables allocate all_free
  s0-HasTables = omega (arith, sizes)

  state_init-ok :
      state_init (memory inodes inode_map disk block_map files file_map) p start ≡ ok (pos 0) s0
  unfolding state_init mark_free allocate_tables allocate all_allocated initial tables_of
  state_init-ok =
      rw
        (
          le→leb p.max_inode_count (p.max_inode_count * 4 % 2 ^ 64 / 4) (omega (arith, sizes)),
          le→leb p.max_block_count (p.max_block_count * 4 % 2 ^ 64 / 4) (omega (arith, sizes)),
          le→leb p.max_open_files_count (p.max_open_files_count * 4 % 2 ^ 64 / 4)
              (omega (arith, sizes)),
        )
        refl

  -- Every inode and every block is free.
  first_is_zero :
      {g : ℕ → AllocationState} {count n : ℕ} → g 0 ≡ free → IsFirstFree g 0 count n → n ≡ 0
  first_is_zero {n = n} zero_free first = elim (ℕ_discrete n 0) [
    | yes same ↦ same
    | no later ↦ cc (zero_free, first.first 0 (omega arith) (omega arith))
  ]

  abbrev s1 : State
  s1 = with_directory s0 0 0

  maps_free :
      (s0.freeinode_ts.at 0 ≡ free)
      × (s0.free_blocks.at 0 ≡ free)
      × ((n : ℕ) → 0 < n → n < p.max_inode_count → s1.freeinode_ts.at n ≡ free)
      × ((h : ℕ) → h < p.max_open_files_count → s1.free_open_file_entries.at h ≡ free)
      × (s1.fs_params ≡ p)
      × (s0.fs_data.at ≡ disk)
  unfolding initial tables_of allocate_tables allocate all_free
  maps_free = (
    rw (lt→ltb 0 p.max_inode_count sizes.some_inode) refl,
    rw (lt→ltb 0 p.max_block_count sizes.some_block) refl,
    λ n q small. ground arith,
    λ h small. ground arith,
    refl,
    refl,
  )

  module _ (blank : (e : ℕ) → e < max_dir_entries p.block_size → disk (entry_addr 0 e) ≡ 0) where
    -- The bytes of the root directory, and where they are.
    abbrev root : ℕ
    root = 0 * p.block_size

    abbrev formatted : ℕ → ℕ
    formatted = labels disk root (max_dir_entries p.block_size) 0

    entries-IsEmpty : (e : ℕ) → e < max_dir_entries p.block_size → IsEmpty formatted root e
    entries-IsEmpty e h =
        let here : entry_addr root e ≡ entry_addr 0 e = omega arith in
        record {
          inumber =
              labels-inumber disk root (max_dir_entries p.block_size) 0 e (omega arith)
                (omega arith);
          blank =
              labels-name disk root (max_dir_entries p.block_size) 0 e ∙ ap disk here ∙ blank e h;
        }

    nothing_held :
        (e n : ℕ) (name : List ℕ)
        → e < max_dir_entries p.block_size
        → ¬ Holds formatted root e n name
    nothing_held e n name h = not-IsEmpty-Holds (entries-IsEmpty e h)

    formatted-IsDirectory : IsDirectory formatted root (max_dir_entries p.block_size)
    formatted-IsDirectory = record {
      view = λ e h. inl (entries-IsEmpty e h);
      same_inumber = λ e e' n name name' h h' l l'. absurd (nothing_held e n name h l);
      same_name = λ e e' n n' name h h' l l'. absurd (nothing_held e n name h l);
    }

    no_link : (name : List ℕ) (n : ℕ) → ¬ Linked 0 s1 name n
    unfolding initial tables_of allocate_tables allocate all_free
    no_link name n (e, h, l) = nothing_held e n name h l

    no_handle : (h : ℕ) → ¬ IsOpen s1 h
    unfolding initial tables_of allocate_tables allocate all_free
    no_handle h o = let (a, b, c, d, e, f) = maps_free in cc (d h o.small, o.is_taken)

    not_taken : (n : ℕ) → 0 < n → n < p.max_inode_count → s1.freeinode_ts.at n ≢ taken
    not_taken n q small t = let (a, b, c, d, e, f) = maps_free in cc (c n q small, t)

    s1-HasFiles : HasFiles 0 s1
    unfolding initial tables_of allocate_tables allocate all_free
    s1-HasFiles = record {
      tables = let v = s0-HasTables in omega arith;
      some_inode = sizes.some_inode;
      root_taken = update_self s0.freeinode_ts.at 0 taken;
      root_directory = ground arith;
      root_block = ground arith;
      root_small = sizes.some_block;
      root_block_taken = update_self s0.free_blocks.at 0 taken;
      directory = formatted-IsDirectory;
      files = λ n q small t. absurd (not_taken n q small t);
      owned = λ n b t. absurd (not_taken n t.not_root t.small t.is_taken);
      exclusive = λ n k t. absurd (not_taken n t.not_root t.small t.is_taken);
      open_files = λ h o. absurd (no_handle h o);
    }

    -- The root directory gets inode 0 and block 0.
    root_created : (z : ℤ) (s' : State) → CreatesDirectory s0 z s' → (z ≡ pos 0) × (s' ≡ s1)
    unfolding initial tables_of allocate_tables
    root_created z s' (Directories.created n b first first' e same) =
        let a = maps_free.0 in
        let c = maps_free.1 in
        let n0 = first_is_zero a first in
        let b0 = first_is_zero c first' in (e ∙ ap pos n0, same ∙ rw (n0, b0) refl)
    root_created z s' (Directories.no_block n first full e same) =
        let a = maps_free.0 in
        let c = maps_free.1 in cc (c, full 0 (omega arith) (omega (arith, sizes.some_block)))
    root_created z s' (Directories.no_inode full e same) =
        let a = maps_free.0 in cc (a, full 0 (omega arith) (omega (arith, sizes.some_inode)))

    s1-IsValid : IsValid 0 s1
    s1-IsValid = record { core = s1-HasFiles; links = λ name n l. absurd (no_link name n l) }

    -- For sizes that are positive and fit an `int` and the address space, six calls of `malloc` that
    -- succeed, and memory in which each name of the first block is blank: `tfs_init` of a program
    -- that starts returns 0, in a valid state of those sizes in which no name is linked and no
    -- handle is open.
    pub tfs_init_lem :
        Returns
          (λ z s'.
            (z ≡ pos 0)
            × IsValid 0 s'
            × (s'.fs_params ≡ p)
            × ((name : List ℕ) (n : ℕ) → ¬ Linked 0 s' name n)
            × ((h : ℕ) → ¬ IsOpen s' h))
          (tfs_init (memory inodes inode_map disk block_map files file_map) (some p) start)
    unfolding tfs_init
    tfs_init_lem = rw state_init-ok (
        Returns.bind (inode_create-directory s0-HasTables) λ z s' creates.
          let (e, same) = root_created z s' creates in
          rw (e, same) (returns (refl, s1-IsValid, maps_free.4, no_link, no_handle)))
