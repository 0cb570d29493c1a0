-- ===== src/Fs/Invariant/Handles.antt =====
-- Opening and closing a handle keeps the invariant.
use so_ii.Prelude.{ℕ, ◌≡◌, ℤ, pos, set, arith}
use native.Mathlib.Decide.{ℕ_discrete}
use so_ii.Fs.State.{State, OpenFileEntry, free}
use so_ii.Fs.Layout.{HasTables}
use so_ii.Fs.Tables.Files.{IsOpen, opened}
use so_ii.Fs.Invariant.{File, HasFiles, OpenFile}

-- `s` with handle `h` closed.
abbrev pub closed : State → ℕ → State
closed s h = record s { free_open_file_entries = set s.free_open_file_entries h free }

HasTables-closed : {s : State} → HasTables s → (h : ℕ) → HasTables (closed s h)
HasTables-closed v h = omega arith

IsOpen-closed : (s : State) (h k : ℕ) → IsOpen (closed s h) k → IsOpen s k
IsOpen-closed s h k o = ground (arith, o.is_taken)

pub HasFiles-closed : {r : ℕ} {s : State} (h : ℕ) → HasFiles r s → HasFiles r (closed s h)
HasFiles-closed {s} h v = record {
  tables = HasTables-closed v.tables h;
  some_inode = v.some_inode;
  root_taken = v.root_taken;
  root_directory = v.root_directory;
  root_block = v.root_block;
  root_small = v.root_small;
  root_block_taken = v.root_block_taken;
  directory = v.directory;
  files = v.files;
  owned = v.owned;
  exclusive = v.exclusive;
  open_files = λ k o. v.open_files k (IsOpen-closed s h k o);
}

HasTables-opened : {s : State} → HasTables s → (h : ℕ) (z : ℤ) (o : ℕ) → HasTables (opened s h z o)
HasTables-opened v h z o = omega arith

-- A handle may be opened on any inode that is a file.
pub HasFiles-opened :
    {r : ℕ} {s : State} (h n offset : ℕ)
    → File r s n
    → HasFiles r s
    → HasFiles r (opened s h (pos n) offset)
HasFiles-opened {r} {s} h n offset file v = record {
  tables = HasTables-opened v.tables h (pos n) offset;
  some_inode = v.some_inode;
  root_taken = v.root_taken;
  root_directory = v.root_directory;
  root_block = v.root_block;
  root_small = v.root_small;
  root_block_taken = v.root_block_taken;
  directory = v.directory;
  files = v.files;
  owned = v.owned;
  exclusive = v.exclusive;
  open_files = λ k o. open_file k o;
}
  where
    open_file :
        (k : ℕ) → IsOpen (opened s h (pos n) offset) k → OpenFile r (opened s h (pos n) offset) k
    open_file k o = elim (ℕ_discrete h k) [
      | yes same ↦ (n, ground arith, file)
      | no other ↦
          let (m, e, f) =
            v.open_files k (record { small = o.small; is_taken = ground (arith, o.is_taken) }) in
          (m, ground (arith, e), f)
    ]

-- A handle may move to any offset.
pub HasFiles-moved :
    {r : ℕ} {s : State} (h : ℕ) (entry : OpenFileEntry)
    → entry.of_inumber ≡ (s.open_file_table.at h).of_inumber
    → HasFiles r s
    → HasFiles r (record s { open_file_table = set s.open_file_table h entry })
HasFiles-moved h entry same v = record {
  tables = let w = v.tables in omega arith;
  some_inode = v.some_inode;
  root_taken = v.root_taken;
  root_directory = v.root_directory;
  root_block = v.root_block;
  root_small = v.root_small;
  root_block_taken = v.root_block_taken;
  directory = v.directory;
  files = v.files;
  owned = v.owned;
  exclusive = v.exclusive;
  open_files = λ k o.
      let (m, e, f) = v.open_files k (record { small = o.small; is_taken = o.is_taken }) in
      (m, ground (arith, e, same), f);
}
