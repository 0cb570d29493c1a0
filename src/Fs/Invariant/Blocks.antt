-- ===== src/Fs/Invariant/Blocks.antt =====
-- Taking and giving back a block keeps the invariant.
use so_ii.Prelude.{ℕ, ◌≢◌, pos, set, arith}
use so_ii.Fs.State.{State, free, taken}
use so_ii.Fs.Invariant.{Stored, HasFiles, inode_at}

abbrev pub freed_block : State → ℕ → State
freed_block s b = record s { free_blocks = set s.free_blocks b free }

abbrev pub taken_block : State → ℕ → State
taken_block s b = record s { free_blocks = set s.free_blocks b taken }

-- A block may be given back that no file in use and no directory has.
pub HasFiles-freed_block :
    {r : ℕ} {s : State} (b : ℕ)
    → b ≢ r
    → ((k : ℕ) → Stored s k → (inode_at s k).i_data_block ≢ pos b)
    → HasFiles r s
    → HasFiles r (freed_block s b)
HasFiles-freed_block b ne unused v = record {
  tables = let w = v.tables in omega arith;
  some_inode = v.some_inode;
  root_taken = v.root_taken;
  root_directory = v.root_directory;
  root_block = v.root_block;
  root_small = v.root_small;
  root_block_taken = ground (arith, v.root_block_taken);
  directory = v.directory;
  files = v.files;
  owned = λ k c t e. ground (arith, v.owned k c t e, unused k t);
  exclusive = v.exclusive;
  open_files = λ h o. v.open_files h (record { small = o.small; is_taken = o.is_taken });
}

pub HasFiles-taken_block : {r : ℕ} {s : State} (b : ℕ) → HasFiles r s → HasFiles r (taken_block s b)
HasFiles-taken_block b v = record {
  tables = let w = v.tables in omega arith;
  some_inode = v.some_inode;
  root_taken = v.root_taken;
  root_directory = v.root_directory;
  root_block = v.root_block;
  root_small = v.root_small;
  root_block_taken = ground (arith, v.root_block_taken);
  directory = v.directory;
  files = v.files;
  owned = λ k c t e. ground (arith, v.owned k c t e);
  exclusive = v.exclusive;
  open_files = λ h o. v.open_files h (record { small = o.small; is_taken = o.is_taken });
}
