-- ===== src/Fs/Invariant/Bytes.antt =====
-- A write to the disk keeps the invariant, if the root directory stays a directory.
use so_ii.Prelude.{ℕ, arith}
use so_ii.Fs.State.{State}
use so_ii.Fs.Directory.Entries.{IsDirectory}
use so_ii.Fs.Directory.Fill.{with_bytes}
use so_ii.Fs.Invariant.{HasFiles, root_addr, root_entries}

pub HasFiles-with_bytes :
    {r : ℕ} {s : State} (g : ℕ → ℕ)
    → IsDirectory g (root_addr r s) (root_entries s)
    → HasFiles r s
    → HasFiles r (with_bytes s g)
HasFiles-with_bytes g dir v = record {
  tables = let w = v.tables in omega arith;
  some_inode = v.some_inode;
  root_taken = v.root_taken;
  root_directory = v.root_directory;
  root_block = v.root_block;
  root_small = v.root_small;
  root_block_taken = v.root_block_taken;
  directory = dir;
  files = v.files;
  owned = v.owned;
  exclusive = v.exclusive;
  open_files = λ h o. v.open_files h (record { small = o.small; is_taken = o.is_taken });
}
