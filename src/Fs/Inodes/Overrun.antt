-- ===== src/Fs/Inodes/Overrun.antt =====
-- `inode_create` where the parameters give the inode table more entries than it has.
use so_ii.Prelude.{◌<◌, ◌≡◌}
use so_ii.Fs.State.{State, InodeType, fault}
use so_ii.Fs.Tables.Search.{AllTaken}
use so_ii.Fs.Tables.Overrun.{inode_alloc-fault}
use so_ii.Fs.Inodes.{inode_create}

pub inode_create-fault :
    (s : State) (i_type : InodeType)
    → 0 < s.fs_params.block_size
    → AllTaken s.freeinode_ts.at 0 s.freeinode_ts.size
    → s.freeinode_ts.size < s.fs_params.max_inode_count
    → inode_create i_type s ≡ fault
unfolding inode_create
inode_create-fault s i_type q full more = rw (inode_alloc-fault s q full more)
