-- ===== src/Fs/Init/Again.antt =====
-- `tfs_init` of a file system that has been initialised.
use so_ii.Prelude.{◌<◌, ◌≡◌, true, Option, none, some, minus_one}
use so_ii.Fs.State.{Params, State, InodeType, ok, fault, ◌>>◌}
use so_ii.Fs.Layout.{HasTables}
use so_ii.Fs.Tables.Search.{AllTaken}
use so_ii.Fs.Inodes.{inode_create}
use so_ii.Fs.Inodes.Overrun.{inode_create-fault}
use so_ii.Fs.Init.{Mallocs, state_init, tfs_init, tfs_default_params}

-- The parameters that `tfs_init` uses.
abbrev pub chosen : Option Params → Params
chosen none = tfs_default_params
chosen (some p) = p

-- It returns -1, and the parameters are the new ones all the same.
refuses :
    (s : State) (m : Mallocs) (params : Option Params)
    → s.inode_table.allocated ≡ true
    → tfs_init m params s ≡ ok minus_one (record s { fs_params = chosen params })
unfolding tfs_init state_init
refuses s m none on = rw on
refuses s m (some p) on = rw on

-- In an initialised file system all of whose inodes are in use, for parameters with more inodes than
-- it has and a positive block size: `tfs_init` returns -1 but leaves the new parameters, so that
-- the next `inode_create`, of a file or a directory, reads behind the end of the map of inodes.
pub second_init_faults :
    {s : State} (m : Mallocs) (params : Option Params) (i_type : InodeType)
    → HasTables s
    → s.inode_table.allocated ≡ true
    → AllTaken s.freeinode_ts.at 0 s.fs_params.max_inode_count
    → 0 < (chosen params).block_size
    → s.fs_params.max_inode_count < (chosen params).max_inode_count
    → (tfs_init m params s ≡ ok minus_one (record s { fs_params = chosen params }))
      × ((tfs_init m params >> inode_create i_type) s ≡ fault)
second_init_faults {s} m params i_type v on full q more =
    let again = refuses s m params on in
    let size = v.freeinode_ts_size in
    (
      again,
      rw (again) (
          inode_create-fault (record s { fs_params = chosen params }) i_type q (rw size full)
            (rw size more)),
    )
