-- ===== src/Fs/Tests/Errors.antt =====
-- Runs into the errors of the operations.
use so_ii.Prelude.{ℕ, ◌<◌, ◌≡◌, refl, true, none, arith, minus_one}
use so_ii.Fs.Init.{tfs_default_params, Mallocs, tfs_init}
use so_ii.Fs.State.{taken, State, t_file, ok, fault, ◌>>◌}
use so_ii.Fs.Returns.{Returns}
use so_ii.Fs.Inodes.{inode_create}
use so_ii.Fs.Operations.{valid_pathname, skip_slash}
use so_ii.Fs.Operations.Reused.{Shares, unlink_then_open, removed_file_reused}
use so_ii.Fs.Example.{one_file, one_file-IsValid, handle-IsOpen, entry_a}
use so_ii.Fs.Tests.{quiet, quiet-NeverFails, path_a, path_b, not_bound}
use so_ii.Fs.Init.Again.{chosen, second_init_faults}
use so_ii.Fs.Layout.{HasTables}

-- The root directory has the only inode before that of the file.
first_one : (m : ℕ) → m < 1 → one_file.freeinode_ts.at m ≡ taken
first_one m low = ground arith

removed_file_reused_example :
    Returns
      (λ reply s'. Shares 0 path_b 1 0 reply s')
      (unlink_then_open quiet path_a path_b 1 one_file)
unfolding valid_pathname skip_slash
removed_file_reused_example =
    removed_file_reused quiet path_a path_b 1 1 0 1 quiet-NeverFails one_file-IsValid
      ((ground arith, (ground arith, tt)), refl, (0, omega arith, entry_a))
      ((ground arith, (ground arith, tt)), refl, omega arith) not_bound refl first_one
      (handle-IsOpen, refl) (omega arith, refl)

-- The small disk with its last inode taken too.
abbrev full : State
full = record one_file { freeinode_ts = record { allocated = true; size = 3; at = λ _. taken } }

full-HasTables : HasTables full
full-HasTables = let v = one_file-IsValid.core.tables in omega arith

abbrev no_memory : Mallocs
no_memory = record {
  inode_table = none;
  freeinode_ts = none;
  fs_data = none;
  free_blocks = none;
  open_file_table = none;
  free_open_file_entries = none;
}

second_init_faults_example :
    (tfs_init no_memory none full ≡ ok minus_one (record full { fs_params = chosen none }))
    × ((tfs_init no_memory none >> inode_create t_file) full ≡ fault)
unfolding tfs_default_params
second_init_faults_example =
    second_init_faults no_memory none t_file full-HasTables refl (λ _ _ _. refl) (omega arith)
      (omega arith)
