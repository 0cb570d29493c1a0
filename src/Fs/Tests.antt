-- ===== src/Fs/Tests.antt =====
-- Runs of the operations on a small disk.
mod Errors
use so_ii.Prelude.{negsuc, minus_one, ℕ, ◌-◌, ◌<◌, ◌≡◌, refl, List, [], ◌∷◌, arith, ℤ, pos, some}
use Prim.Native.Nat.{min}
use so_ii.Fs.Tables.Files.{IsOpen}
use so_ii.Fs.Init.{Mallocs, no_inode, no_open_file, start, tfs_init}
use so_ii.Fs.Init.Starts.{AreSizes, memory, tfs_init_lem}
use so_ii.Fs.Inodes.Directories.{CreatesDirectory, inode_create-directory}
use so_ii.Fs.State.{unlock, taken, t_directory, State, t_file, lock, ok}
use so_ii.Fs.Returns.{Returns}
use so_ii.Fs.Inodes.{inode_create}
use so_ii.Fs.Inodes.Create.{Creates, inode_create-file}
use so_ii.Fs.Directory.{find_in_dir, clear_dir_entry}
use so_ii.Fs.Directory.Find.{Finds}
use so_ii.Fs.Directory.Clear.{Clears}
use so_ii.Fs.Directory.Root.{find_in_dir-Finds, clear_dir_entry-Clears}
use so_ii.Fs.Invariant.{IsValid, Linked, root_addr, root_entries}
use so_ii.Fs.Invariant.Handles.{HasFiles-moved}
use so_ii.Fs.Operations.{
  valid_pathname, skip_slash, Path?, Pthread, tfs_open, tfs_close, tfs_write, tfs_read, tfs_unlink,
  ensure_block, read_body,
}
use so_ii.Fs.Operations.Open.{OpenOutcome}
use so_ii.Fs.Operations.Unlink.{UnlinkOutcome}
use so_ii.Fs.Operations.Close.{Closes}
use so_ii.Fs.Operations.Space.{Spaces, ensure_block_lem}
use so_ii.Fs.Operations.Write.{advanced, WriteOutcome}
use so_ii.Fs.Operations.Read.{moved, bytes_of, ReadOutcome, read_past_end}
use so_ii.Fs.Operations.Lock.{called, NeverFails, Between, LockedOnce}
use so_ii.Fs.Operations.RoundTrip.{write_then_read, write_then_read_lem}
use so_ii.Fs.Operations.Reused.{Shares, unlink_then_open, removed_file_reused}
use so_ii.Fs.Operations.Shut.{tfs_write_read_shut}
use so_ii.Fs.Operations.Calls.{
  tfs_open_lem, tfs_unlink_lem, tfs_write_lem, tfs_read_lem, tfs_close_lem,
}
use so_ii.Fs.Example.{
  one_file, name_a, one_file-IsValid, handle-IsOpen, file_a, entry_a, root-Linked,
}

-- A mutex on which every call succeeds.
abbrev quiet : Pthread
quiet calls call = pos 0

quiet-NeverFails : NeverFails quiet
quiet-NeverFails calls call e = cc

abbrev path_a : Path?
path_a = some (b'/' ∷ name_a)

abbrev path_b : Path?
path_b = some (b'/' ∷ b'b' ∷ [])

abbrev path_none : Path?
path_none = some []

tfs_open_lem_example :
    Returns
      (λ z s'.
        IsValid 0 s'
        × Between (OpenOutcome 0 (called one_file lock) path_b 1) z s'
        × LockedOnce one_file s')
      (tfs_open quiet path_b 1 one_file)
tfs_open_lem_example =
    tfs_open_lem one_file quiet path_b 1 quiet-NeverFails one_file-IsValid
      (ground arith, (ground arith, tt))

tfs_unlink_lem_example :
    Returns
      (λ z s'.
        IsValid 0 s'
        × Between (UnlinkOutcome 0 (called one_file lock) path_a) z s'
        × LockedOnce one_file s')
      (tfs_unlink quiet path_a one_file)
tfs_unlink_lem_example =
    tfs_unlink_lem one_file quiet path_a quiet-NeverFails one_file-IsValid
      (ground arith, (ground arith, tt))

abbrev bytes : List ℕ
bytes = b'x' ∷ b'y' ∷ b'z' ∷ []

tfs_write_lem_example :
    Returns
      (λ z s'.
        IsValid 0 s'
        × Between (WriteOutcome (called one_file lock) 1 0 bytes (min 3 (88 - 0))) z s'
        × LockedOnce one_file s')
      (tfs_write quiet (pos 0) bytes 3 one_file)
tfs_write_lem_example =
    tfs_write_lem one_file quiet 1 0 3 bytes quiet-NeverFails one_file-IsValid handle-IsOpen refl
      (omega arith) (omega arith) (omega arith)

tfs_read_lem_example :
    Returns
      (λ reply s'.
        IsValid 0 s'
        × Between (ReadOutcome (called one_file lock) 1 0 (min 5 (2 - 0))) reply s'
        × LockedOnce one_file s')
      (tfs_read quiet (pos 0) 5 one_file)
tfs_read_lem_example =
    tfs_read_lem one_file quiet 1 0 5 quiet-NeverFails one_file-IsValid handle-IsOpen refl
      (omega arith)

tfs_close_lem_example :
    Returns
      (λ z s'.
        IsValid 0 s'
        × Between (Closes (called one_file lock) (pos 0)) z s'
        × LockedOnce one_file s')
      (tfs_close quiet (pos 0) one_file)
tfs_close_lem_example = tfs_close_lem one_file quiet (pos 0) quiet-NeverFails one_file-IsValid

find_in_dir-Finds_example :
    (z : ℤ) × (find_in_dir 0 name_a one_file ≡ ok z one_file)
    × Finds one_file.fs_data.at (root_addr 0 one_file) (root_entries one_file) name_a z
find_in_dir-Finds_example = find_in_dir-Finds (one_file-IsValid.core) name_a (ground arith, tt)

abbrev name_b : List ℕ
name_b = b'b' ∷ []

not_bound : (k : ℕ) → ¬ Linked 0 one_file name_b k
not_bound k l = let (e, i) = root-Linked name_b k l in ground (arith, e)

clear_dir_entry-Clears_example :
    (s' : State) × (clear_dir_entry 0 name_a one_file ≡ ok (pos 0) s')
    × Clears one_file (root_addr 0 one_file) (root_entries one_file) name_a 1 s'
clear_dir_entry-Clears_example =
    clear_dir_entry-Clears (one_file-IsValid.core) name_a 1 (0, omega arith, entry_a)

-- The handle has been moved past the end of the file.
past-IsValid : IsValid 0 (moved one_file 0 5)
past-IsValid = record {
  core = HasFiles-moved 0 (advanced one_file 0 5) refl (one_file-IsValid.core);
  links = one_file-IsValid.links;
}

read_past_end_example :
    read_body (pos 0) 4 (moved one_file 0 5)
    ≡ ok (pos 4, bytes_of (moved one_file 0 5) 0 1 4) (moved (moved one_file 0 5) 0 4)
read_past_end_example =
    read_past_end 1 0 4 past-IsValid (record { small = omega arith; is_taken = refl }) refl 1
      (omega arith) refl (omega arith) (omega arith) (omega arith)

-- A first start, on a disk of zeros.
sizes-AreSizes : AreSizes (one_file.fs_params)
sizes-AreSizes = omega arith

abbrev zeros : Mallocs
zeros = memory (λ n. no_inode) (λ n. taken) (λ x. 0) (λ n. taken) (λ h. no_open_file) (λ h. taken)

tfs_init_lem_example :
    Returns
      (λ z s'.
        (z ≡ pos 0)
        × IsValid 0 s'
        × (s'.fs_params ≡ one_file.fs_params)
        × ((name : List ℕ) (n : ℕ) → ¬ Linked 0 s' name n)
        × ((h : ℕ) → ¬ IsOpen s' h))
      (tfs_init zeros (some (one_file.fs_params)) start)
tfs_init_lem_example =
    tfs_init_lem (one_file.fs_params) sizes-AreSizes (λ n. no_inode) (λ n. taken) (λ x. 0)
      (λ n. taken) (λ h. no_open_file) (λ h. taken) λ e p. refl

write_then_read_lem_example :
    Returns
      (λ reply s'. IsValid 0 s' × (reply ≡ (pos 3, bytes)))
      (write_then_read 1 0 bytes 3 one_file)
write_then_read_lem_example =
    write_then_read_lem 1 0 3 bytes one_file-IsValid handle-IsOpen refl refl refl (omega arith)
      (omega arith) (omega arith) 2 (omega arith) refl 1 (omega arith) refl

minus_five : (h : ℕ) → negsuc 4 ≡ pos h → ¬ IsOpen one_file h
minus_five h e o = cc

tfs_write_read_shut_example :
    Returns
      (λ z s'. (z ≡ minus_one) × (s' ≡ called (called one_file lock) unlock))
      (tfs_write quiet (negsuc 4) bytes 3 one_file)
    × Returns
        (λ reply s'. (reply ≡ (minus_one, [])) × (s' ≡ called (called one_file lock) unlock))
        (tfs_read quiet (negsuc 4) 3 one_file)
tfs_write_read_shut_example =
    tfs_write_read_shut one_file quiet (negsuc 4) bytes 3 quiet-NeverFails one_file-IsValid
      minus_five
