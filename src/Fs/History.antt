-- ===== src/Fs/History.antt =====
-- Calls of fs/operations.c one after the other, by a program that neither truncates nor removes a
-- file that is open, and what they do to the names and the contents of the files.
pub mod Spec
pub mod Same
pub mod Locked
pub mod Handles
pub mod Unheld
pub mod Opened
pub mod Promises
pub mod Bytes
pub mod Calls
mod Tests
use so_ii.Prelude.{
  ℕ, zero, suc, ◌+◌, ◌≤◌, ◌<◌, ◌≡◌, ◌≢◌, ◌⊎◌, ◌^◌, false, true, List, [], ◌∷◌, none, some, ℤ, pos,
  minus_one, length, take, drop, if◌then◌else◌,
}
use mathlib.Core.Logic.{◌↔◌}
use so_ii.Fs.State.{State, Cmd, Run, ok, OpenFileEntry, taken, free, ◌>>=◌, pure}
use so_ii.Fs.Tables.Search.{AllTaken}
use so_ii.Fs.Tables.Files.{IsOpen}
use so_ii.Fs.Invariant.{IsValid, Linked, inode_at}
use so_ii.Fs.Operations.{
  Path?, Pthread, Reply, tfs_open, tfs_close, tfs_read, tfs_write, tfs_unlink, truncates, appends,
  creates, skip_slash, valid_pathname,
}
use so_ii.Fs.Operations.Open.{IsPath}
use so_ii.Fs.Operations.Write.{entry_at}
use so_ii.Fs.Contents.{content, splice, InUse, SameContents}
use so_ii.Fs.Contents.Write.{SameOthers}

pub data FileCall : Type 0 where
  open_file : (path : Path?) (mode : ℕ) → FileCall
  close : (fhandle : ℤ) → FileCall
  read : (fhandle : ℤ) (len : ℕ) → FileCall
  write : (fhandle : ℤ) (buffer : List ℕ) → FileCall
  unlink : (path : Path?) → FileCall

-- The result of a call, and what it reads.
pub perform : Pthread → FileCall → Cmd Reply
perform pthread (open_file path mode) = do z ← tfs_open pthread path mode; pure (z, [])
perform pthread (close fhandle) = do z ← tfs_close pthread fhandle; pure (z, [])
perform pthread (read fhandle len) = tfs_read pthread fhandle len
perform pthread (write fhandle buffer) = do
  z ← tfs_write pthread fhandle buffer (length buffer)
  pure (z, [])
perform pthread (unlink path) = do z ← tfs_unlink pthread path; pure (z, [])

pub perform_all : Pthread → List FileCall → Cmd (List Reply)
unfolding perform
perform_all pthread [] = pure []
perform_all pthread (c ∷ cs) = do
  reply ← perform pthread c
  replies ← perform_all pthread cs
  pure (reply ∷ replies)

-- No open handle leads to the file that `path` names.
abbrev pub Unheld : (r : ℕ) → State → Path? → Type 0
Unheld r s path =
    (n : ℕ)
    → Linked r s (skip_slash path) n
    → (h : ℕ) → IsOpen s h
    → (entry_at s h).of_inumber ≢ pos n

-- A path is NULL or a C string, no open file is truncated or removed, and a buffer fits the address
-- space.
abbrev pub Spares : (r : ℕ) → State → FileCall → Type 0
Spares r s (open_file path mode) = IsPath path × (truncates mode ≡ true → Unheld r s path)
Spares r s (close fhandle) = Unit
Spares r s (read fhandle len) = Unit
Spares r s (write fhandle buffer) = length buffer < 2 ^ 63
Spares r s (unlink path) = IsPath path × Unheld r s path

-- Every call does, in the state that it is made in.
abbrev pub AllSpare : Pthread → (r : ℕ) → State → List FileCall → Type 0
AllSpare pthread r s [] = Unit
AllSpare pthread r s (c ∷ cs) =
    Spares r s c
    × ((reply : Reply) (s' : State) → perform pthread c s ≡ ok reply s' → AllSpare pthread r s' cs)

-- Handle `h` leads to the file in use `n`, not past its end.
abbrev pub LeadsTo : State → (h n : ℕ) → Type 0
LeadsTo s h n =
    ((entry_at s h).of_inumber ≡ pos n)
    × InUse s n
    × ((entry_at s h).of_offset ≤ (inode_at s n).i_size)

-- Every open handle leads into a file in use.
abbrev pub HandlesInside : State → Type 0
HandlesInside s = (h : ℕ) → IsOpen s h → (n : ℕ) × LeadsTo s h n

abbrev pub IsCalm : (r : ℕ) → State → Type 0
IsCalm r s = IsValid r s × HandlesInside s
