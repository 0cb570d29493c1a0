-- ===== src/Fs/History/Spec.antt =====
-- What is promised of the calls: files are lists of bytes that names and handles lead to.
use so_ii.Prelude.{
  ℕ, ◌+◌, ◌≤◌, ◌≡◌, ◌≢◌, ◌⊎◌, false, true, List, [], ◌∷◌, ℤ, pos, minus_one, length, take, drop,
  if◌then◌else◌,
}
use mathlib.Core.Logic.{◌↔◌}
use so_ii.Fs.State.{State, free}
use so_ii.Fs.Tables.Search.{AllTaken}
use so_ii.Fs.Tables.Files.{IsOpen}
use so_ii.Fs.Invariant.{Linked}
use so_ii.Fs.Operations.{Path?, Reply, truncates, appends, creates, skip_slash, valid_pathname}
use so_ii.Fs.Operations.Write.{entry_at}
use so_ii.Fs.Operations.Create.{NoEntry}
use so_ii.Fs.Inodes.{max_file_name}
use so_ii.Fs.Contents.{content, splice, SameContents}
use so_ii.Fs.Contents.Write.{SameOthers}
use so_ii.Fs.History.{FileCall, open_file, close, read, write, unlink}

-- Every name leads where it led.
abbrev pub SameLinks : (r : ℕ) → State → State → Type 0
SameLinks r s s' = (name : List ℕ) (k : ℕ) → Linked r s name k ↔ Linked r s' name k

-- `name` leads to `n`, and every other name where it led.
abbrev pub Links : (r : ℕ) → State → List ℕ → ℕ → State → Type 0
Links r s name n s' =
    Linked r s' name n
    × ((other : List ℕ) (k : ℕ) → Linked r s other k → Linked r s' other k)
    × ((other : List ℕ) (k : ℕ)
        → Linked r s' other k
        → ((other ≡ name) × (k ≡ n)) ⊎ Linked r s other k)

-- `name` leads nowhere, and every other name where it led.
abbrev pub Unlinks : (r : ℕ) → State → List ℕ → State → Type 0
Unlinks r s name s' =
    ((k : ℕ) → ¬ Linked r s' name k)
    × ((other : List ℕ) (k : ℕ) → other ≢ name → Linked r s other k ↔ Linked r s' other k)

-- A handle stays open or closed, and where it stands.
abbrev pub SameHandle : State → State → ℕ → Type 0
SameHandle s s' k = (IsOpen s k ↔ IsOpen s' k) × (entry_at s' k ≡ entry_at s k)

abbrev pub SameHandles : State → State → Type 0
SameHandles s s' = (k : ℕ) → SameHandle s s' k

-- Every handle but `h` does.
abbrev pub OtherHandles : State → (h : ℕ) → State → Type 0
OtherHandles s h s' = (k : ℕ) → h ≢ k → SameHandle s s' k

-- Handle `h` is open on file `n` and goes on by `count` bytes, and no other handle changes.
pub record Moves (s : State) (h n count : ℕ) (s' : State) : Type 0 where
  pub before : IsOpen s h
  pub after : IsOpen s' h
  pub leads : (entry_at s h).of_inumber ≡ pos n
  pub still_leads : (entry_at s' h).of_inumber ≡ pos n
  pub offset : (entry_at s' h).of_offset ≡ (entry_at s h).of_offset + count
  pub others : OtherHandles s h s'

-- Nothing changes.
abbrev pub Untouched : (r : ℕ) → State → State → Type 0
Untouched r s s' = SameContents s s' × SameLinks r s s' × SameHandles s s'

-- The file that `path` names is as it was, or empty where the mode has TFS_O_TRUNC, or new where the
-- mode has TFS_O_CREAT and there was none.
pub data Prepares (r : ℕ) (s : State) (path : Path?) (mode n : ℕ) (s' : State) : Type 0 where
  found :
      Linked r s (skip_slash path) n
      → truncates mode ≡ false
      → SameContents s s'
      → SameLinks r s s'
      → Prepares r s path mode n s'
  emptied :
      Linked r s (skip_slash path) n
      → truncates mode ≡ true
      → SameOthers s n s'
      → content s' n ≡ []
      → SameLinks r s s'
      → Prepares r s path mode n s'
  created :
      ((k : ℕ) → ¬ Linked r s (skip_slash path) k)
      → creates mode ≡ true
      → SameContents s s'
      → content s' n ≡ []
      → Links r s (skip_slash path) n s'
      → Prepares r s path mode n s'

-- The path is wrong, or it names no file and none is to be made, or no inode is free, or the name is
-- too long, or the directory is full.
abbrev pub Unopened : (r : ℕ) → State → Path? → (mode : ℕ) → Type 0
Unopened r s path mode =
    (valid_pathname path ≡ false)
    ⊎ (((k : ℕ) → ¬ Linked r s (skip_slash path) k)
        × ((creates mode ≡ false)
            ⊎ (AllTaken s.freeinode_ts.at 0 s.fs_params.max_inode_count
                ⊎ ((max_file_name ≤ length (skip_slash path)) ⊎ NoEntry r s))))

-- The call is on the handle.
abbrev pub On : ℤ → FileCall → Type 0
On z (open_file path mode) = ⊥
On z (close fhandle) = fhandle ≡ z
On z (read fhandle len) = fhandle ≡ z
On z (write fhandle buffer) = fhandle ≡ z
On z (unlink path) = ⊥

-- What a call promises: the reply, and the names and contents after it.
pub data Follows (r : ℕ) (s : State) : FileCall → Reply → State → Type 0 where
  -- An opening that returns -1 and changes nothing.
  refused :
      {path : Path?} {mode : ℕ} {s' : State}
      → Unopened r s path mode
      → Untouched r s s'
      → Follows r s (open_file path mode) (minus_one, []) s'
  -- One that returns -1 for want of a handle, and has made or truncated the file.
  no_handle :
      {path : Path?} {mode : ℕ} {s' : State}
      → (n : ℕ) → valid_pathname path ≡ true
      → Prepares r s path mode n s'
      → SameHandles s s'
      → AllTaken s'.free_open_file_entries.at 0 s'.fs_params.max_open_files_count
      → Follows r s (open_file path mode) (minus_one, []) s'
  -- The handle stands at the start or, to append, at the end.
  opened :
      {path : Path?} {mode : ℕ} {s' : State}
      → (h n : ℕ) → valid_pathname path ≡ true
      → Prepares r s path mode n s'
      → OtherHandles s h s'
      → ¬ IsOpen s h
      → IsOpen s' h
      → (entry_at s' h).of_inumber ≡ pos n
      → (entry_at s' h).of_offset ≡ (if appends mode then length (content s' n) else 0)
      → Follows r s (open_file path mode) (pos h, []) s'
  -- Nothing changes through a handle that is not open.
  shut :
      {c : FileCall} {s' : State}
      → (fhandle : ℤ) → On fhandle c
      → ((h : ℕ) → fhandle ≡ pos h → ¬ IsOpen s h)
      → Untouched r s s'
      → Follows r s c (minus_one, []) s'
  -- Nor by a write to an empty file on a full disk.
  full :
      {buffer : List ℕ} {s' : State}
      → (h : ℕ) → AllTaken s.free_blocks.at 0 s.fs_params.max_block_count
      → Untouched r s s'
      → Follows r s (write (pos h) buffer) (minus_one, []) s'
  closed :
      {s' : State}
      → (h : ℕ) → SameContents s s'
      → SameLinks r s s'
      → OtherHandles s h s'
      → IsOpen s h
      → ¬ IsOpen s' h
      → Follows r s (close (pos h)) (pos 0, []) s'
  -- The bytes from the offset on, as many as there are and as are asked for.
  gave :
      {len : ℕ} {s' : State}
      → (h n : ℕ) (bytes : List ℕ) → SameContents s s'
      → SameLinks r s s'
      → Moves s h n (length bytes) s'
      → bytes ≡ take len (drop (entry_at s h).of_offset (content s n))
      → Follows r s (read (pos h) len) (pos (length bytes), bytes) s'
  -- The bytes that fit the block, at the offset.
  took :
      {buffer : List ℕ} {s' : State}
      → (h n count : ℕ) → SameOthers s n s'
      → SameLinks r s s'
      → Moves s h n count s'
      → count ≤ length buffer
      → (count ≡ length buffer) ⊎ ((entry_at s h).of_offset + count ≡ s.fs_params.block_size)
      → content s' n ≡ splice (entry_at s h).of_offset (take count buffer) (content s n)
      → Follows r s (write (pos h) buffer) (pos count, []) s'
  -- The name is gone, and its file is no longer in use.
  removed :
      {path : Path?} {s' : State}
      → (n : ℕ) → valid_pathname path ≡ true
      → Linked r s (skip_slash path) n
      → SameOthers s n s'
      → s'.freeinode_ts.at n ≡ free
      → SameHandles s s'
      → Unlinks r s (skip_slash path) s'
      → Follows r s (unlink path) (pos 0, []) s'
  not_there :
      {path : Path?} {s' : State}
      → (valid_pathname path ≡ false) ⊎ ((k : ℕ) → ¬ Linked r s (skip_slash path) k)
      → Untouched r s s'
      → Follows r s (unlink path) (minus_one, []) s'

-- Every call follows, from the state that the one before left.
pub data AllFollow (r : ℕ) : State → List FileCall → List Reply → State → Type 0 where
  none_left : {s : State} → AllFollow r s [] [] s
  next :
      {s s1 s2 : State} {c : FileCall} {cs : List FileCall} {reply : Reply} {replies : List Reply}
      → Follows r s c reply s1
      → AllFollow r s1 cs replies s2
      → AllFollow r s (c ∷ cs) (reply ∷ replies) s2
