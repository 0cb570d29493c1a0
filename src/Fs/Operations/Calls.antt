-- ===== src/Fs/Operations/Calls.antt =====
-- The operations as their callers see them: from a valid state to a valid state, with the mutex
-- taken and given back once.
use so_ii.Prelude.{
  ℕ, ◌+◌, ◌-◌, ◌^◌, ◌<◌, ◌≤◌, ◌≡◌, ◌∙◌, inl, inr, ap, List, ℤ, pos, length, Bool-cases,
}
use Prim.Native.Nat.{min}
use so_ii.Fs.State.{State, lock, MutexCall}
use so_ii.Fs.Returns.{Returns}
use so_ii.Fs.Tables.Files.{IsOpen, Opens}
use so_ii.Fs.Invariant.{IsValid, inode_at}
use so_ii.Fs.Operations.{
  Path?, Reply, Pthread, truncates, tfs_open, tfs_close, tfs_write, tfs_read, tfs_unlink,
}
use so_ii.Fs.Operations.Lock.{
  called, NeverFails, Between, LockedOnce, with_lock_lem, IsValid-called,
}
use so_ii.Fs.Operations.Existing
use so_ii.Fs.Operations.Existing.{Reopens}
use so_ii.Fs.Operations.Open
use so_ii.Fs.Operations.Open.{IsPath, OpenOutcome, open_body_lem}
use so_ii.Fs.Operations.Unlink
use so_ii.Fs.Operations.Unlink.{UnlinkOutcome, unlink_body_lem}
use so_ii.Fs.Operations.Close.{Closes, close_body_lem}
use so_ii.Fs.Operations.Write
use so_ii.Fs.Operations.Space.{Ensures}
use so_ii.Fs.Operations.Write.{entry_at, WriteOutcome, write_body_lem}
use so_ii.Fs.Operations.Read
use so_ii.Fs.Operations.Read.{ReadOutcome, read_body_lem}

Opens-calls :
    (s : State) (z : ℤ) (offset : ℕ) (r : ℤ) (s' : State)
    → Opens s z offset r s'
    → s'.mutex_calls ≡ s.mutex_calls
Opens-calls s z offset r s' (inl (h, e, f, same)) = ap (λ (t : State). t.mutex_calls) same
Opens-calls s z offset r s' (inr (e, f, same)) = ap (λ (t : State). t.mutex_calls) same

abbrev calls_of : State → List MutexCall
calls_of s = s.mutex_calls

Truncates-calls :
    (s : State) (n : ℕ) (s1 : State) → Existing.Truncates s n s1 → s1.mutex_calls ≡ s.mutex_calls
Truncates-calls s n s1 (inl (e, same)) = ap calls_of same
Truncates-calls s n s1 (inr (b, e, same)) = ap calls_of same

Reopens-calls :
    (s : State) (n mode : ℕ) (z : ℤ) (s' : State)
    → Reopens s n mode z s'
    → s'.mutex_calls ≡ s.mutex_calls
Reopens-calls s n mode z s' (s1, cut, opens) = elim (Bool-cases (truncates mode)) [
  | inl hit ↦ Opens-calls s1 _ _ z s' opens ∙ Truncates-calls s n s1 (rw hit at cut)
  | inr miss ↦ Opens-calls s1 _ _ z s' opens ∙ ap calls_of (rw miss at cut)
]

OpenOutcome-calls :
    (r : ℕ) (s : State) (path : Path?) (mode : ℕ) (z : ℤ) (s' : State)
    → OpenOutcome r s path mode z s'
    → s'.mutex_calls ≡ s.mutex_calls
OpenOutcome-calls r s path mode z s' (Open.rejected bad e same) = ap calls_of same
OpenOutcome-calls r s path mode z s' (Open.reopened n good' l o) = Reopens-calls s n mode z s' o
OpenOutcome-calls r s path mode z s'
      (Open.made good' new on (inl (n, g, f, inserts, only, opens))) =
    Opens-calls _ _ _ z s' opens
OpenOutcome-calls r s path mode z s' (Open.made good' new on (inr (e, inl (same, full)))) =
    ap calls_of same
OpenOutcome-calls r s path mode z s' (Open.made good' new on (inr (e, inr (n, f, same, why)))) =
    ap calls_of same
OpenOutcome-calls r s path mode z s' (Open.missing good' new off e same) = ap calls_of same

UnlinkOutcome-calls :
    (r : ℕ) (s : State) (path : Path?) (z : ℤ) (s' : State)
    → UnlinkOutcome r s path z s'
    → s'.mutex_calls ≡ s.mutex_calls
UnlinkOutcome-calls r s path z s' (Unlink.rejected bad e same) = ap calls_of same
UnlinkOutcome-calls r s path z s' (Unlink.missing good' new e same) = ap calls_of same
UnlinkOutcome-calls r s path z s' (Unlink.removed n good' l (fb, g, e, f, same, removes, only)) =
    ap calls_of same

Closes-calls :
    (s : State) (fhandle z : ℤ) (s' : State)
    → Closes s fhandle z s'
    → s'.mutex_calls ≡ s.mutex_calls
Closes-calls s fhandle z s' (inl (h, e, o, f, same)) = ap calls_of same
Closes-calls s fhandle z s' (inr (shut, e, same)) = ap calls_of same

Ensures-calls :
    (s : State) (n b : ℕ) (s1 : State) → Ensures s n b s1 → s1.mutex_calls ≡ s.mutex_calls
Ensures-calls s n b s1 (inl (q, block, same)) = ap calls_of same
Ensures-calls s n b s1 (inr (empty, first, same)) = ap calls_of same

WriteOutcome-calls :
    (s : State) (n h : ℕ) (buffer : List ℕ) (count : ℕ) (z : ℤ) (s' : State)
    → WriteOutcome s n h buffer count z s'
    → s'.mutex_calls ≡ s.mutex_calls
WriteOutcome-calls s n h buffer count z s' (Write.nothing e f same) = ap calls_of same
WriteOutcome-calls s n h buffer count z s' (Write.no_space q full e same) = ap calls_of same
WriteOutcome-calls s n h buffer count z s' (Write.done q b s1 ensures e same) =
    ap calls_of same ∙ Ensures-calls s n b s1 ensures

ReadOutcome-calls :
    (s : State) (n h count : ℕ) (reply : Reply) (s' : State)
    → ReadOutcome s n h count reply s'
    → s'.mutex_calls ≡ s.mutex_calls
ReadOutcome-calls s n h count reply s' (Read.nothing e f same) = ap calls_of same
ReadOutcome-calls s n h count reply s' (Read.done q b block e same) = ap calls_of same

IsOpen-called : (s : State) (h : ℕ) (call : MutexCall) → IsOpen s h → IsOpen (called s call) h
IsOpen-called s h call o = record { small = o.small; is_taken = o.is_taken }

-- From a valid state and for a path that is NULL or a C string, where the pthread calls never
-- return -1: `tfs_open` returns, in a valid state, having locked and unlocked the mutex once; and
-- between the two calls the outcome is one of `OpenOutcome`: a bad path is rejected, a linked name
-- is reopened, an unlinked one is created, unless no inode or no entry is free or the name is too
-- long, or, without TFS_O_CREAT, reported missing.
pub tfs_open_lem :
    {r : ℕ} (s : State) (pthread : Pthread) (path : Path?) (mode : ℕ)
    → NeverFails pthread
    → IsValid r s
    → IsPath path
    → Returns
        (λ z s'.
          IsValid r s' × Between (OpenOutcome r (called s lock) path mode) z s' × LockedOnce s s')
        (tfs_open pthread path mode s)
unfolding tfs_open
tfs_open_lem {r} s pthread path mode never v is =
    with_lock_lem pthread never s _ _ _ (open_body_lem path mode (IsValid-called lock v) is)
      λ z t p. OpenOutcome-calls r (called s lock) path mode z t p

-- From a valid state and for a path that is NULL or a C string, where the pthread calls never
-- return -1: `tfs_unlink` returns, in a valid state, having locked and unlocked the mutex once; and
-- between the two calls a bad path or a name without a link gives -1 and no change, while for a
-- linked name the result is 0, the directory loses that name and no other and has an empty entry,
-- and the inode of the file and its block, if it has one, become free.
pub tfs_unlink_lem :
    {r : ℕ} (s : State) (pthread : Pthread) (path : Path?)
    → NeverFails pthread
    → IsValid r s
    → IsPath path
    → Returns
        (λ z s'.
          IsValid r s' × Between (UnlinkOutcome r (called s lock) path) z s' × LockedOnce s s')
        (tfs_unlink pthread path s)
unfolding tfs_unlink
tfs_unlink_lem {r} s pthread path never v is =
    with_lock_lem pthread never s _ _ _ (unlink_body_lem path (IsValid-called lock v) is)
      λ z t p. UnlinkOutcome-calls r (called s lock) path z t p

-- From a valid state, where the pthread calls never return -1: `tfs_close` returns, in a valid
-- state, having locked and unlocked the mutex once; and between the two calls an open handle is
-- closed with result 0, and for any other integer the result is -1 and nothing changes.
pub tfs_close_lem :
    {r : ℕ} (s : State) (pthread : Pthread) (fhandle : ℤ)
    → NeverFails pthread
    → IsValid r s
    → Returns
        (λ z s'. IsValid r s' × Between (Closes (called s lock) fhandle) z s' × LockedOnce s s')
        (tfs_close pthread fhandle s)
unfolding tfs_close
tfs_close_lem s pthread fhandle never v =
    with_lock_lem pthread never s _ _ _ (close_body_lem fhandle (IsValid-called lock v))
      λ z t p. Closes-calls (called s lock) fhandle z t p

-- From a valid state, for an open handle on inode `n` whose offset is not past the end of the file,
-- where the pthread calls never return -1: `tfs_read` returns, in a valid state, having locked and
-- unlocked the mutex once; and between the two calls it has read the `min len (size - offset)`
-- bytes of the file's block at the offset and moved the offset by that number, or changed nothing
-- where the number is 0.
pub tfs_read_lem :
    {r : ℕ} (s : State) (pthread : Pthread) (n h len : ℕ)
    → NeverFails pthread
    → IsValid r s
    → IsOpen s h
    → (entry_at s h).of_inumber ≡ pos n
    → (entry_at s h).of_offset ≤ (inode_at s n).i_size
    → Returns
        (λ reply s'.
          IsValid r s'
          × Between
              (ReadOutcome
                (called s lock)
                n
                h
                (min len ((inode_at s n).i_size - (entry_at s h).of_offset)))
              reply
              s'
          × LockedOnce s s')
        (tfs_read pthread (pos h) len s)
unfolding tfs_read
tfs_read_lem s pthread n h len never v o inode inside =
    with_lock_lem pthread never s _ _ _
      (read_body_lem n h len (IsValid-called lock v) (IsOpen-called s h lock o) inode inside)
      λ reply t p. ReadOutcome-calls (called s lock) n h _ reply t p

-- From a valid state, for an open handle on inode `n` whose offset is inside the block, a buffer
-- of at least `to_write` bytes and an end below 2^64, where the pthread calls never return -1:
-- `tfs_write` returns, in a valid state, having locked and unlocked the mutex once; and between the
-- two calls the first `min to_write (block_size - offset)` bytes of the buffer have gone to the
-- file's block at the offset (a block allocated for it if it was empty), the offset has moved and
-- the size has grown to it; or there was nothing to write, or no free block and the result is -1.
pub tfs_write_lem :
    {r : ℕ} (s : State) (pthread : Pthread) (n h to_write : ℕ) (buffer : List ℕ)
    → NeverFails pthread
    → IsValid r s
    → IsOpen s h
    → (entry_at s h).of_inumber ≡ pos n
    → (entry_at s h).of_offset ≤ s.fs_params.block_size
    → (entry_at s h).of_offset + to_write < 2 ^ 64
    → to_write ≤ length buffer
    → Returns
        (λ z s'.
          IsValid r s'
          × Between
              (WriteOutcome
                (called s lock)
                n
                h
                buffer
                (min to_write (s.fs_params.block_size - (entry_at s h).of_offset)))
              z
              s'
          × LockedOnce s s')
        (tfs_write pthread (pos h) buffer to_write s)
unfolding tfs_write
tfs_write_lem s pthread n h to_write buffer never v o inode inside no_wrap enough =
    with_lock_lem pthread never s _ _ _
      (write_body_lem n h to_write buffer (IsValid-called lock v) (IsOpen-called s h lock o) inode
        inside no_wrap enough)
      λ z t p. WriteOutcome-calls (called s lock) n h buffer _ z t p
