-- ===== src/Fs/History/Calls.antt =====
-- Every call of a program that truncates and removes no open file returns, and keeps its promise.
use so_ii.Prelude.{
  ℕ, ◌+◌, ◌^◌, ◌<◌, ◌≡◌, arith, inl, inr, refl, List, [], ◌∷◌, ℤ, pos, minus_one, length,
}
use so_ii.Fs.State.{State, Run, ok, lock, unlock}
use so_ii.Fs.Returns.{Returns, returns}
use so_ii.Fs.Returns
use so_ii.Fs.Tables.Files.{IsOpen, get_open_file_entry_cases}
use so_ii.Fs.Invariant.{IsValid}
use so_ii.Fs.Operations.{Pthread, Reply, Path?}
use so_ii.Fs.Operations.Lock.{NeverFails, called, IsValid-called}
use so_ii.Fs.Operations.Write.{entry_at}
use so_ii.Fs.Operations.Calls.{
  tfs_open_lem, tfs_close_lem, tfs_read_lem, tfs_write_lem, tfs_unlink_lem,
}
use so_ii.Fs.Operations.Shut.{tfs_write_read_shut}
use so_ii.Fs.Contents.{content}
use so_ii.Fs.History.Spec.{AllFollow, Follows, On}
use so_ii.Fs.History.{
  FileCall, open_file, close, read, write, perform, perform_all, unlink, Unheld, Spares, AllSpare,
  LeadsTo, HandlesInside, IsCalm,
}
use so_ii.Fs.Tables.Blocks.{block_fits}
use so_ii.Fs.History.Bytes.{reads, writes, in_block}
use so_ii.Fs.History.Same.{one_handle}
use so_ii.Fs.History.Locked.{called-HandlesInside, called-IsOpen, Follows-called}
use so_ii.Fs.History.Promises.{closes, opens, unlinks}
use so_ii.Fs.History.Opened.{Keeps}

Unheld-called : (r : ℕ) (s : State) (path : Path?) → Unheld r s path → Unheld r (called s lock) path
Unheld-called r s path unheld n l h o =
    unheld n l h (record { small = o.small; is_taken = o.is_taken })

module _ (pthread : Pthread) (never : NeverFails pthread) {r : ℕ} where
  -- From the body of a call to the call.
  whole :
      (s t s' : State) (c : FileCall) (reply : Reply)
      → IsValid r s'
      → s' ≡ called t unlock
      → Keeps r (called s lock) c reply t
      → IsCalm r s' × Follows r s c reply s'
  whole s t s' c reply w e (inside, follows) =
      ((w, rw e (called-HandlesInside unlock inside)), rw e (Follows-called r s t c reply follows))

  shut_whole :
      (s : State) (c : FileCall) (fhandle : ℤ)
      → On fhandle c
      → IsValid r s
      → HandlesInside s
      → ((h : ℕ) → fhandle ≡ pos h → ¬ IsOpen s h)
      → IsCalm r (called (called s lock) unlock)
        × Follows r s c (minus_one, []) (called (called s lock) unlock)
  unfolding content
  shut_whole s c fhandle on w v shut = (
    (
      IsValid-called unlock (IsValid-called lock w),
      called-HandlesInside unlock (called-HandlesInside lock v),
    ),
    Follows.shut fhandle on shut (
      λ k u. (u, refl),
      λ name k. (λ l. l, λ l. l),
      λ k. one_handle s (called (called s lock) unlock) k refl refl refl,
    ),
  )

  end_fits :
      {s : State} (h n : ℕ) (o : IsOpen s h) (leads : LeadsTo s h n)
      → IsValid r s
      → (buffer : List ℕ) → HandlesInside s
      → length buffer < 2 ^ 63
      → (entry_at s h).of_offset + length buffer < 2 ^ 64
  end_fits {s} h n o leads w buffer v small = omega (
    arith,
    in_block r v w h n o leads,
    w.core.tables,
    block_fits r s.fs_params.max_block_count s.fs_params.block_size w.core.root_small,
  )

  pub perform-Follows :
      (c : FileCall) (s : State)
      → Spares r s c
      → IsCalm r s
      → Returns (λ reply s'. IsCalm r s' × Follows r s c reply s') (perform pthread c s)
  unfolding perform
  perform-Follows (open_file path mode) s (is, plain) (w, v) =
      Returns.bind (tfs_open_lem s pthread path mode never w is) λ z s' (w', (t, o, e), _).
        returns (
          whole s t s' (open_file path mode) (z, []) w' e
            (opens r (called-HandlesInside lock v) (IsValid-called lock w) path mode z t
              (λ on. Unheld-called r s path (plain on)) (rw (e) at w').links o))
  perform-Follows (close fhandle) s plain (w, v) =
      Returns.bind (tfs_close_lem s pthread fhandle never w) λ z s' (w', (t, o, e), _). returns (
        whole s t s' (close fhandle) (z, []) w' e
          (closes r (called-HandlesInside lock v) (IsValid-called lock w) fhandle z t o))
  perform-Follows (read fhandle len) s plain (w, v) =
      elim (get_open_file_entry_cases fhandle w.core.tables) [
        | inl (h, e, o) ↦
            let (n, leads) = v h o in
            rw e (
              Returns.mono (tfs_read_lem s pthread n h len never w o leads.0 leads.2)
                λ reply s' (w', (t, out, e'), _). whole s t s' (read (pos h) len) reply w' e' (
                  reads r (called-HandlesInside lock v) (IsValid-called lock w) h n
                    (called-IsOpen o) leads len reply t out))
        | inr (shut, _) ↦
            Returns.mono (tfs_write_read_shut s pthread fhandle [] len never w shut).1
              λ reply s' (e, same).
                rw (e, same) (shut_whole s (read fhandle len) fhandle refl w v shut)
      ]
  perform-Follows (write fhandle buffer) s plain (w, v) =
      elim (get_open_file_entry_cases fhandle w.core.tables) [
        | inl (h, e, o) ↦
            let (n, leads) = v h o in
            rw e (
              Returns.bind
                (tfs_write_lem s pthread n h (length buffer) buffer never w o leads.0
                  (in_block r v w h n o leads) (end_fits h n o leads w buffer v plain)
                  (omega arith))
                λ z s' (w', (t, out, e'), _). returns (
                  whole s t s' (write (pos h) buffer) (z, []) w' e'
                    (writes r (called-HandlesInside lock v) (IsValid-called lock w) h n
                      (called-IsOpen o) leads buffer z t out)))
        | inr (shut, _) ↦
            Returns.bind
              (tfs_write_read_shut s pthread fhandle buffer (length buffer) never w shut).0
              λ z s' (e, same).
                rw (e, same) (returns (shut_whole s (write fhandle buffer) fhandle refl w v shut))
      ]
  perform-Follows (unlink path) s (is, unheld) (w, v) =
      Returns.bind (tfs_unlink_lem s pthread path never w is) λ z s' (w', (t, o, e), _). returns (
        whole s t s' (unlink path) (z, []) w' e
          (unlinks r (called-HandlesInside lock v) (IsValid-called lock w) path z t
            (Unheld-called r s path unheld) o))

ran :
    {A : Type 0} {P : A → State → Type 0} {run : Run A}
    → Returns P run
    → (a : A) × (s : State) × (run ≡ ok a s) × P a s
ran (returns p) = (_, _, refl, p)

-- A program that calls `tfs_open`, `tfs_close`, `tfs_read`, `tfs_write` and `tfs_unlink` in any order
-- and with any arguments, but truncates and removes no file that is open, from a valid state in
-- which every open handle leads into a file in use: every call returns, no assertion fails and no
-- access is out of bounds, and what it returns and leaves is what is promised of files as lists of
-- bytes with names. An opening finds the file of the name, empties it or makes a new one, and puts
-- the handle at the start or the end; it returns -1 where no handle is free, also behind a file that
-- it has emptied or made, and changes nothing where the path is wrong, or where it names no file and
-- none is to be made or there is no inode or no entry for one or its name is too long. A read gives
-- the bytes from the offset on; a write replaces those at the offset, as far as the block goes; a
-- removal takes the name away and frees its file; and no other file, name or handle changes. The end
-- is such a state again. Paths are NULL or C strings, buffers shorter than 2^63 bytes, and the
-- pthread calls never return -1.
pub perform_all-AllFollow :
    (pthread : Pthread) {r : ℕ} (cs : List FileCall) (s : State)
    → NeverFails pthread
    → AllSpare pthread r s cs
    → IsCalm r s
    → Returns (λ replies s'. IsCalm r s' × AllFollow r s cs replies s') (perform_all pthread cs s)
unfolding perform_all
perform_all-AllFollow pthread [] s never spare calm = returns (calm, AllFollow.none_left)
perform_all-AllFollow pthread (c ∷ cs) s never (spares, spare) calm =
    let (reply, s1, e, (calm1, follows)) = ran (perform-Follows pthread never c s spares calm) in
    rw e (
      Returns.bind (perform_all-AllFollow pthread cs s1 never (spare reply s1 e) calm1)
        λ replies s2 (calm2, all). returns (calm2, AllFollow.next follows all))
