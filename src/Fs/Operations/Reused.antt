-- ===== src/Fs/Operations/Reused.antt =====
-- A file that is removed while a handle is open on it, and the file that is made next.
use so_ii.Prelude.{
  ℕ, ◌<◌, ◌≡◌, ◌≢◌, ◌∙◌, refl, ap, sym, true, arith, ℤ, pos, length, Array, update_self, update_ne,
}
use so_ii.Fs.State.{
  State, OpenFileEntry, AllocationState, free, taken, lock, unlock, Cmd, pure, ◌>>=◌,
}
use so_ii.Fs.Returns.{Returns, returns}
use so_ii.Fs.Returns
use so_ii.Fs.Tables.Files.{IsOpen}
use so_ii.Fs.Inodes.{max_file_name}
use so_ii.Fs.Directory.Fill.{with_bytes}
use so_ii.Fs.Directory.Update.{Removes}
use so_ii.Fs.Invariant.{IsValid, Linked, root_addr, root_entries}
use so_ii.Fs.Operations.{Path?, Pthread, creates, valid_pathname, skip_slash, tfs_open, tfs_unlink}
use so_ii.Fs.Operations.Lock.{called, NeverFails, IsValid-called}
use so_ii.Fs.Operations.Open.{IsPath}
use so_ii.Fs.Operations.Unlink.{given_back}
use so_ii.Fs.Operations.Write.{entry_at}
use so_ii.Fs.Operations.Calls.{tfs_open_lem, tfs_unlink_lem}
use so_ii.Fs.Operations.Remade.{Made, made, gone}

-- A removal of `old`, and an opening of `new`.
abbrev pub unlink_then_open : Pthread → (old new : Path?) (mode : ℕ) → Cmd (ℤ × ℤ)
unlink_then_open pthread old new mode = do
  z ← tfs_unlink pthread old
  k ← tfs_open pthread new mode
  pure (z, k)

-- Two handles, `h` and another, lead to the file `n` that `new` names.
abbrev pub Shares : (r : ℕ) (new : Path?) (n h : ℕ) → ℤ × ℤ → State → Type 0
Shares r new n h reply s' =
    (h' : ℕ) × (reply ≡ (pos 0, pos h'))
    × (h ≢ h')
    × Linked r s' (skip_slash new) n
    × IsOpen s' h
    × ((entry_at s' h).of_inumber ≡ pos n)
    × IsOpen s' h'
    × ((entry_at s' h').of_inumber ≡ pos n)

-- A handle that is open stays so, beside the new one.
Made-Shares :
    (r : ℕ) (s : State) (new : Path?) (n h : ℕ) (z : ℤ) (s' : State)
    → IsOpen s h
    → (entry_at s h).of_inumber ≡ pos n
    → Made r s new n z s'
    → Shares r new n h (pos 0, z) s'
Made-Shares r s new n h z s' o leads (g, h', e, low, is_free, same, inserts) =
    let other : h' ≢ h = λ e. cc (e, is_free, o.is_taken) in
    let entry : OpenFileEntry = record { of_inumber = pos n; of_offset = 0 } in
    rw (same, e)
      (
        h',
        refl,
        λ e. other (sym e),
        inserts.new,
        record {
          small = o.small;
          is_taken = update_ne s.free_open_file_entries.at h' taken h other ∙ o.is_taken;
        },
        ap (λ (e : OpenFileEntry). e.of_inumber) (update_ne s.open_file_table.at h' entry h other)
            ∙ leads,
        record { small = low; is_taken = update_self s.free_open_file_entries.at h' taken },
        ap (λ (e : OpenFileEntry). e.of_inumber) (update_self s.open_file_table.at h' entry),
      )

Shares-called :
    (r : ℕ) (new : Path?) (n h : ℕ) (reply : ℤ × ℤ) (s : State)
    → Shares r new n h reply s
    → Shares r new n h reply (called s unlock)
Shares-called r new n h reply s (h', e, other, l, o, leads, o', leads') = (
  h',
  e,
  other,
  l,
  record { small = o.small; is_taken = o.is_taken },
  leads,
  record { small = o'.small; is_taken = o'.is_taken },
  leads',
)

-- The opening, after a removal.
reopened_elsewhere :
    {r : ℕ} {s : State} (pthread : Pthread) (old new : Path?) (mode n h k : ℕ)
    (fb : Array AllocationState) (g : ℕ → ℕ)
    → NeverFails pthread
    → IsValid r (called (with_bytes (given_back s n fb) g) unlock)
    → Removes s.fs_data.at g (root_addr r s) (root_entries s) (skip_slash old) n
    → n < s.fs_params.max_inode_count
    → IsPath new × (valid_pathname new ≡ true) × (length (skip_slash new) < max_file_name)
    → ((m : ℕ) → ¬ Linked r s (skip_slash new) m)
    → creates mode ≡ true
    → ((m : ℕ) → m < n → s.freeinode_ts.at m ≡ taken)
    → IsOpen s h × ((entry_at s h).of_inumber ≡ pos n)
    → (k < s.fs_params.max_open_files_count) × (s.free_open_file_entries.at k ≡ free)
    → Returns
        (λ z s'. Shares r new n h (pos 0, z) s')
        (tfs_open pthread new mode (called (with_bytes (given_back s n fb) g) unlock))
reopened_elsewhere {r} {s} pthread old new mode n h k fb g never w removes small (is, good, short)
      fresh on before (o, leads) (low, spare) =
    let left = called (with_bytes (given_back s n fb) g) unlock in
    Returns.mono (tfs_open_lem left pthread new mode never w is) λ z s' (_, (t, out, e), _).
      let two =
        made {r = r} {s = called left lock} new mode n k good short on
          (λ m l. fresh m (removes.was (skip_slash new) m l).0) small
          (update_self s.freeinode_ts.at n free)
          (λ m below. update_ne s.freeinode_ts.at n free m (λ e. omega (arith, e)) ∙ before m below)
          removes.room low spare z t out in
      rw e (
        Shares-called r new n h (pos 0, z) t
          (Made-Shares r (called left lock) new n h z t
            (record { small = o.small; is_taken = o.is_taken }) leads two))

-- From a valid state in which handle `h` is open on the file `n` that `old` names, and every inode
-- before `n` is taken and a handle is free, where the pthread calls never return -1: after
-- `tfs_unlink` of `old` and `tfs_open`, with TFS_O_CREAT, of a good path `new` whose name is shorter
-- than 40 bytes and names no file, both succeed, and the old handle, which is still open, leads to
-- the new file, as the handle that is returned does.
pub removed_file_reused :
    {r : ℕ} {s : State} (pthread : Pthread) (old new : Path?) (mode n h k : ℕ)
    → NeverFails pthread
    → IsValid r s
    → IsPath old × (valid_pathname old ≡ true) × Linked r s (skip_slash old) n
    → IsPath new × (valid_pathname new ≡ true) × (length (skip_slash new) < max_file_name)
    → ((m : ℕ) → ¬ Linked r s (skip_slash new) m)
    → creates mode ≡ true
    → ((m : ℕ) → m < n → s.freeinode_ts.at m ≡ taken)
    → IsOpen s h × ((entry_at s h).of_inumber ≡ pos n)
    → (k < s.fs_params.max_open_files_count) × (s.free_open_file_entries.at k ≡ free)
    → Returns (λ reply s'. Shares r new n h reply s') (unlink_then_open pthread old new mode s)
removed_file_reused {r} {s} pthread old new mode n h k never v (is, good, l) path fresh on before
      (o, leads) spare =
    Returns.bind (tfs_unlink_lem s pthread old never v is) λ z s1 (w, (t, out, e), _).
      let (ez, fb, g, same, removes) = gone (IsValid-called lock v) old n good l z t out in
      let (_, small, _) = v.links (skip_slash old) n l in
      let left = called (with_bytes (given_back (called s lock) n fb) g) unlock in
      let here : s1 ≡ left = rw same at e in
      rw (here, ez)
        (Returns.bind
          (reopened_elsewhere {s = called s lock} pthread old new mode n h k fb g never
            (rw here at w) removes small path fresh on before
            (record { small = o.small; is_taken = o.is_taken }, leads) spare)
          λ z' s2 shares. returns shares)
