-- ===== src/Fs/Operations/Open.antt =====
-- `tfs_open` on every path: what it returns and what it leaves.
use so_ii.Prelude.{
  ℕ, ◌<◌, ◌≡◌, inl, inr, refl, true, false, [], ◌∷◌, arith, ℤ, minus_one, length, none, some,
  Bool-cases,
}
use so_ii.Fs.State.{State, ok}
use so_ii.Fs.Returns.{Returns, returns}
use so_ii.Fs.Returns
use so_ii.Fs.Strings.{IsString}
use so_ii.Fs.Inodes.Delete.{inode_get-ok}
use so_ii.Fs.Directory.Find.{Finds}
use so_ii.Fs.Directory.Root.{find_in_dir-Finds}
use so_ii.Fs.Invariant.{IsValid, Linked, root_addr, root_entries}
use so_ii.Fs.Operations.{Path?, valid_pathname, skip_slash, creates, tfs_lookup, open_body}
use so_ii.Fs.Operations.Existing.{Reopens, open_existing_lem}
use so_ii.Fs.Operations.Create.{MakesOrFails, open_new_lem}

-- A path is NULL or a C string.
abbrev pub IsPath : Path? → Type 0
IsPath none = Unit
IsPath (some path) = IsString path

-- What opening `path` returns and leaves, by cases.
pub data OpenOutcome (r : ℕ) (s : State) (path : Path?) (mode : ℕ) (z : ℤ) (s' : State)
    : Type 0 where
  rejected : valid_pathname path ≡ false → z ≡ minus_one → s' ≡ s → OpenOutcome r s path mode z s'
  reopened :
      (n : ℕ)
      → valid_pathname path ≡ true
      → Linked r s (skip_slash path) n
      → Reopens s n mode z s'
      → OpenOutcome r s path mode z s'
  made :
      valid_pathname path ≡ true
      → ((k : ℕ) → ¬ Linked r s (skip_slash path) k)
      → creates mode ≡ true
      → MakesOrFails r s (skip_slash path) z s'
      → OpenOutcome r s path mode z s'
  missing :
      valid_pathname path ≡ true
      → ((k : ℕ) → ¬ Linked r s (skip_slash path) k)
      → creates mode ≡ false
      → z ≡ minus_one
      → s' ≡ s
      → OpenOutcome r s path mode z s'

-- A valid path names a file by a string that is not empty.
valid_pathname_name :
    (path : Path?)
    → IsPath path
    → valid_pathname path ≡ true
    → IsString (skip_slash path) × (0 < length (skip_slash path))
unfolding valid_pathname skip_slash
valid_pathname_name none p h = cc
valid_pathname_name (some []) p h = cc
valid_pathname_name (some (c ∷ name)) p h = (p.1, ground arith)

-- `tfs_lookup` on the root directory.
pub tfs_lookup-Finds :
    {r : ℕ} {s : State} (path : Path?)
    → IsValid r s
    → IsPath path
    → valid_pathname path ≡ true
    → (z : ℤ) × (tfs_lookup path 0 s ≡ ok z s)
      × Finds s.fs_data.at (root_addr r s) (root_entries s) (skip_slash path) z
unfolding tfs_lookup
tfs_lookup-Finds path v p h =
    let (string, _) = valid_pathname_name path p h in
    let (z, run, finds) = find_in_dir-Finds v.core (skip_slash path) string in (z, rw h run, finds)

module _ {r : ℕ} {s : State} (path : Path?) (mode : ℕ) (v : IsValid r s) (is : IsPath path) where
  pub open_body_lem :
      Returns (λ z s'. IsValid r s' × OpenOutcome r s path mode z s') (open_body path mode s)
  unfolding open_body
  open_body_lem = elim (Bool-cases (valid_pathname path)) [
    | inr bad ↦ rw bad (returns (v, rejected bad refl refl))
    | inl good ↦
        let (z, run, finds) = tfs_lookup-Finds path v is good in
        rw (good, inode_get-ok v.core.tables 0 v.core.some_inode, run)
          (elim finds [
            | inl (n, e, l) ↦
                let (a, b, c) = v.links (skip_slash path) n l in
                rw e (
                  Returns.mono (open_existing_lem n mode v a b c)
                    λ z s' (w, o). (w, reopened n good l o))
            | inr (e, new) ↦ rw e (elim (Bool-cases (creates mode)) [
              | inr off ↦ rw off (returns (v, missing good new off refl refl))
              | inl on ↦
                  let (string, nonempty) = valid_pathname_name path is good in
                  rw on (
                    Returns.mono (open_new_lem (skip_slash path) v string nonempty new path refl)
                      λ z s' (w, o). (w, made good new on o))
            ])
          ])
  ]
