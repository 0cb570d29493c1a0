-- ===== src/Fs/History/Promises.antt =====
-- What the outcome of each call promises, between lock and unlock.
use so_ii.Prelude.{
  ℕ, ◌≡◌, sym, ap, inl, inr, refl, Bool, true, false, [], ℤ, pos, if◌then◌else◌, update_self,
  Bool-cases, List,
}
use mathlib.Core.Path.{subst}
use so_ii.Fs.State.{State, free, Inode}
use so_ii.Fs.Tables.Files.{Opens}
use so_ii.Fs.Inodes.Create.{with_new_file, new_file}
use so_ii.Fs.Directory.Fill.{with_bytes}
use so_ii.Fs.Invariant.{IsValid, HasLinks, Linked, inode_at}
use so_ii.Fs.Operations.{Path?, truncates, appends, creates, skip_slash, valid_pathname}
use so_ii.Fs.Operations.Open.{IsPath, OpenOutcome}
use so_ii.Fs.Operations.Open
use so_ii.Fs.Operations.Create.{MakesOrFails}
use so_ii.Fs.Operations.Close.{Closes}
use so_ii.Fs.Contents.{content, content_empty, InUse, SameContents}
use so_ii.Fs.Contents.Frame.{
  SameContents-refl, SameContents-trans, root_bytes-SameContents, with_new_file-SameContents,
  given_up-SameContents,
}
use so_ii.Fs.Operations.Existing.{Truncates, Reopens}
use so_ii.Fs.Operations.Unlink.{UnlinkOutcome}
use so_ii.Fs.Operations.Unlink
use so_ii.Fs.Contents.Removal.{Truncates-empties, given_back-SameOthers}
use so_ii.Fs.History.Same.{
  SameLinks-refl, SameHandles-refl, Untouched-refl, Truncates-SameLinks, Truncates-SameHandles,
  one_handle, closed-OtherHandles, closed-not-IsOpen,
}
use so_ii.Fs.Invariant.Inodes.{freed_inode}
use so_ii.Fs.Operations.Unlink.{given_back}
use so_ii.Fs.History.Spec.{Follows, Prepares}
use so_ii.Fs.History.Unheld.{truncated-HandlesInside, given_back-HandlesInside}
use so_ii.Fs.History.{unlink, Unheld, open_file, close, HandlesInside}
use so_ii.Fs.History.Handles.{closed-HandlesInside, new_file-HandlesInside, given_up-HandlesInside}
use so_ii.Fs.History.Opened.{Keeps, with_handle}

zero_if : (b : Bool) (k : ℕ) → k ≡ 0 → 0 ≡ (if b then k else 0)
zero_if true k e = sym e
zero_if false k e = refl

Linked-InUse :
    (r : ℕ) (s : State) (name : List ℕ) (n offset : ℕ) (z : ℤ) (s' : State)
    → HasLinks r s'
    → Linked r s name n
    → Opens s (pos n) offset z s'
    → InUse s n
Linked-InUse r s name n offset z s' w l (inr (e, full, same)) =
    let u : InUse s' n = w name n (rw same l) in rw same at u
Linked-InUse r s name n offset z s' w l (inl (h, e, first, same)) =
    let u : InUse s' n = w name n (rw same l) in rw same at u

module _ (r : ℕ) {s : State} (v : HandlesInside s) (w : IsValid r s) where
  pub closes :
      (fhandle z : ℤ) (s' : State) → Closes s fhandle z s' → Keeps r s (close fhandle) (z, []) s'
  unfolding content
  closes fhandle z s' (inl (h, e, o, f, same)) =
      rw (e, f, same)
        (
          closed-HandlesInside v h,
          Follows.closed h (λ k u. (u, refl)) (λ name k. (λ l. l, λ l. l)) (closed-OtherHandles s h)
              o (closed-not-IsOpen s h),
        )
  closes fhandle z s' (inr (shut, f, same)) =
      rw (f, same) (v, Follows.shut fhandle refl shut (Untouched-refl r s))

  -- A file in use is opened, and truncated where the mode says so.
  reopens :
      (path : Path?) (mode n : ℕ) (z : ℤ) (s' : State)
      → (truncates mode ≡ true → Unheld r s path)
      → valid_pathname path ≡ true
      → Linked r s (skip_slash path) n
      → Reopens s n mode z s'
      → Keeps r s (open_file path mode) (z, []) s'
  unfolding content
  reopens path mode n z s' unheld good l (s1, cut, o) =
      let u : InUse s n = w.links (skip_slash path) n l in
      elim (Bool-cases (truncates mode)) [
        | inr off ↦
            let here : s1 ≡ s = rw off at cut in
            with_handle r s s path mode n z s' v u good
              (Prepares.found l off (SameContents-refl s) (SameLinks-refl r s)) (SameHandles-refl s)
              (rw here at o)
        | inl on ↦
            let short : Truncates s n s1 = rw on at cut in
            let (others, (none', size, u1)) = Truncates-empties s n s1 u short in
            with_handle r s s1 path mode n z s'
              (truncated-HandlesInside v n (unheld on n l) s1 short) u1 good
              (Prepares.emptied l on others none' (Truncates-SameLinks r s n s1 short))
              (Truncates-SameHandles s n s1 short) o
      ]

  -- A file is made.
  makes :
      (path : Path?) (mode : ℕ) (z : ℤ) (s' : State)
      → HasLinks r s'
      → valid_pathname path ≡ true
      → ((k : ℕ) → ¬ Linked r s (skip_slash path) k)
      → creates mode ≡ true
      → MakesOrFails r s (skip_slash path) z s'
      → Keeps r s (open_file path mode) (z, []) s'
  unfolding content
  makes path mode z s' w' good new on (inr (e, inl (same, full))) =
      rw (e, same) (v, Follows.refused (inr (new, inr (inl full))) (Untouched-refl r s))
  makes path mode z s' w' good new on (inr (e, inr (n, f, same, why))) =
      rw (e, same)
        (
          given_up-HandlesInside v n f,
          Follows.refused (inr (new, inr (inr why))) (
            given_up-SameContents s n f,
            λ name k. (λ l. l, λ l. l),
            λ k. one_handle s (freed_inode (with_new_file s n) n) k refl refl refl,
          ),
        )
  makes path mode z s' w' good new on (inl (n, g, f, inserts, only, opens)) =
      with_handle r s s2 path mode n z s' (new_file-HandlesInside v n f.is_free g) in_use good
        (Prepares.created new on same_files (content_empty s2 n empty)
          (inserts.new, inserts.kept, inserts.was))
        (λ k. one_handle s s2 k refl refl refl)
        (subst (λ (k : ℕ). Opens s2 (pos n) k z s')
          (zero_if (appends mode) (inode_at s2 n).i_size empty) opens)
    where
      s2 : State
      s2 = with_bytes (with_new_file s n) g

      empty : (inode_at s2 n).i_size ≡ 0
      empty = ap (λ (i : Inode). i.i_size) (update_self s.inode_table.at n new_file)

      same_files : SameContents s s2
      same_files =
          SameContents-trans s (with_bytes s g) s2 (root_bytes-SameContents w.core g only)
            (with_new_file-SameContents (with_bytes s g) n f.is_free)

      in_use : InUse s2 n
      in_use = Linked-InUse r s2 (skip_slash path) n 0 z s' w' inserts.new opens

  pub opens :
      (path : Path?) (mode : ℕ) (z : ℤ) (s' : State)
      → (truncates mode ≡ true → Unheld r s path)
      → HasLinks r s'
      → OpenOutcome r s path mode z s'
      → Keeps r s (open_file path mode) (z, []) s'
  opens path mode z s' unheld w' (Open.rejected bad e same) =
      rw (e, same) (v, Follows.refused (inl bad) (Untouched-refl r s))
  opens path mode z s' unheld w' (Open.missing good' new off e same) =
      rw (e, same) (v, Follows.refused (inr (new, inl off)) (Untouched-refl r s))
  opens path mode z s' unheld w' (Open.reopened n good' l o) =
      reopens path mode n z s' unheld good' l o
  opens path mode z s' unheld w' (Open.made good' new on o) = makes path mode z s' w' good' new on o

  pub unlinks :
      (path : Path?) (z : ℤ) (s' : State)
      → Unheld r s path
      → UnlinkOutcome r s path z s'
      → Keeps r s (unlink path) (z, []) s'
  unlinks path z s' unheld (Unlink.rejected bad e same) =
      rw (e, same) (v, Follows.not_there (inl bad) (Untouched-refl r s))
  unlinks path z s' unheld (Unlink.missing good' new e same) =
      rw (e, same) (v, Follows.not_there (inr new) (Untouched-refl r s))
  unlinks path z s' unheld (Unlink.removed n good' l (fb, g, e, f, same, removes, only)) =
      rw (e, same)
        (
          given_back-HandlesInside v n (unheld n l) fb g,
          Follows.removed n good' l (given_back-SameOthers w.core n fb g only)
              (update_self s.freeinode_ts.at n free)
              (λ k. one_handle s (with_bytes (given_back s n fb) g) k refl refl refl)
              (
                (λ k l'. let (_, ne, _) = removes.was (skip_slash path) k l' in ne refl),
                (λ other k ne. (removes.kept other k ne, λ l'. (removes.was other k l').0)),
              ),
        )
