-- ===== src/Fs/History/Opened.antt =====
-- What is promised of a handle on a file that an opening has prepared.
use so_ii.Prelude.{
  ℕ, ◌≤◌, ◌≡◌, ◌∙◌, sym, ap, arith, inl, inr, Bool, true, false, [], ℤ, pos, if◌then◌else◌,
  update_self,
}
use so_ii.Fs.State.{State, OpenFileEntry}
use so_ii.Fs.Tables.Files.{Opens, opened}
use so_ii.Fs.Invariant.{inode_at}
use so_ii.Fs.Operations.{Path?, Reply, appends, valid_pathname}
use so_ii.Fs.Contents.{content, length-content, InUse}
use so_ii.Fs.History.Same.{SameHandle-trans, opened-OtherHandles}
use so_ii.Fs.State.{taken}
use so_ii.Fs.History.Spec.{SameHandles}
use so_ii.Fs.History.Spec.{Follows, Prepares}
use so_ii.Fs.History.{FileCall, open_file, HandlesInside}
use so_ii.Fs.History.Handles.{opened-HandlesInside}

-- What a call leaves and promises.
abbrev pub Keeps : (r : ℕ) → State → FileCall → Reply → State → Type 0
Keeps r s c reply s' = HandlesInside s' × Follows r s c reply s'

at_most : (b : Bool) (k : ℕ) → (if b then k else 0) ≤ k
at_most true k = omega arith
at_most false k = omega arith

-- A handle does not matter for what is prepared.
Prepares-opened :
    (r : ℕ) (s s1 : State) (path : Path?) (mode n h offset : ℕ)
    → Prepares r s path mode n s1
    → Prepares r s path mode n (opened s1 h (pos n) offset)
unfolding content
Prepares-opened r s s1 path mode n h offset (Prepares.found l off same links) =
    Prepares.found l off same links
Prepares-opened r s s1 path mode n h offset (Prepares.emptied l on same none' links) =
    Prepares.emptied l on same none' links
Prepares-opened r s s1 path mode n h offset (Prepares.created new on same none' links) =
    Prepares.created new on same none' links

-- A handle on a file that is prepared.
pub with_handle :
    (r : ℕ) (s s1 : State) (path : Path?) (mode n : ℕ) (z : ℤ) (s' : State)
    → HandlesInside s1
    → InUse s1 n
    → valid_pathname path ≡ true
    → Prepares r s path mode n s1
    → SameHandles s s1
    → Opens s1 (pos n) (if appends mode then (inode_at s1 n).i_size else 0) z s'
    → Keeps r s (open_file path mode) (z, []) s'
unfolding content
with_handle r s s1 path mode n z s' v u good p handles (inr (e, full, same)) =
    rw (e, same) (v, Follows.no_handle n good p handles full)
with_handle r s s1 path mode n z s' v u good p handles (inl (h, e, first, same)) =
    let offset : ℕ = if appends mode then (inode_at s1 n).i_size else 0 in
    let entry =
      update_self s1.open_file_table.at h (record { of_inumber = pos n; of_offset = offset }) in
    rw (e, same)
      (
        opened-HandlesInside v h n offset u (at_most (appends mode) (inode_at s1 n).i_size),
        Follows.opened h n good (Prepares-opened r s s1 path mode n h offset p)
            (λ k other.
              SameHandle-trans s s1 (opened s1 h (pos n) offset) k (handles k)
                (opened-OtherHandles s1 h n offset k other))
            (λ o. let o1 = (handles h).0.0 o in cc (o1.is_taken, first.is_free))
            (record {
              small = let below = first.below in omega arith;
              is_taken = update_self s1.free_open_file_entries.at h taken;
            })
            (ap (λ (e : OpenFileEntry). e.of_inumber) entry)
            (ap (λ (e : OpenFileEntry). e.of_offset) entry
              ∙ ap (λ (k : ℕ). if appends mode then k else 0) (sym (length-content s1 n))),
      )
