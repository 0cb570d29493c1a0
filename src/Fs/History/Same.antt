-- ===== src/Fs/History/Same.antt =====
-- What leaves the names and the handles alone.
use so_ii.Prelude.{
  Array, ◌+◌, arith, ℕ, ◌≡◌, ◌∙◌, sym, ap, refl, inl, inr, pos, set, update_ne, update_self,
}
use so_ii.Fs.State.{State, OpenFileEntry, AllocationState, taken, free}
use so_ii.Fs.Tables.Files.{IsOpen, opened}
use so_ii.Fs.Invariant.Handles.{closed}
use so_ii.Fs.Operations.Existing.{Truncates}
use so_ii.Fs.Operations.Space.{Ensures}
use so_ii.Fs.Operations.Write.{entry_at, advanced}
use so_ii.Fs.Contents.Frame.{SameContents-refl}
use so_ii.Fs.History.Spec.{SameLinks, SameHandle, SameHandles, OtherHandles, Untouched, Moves}

pub SameLinks-refl : (r : ℕ) (s : State) → SameLinks r s s
SameLinks-refl r s name k = (λ l. l, λ l. l)

pub Truncates-SameLinks :
    (r : ℕ) (s : State) (n : ℕ) (s1 : State) → Truncates s n s1 → SameLinks r s s1
Truncates-SameLinks r s n s1 (inl (empty, same)) = rw same (SameLinks-refl r s)
Truncates-SameLinks r s n s1 (inr (b, e, same)) = rw same (λ name k. (λ l. l, λ l. l))

-- A block for the file changes no name.
pub Ensures-SameLinks :
    (r : ℕ) (s : State) (n b : ℕ) (s1 : State) → Ensures s n b s1 → SameLinks r s s1
Ensures-SameLinks r s n b s1 (inl (q, block, same)) = rw same (SameLinks-refl r s)
Ensures-SameLinks r s n b s1 (inr (empty, first, same)) = rw same (λ name k. (λ l. l, λ l. l))

-- A handle whose two entries are the same.
pub one_handle :
    (s s' : State) (k : ℕ)
    → s'.fs_params ≡ s.fs_params
    → s'.free_open_file_entries.at k ≡ s.free_open_file_entries.at k
    → entry_at s' k ≡ entry_at s k
    → SameHandle s s' k
one_handle s s' k params mark entry = (
  (
    λ o. record { small = rw params (o.small); is_taken = mark ∙ o.is_taken },
    λ o. record { small = rw params at o.small; is_taken = sym mark ∙ o.is_taken },
  ),
  entry,
)

pub SameHandles-refl : (s : State) → SameHandles s s
SameHandles-refl s k = one_handle s s k refl refl refl

pub Untouched-refl : (r : ℕ) (s : State) → Untouched r s s
Untouched-refl r s = (SameContents-refl s, SameLinks-refl r s, SameHandles-refl s)

pub Truncates-SameHandles : (s : State) (n : ℕ) (s1 : State) → Truncates s n s1 → SameHandles s s1
Truncates-SameHandles s n s1 (inl (empty, same)) = rw same (SameHandles-refl s)
Truncates-SameHandles s n s1 (inr (b, e, same)) = rw same (λ k. one_handle _ _ k refl refl refl)

pub Ensures-SameHandles : (s : State) (n b : ℕ) (s1 : State) → Ensures s n b s1 → SameHandles s s1
Ensures-SameHandles s n b s1 (inl (q, block, same)) = rw same (SameHandles-refl s)
Ensures-SameHandles s n b s1 (inr (empty, first, same)) =
    rw same (λ k. one_handle _ _ k refl refl refl)

pub SameHandle-trans :
    (s s1 s2 : State) (k : ℕ) → SameHandle s s1 k → SameHandle s1 s2 k → SameHandle s s2 k
SameHandle-trans s s1 s2 k ((to, from), e) ((to', from'), e') =
    ((λ o. to' (to o), λ o. from (from' o)), e' ∙ e)

pub opened-OtherHandles :
    (s : State) (h n offset : ℕ) → OtherHandles s h (opened s h (pos n) offset)
opened-OtherHandles s h n offset k other =
    one_handle s (opened s h (pos n) offset) k refl
      (update_ne s.free_open_file_entries.at h taken k other)
      (update_ne s.open_file_table.at h (record { of_inumber = pos n; of_offset = offset }) k other)

pub closed-OtherHandles : (s : State) (h : ℕ) → OtherHandles s h (closed s h)
closed-OtherHandles s h k other =
    one_handle s (closed s h) k refl (update_ne s.free_open_file_entries.at h free k other) refl

pub closed-not-IsOpen : (s : State) (h : ℕ) → ¬ IsOpen (closed s h) h
closed-not-IsOpen s h o = cc (o.is_taken, update_self s.free_open_file_entries.at h free)

-- No byte is read or written.
pub Moves-none :
    (s : State) (h n : ℕ) → IsOpen s h → (entry_at s h).of_inumber ≡ pos n → Moves s h n 0 s
Moves-none s h n o leads = record {
  before = o;
  after = o;
  leads = leads;
  still_leads = leads;
  offset = omega arith;
  others = λ k other. SameHandles-refl s k;
}

-- The entry of handle `h` moves on by `count` bytes, behind a state `s1` with the handles of `s`.
pub Moves-advanced :
    (s s1 s' : State) (h n count : ℕ)
    → IsOpen s h
    → (entry_at s h).of_inumber ≡ pos n
    → SameHandles s s1
    → s'.fs_params ≡ s1.fs_params
    → s'.free_open_file_entries ≡ s1.free_open_file_entries
    → s'.open_file_table ≡ set s1.open_file_table h (advanced s1 h count)
    → Moves s h n count s'
Moves-advanced s s1 s' h n count o leads same params marks table =
    let o1 = (same h).0.0 o in
    let entry : entry_at s' h ≡ advanced s1 h count =
      ap (λ (t : Array OpenFileEntry). t.at h) table
      ∙ update_self s1.open_file_table.at h (advanced s1 h count) in
    let mark : (k : ℕ) → s'.free_open_file_entries.at k ≡ s1.free_open_file_entries.at k =
      λ k. ap (λ (t : Array AllocationState). t.at k) marks in
    record {
      before = o;
      after = record { small = rw params (o1.small); is_taken = mark h ∙ o1.is_taken };
      leads = leads;
      still_leads =
          ap (λ (e : OpenFileEntry). e.of_inumber) entry
          ∙ ap (λ (e : OpenFileEntry). e.of_inumber) (same h).1
          ∙ leads;
      offset =
          ap (λ (e : OpenFileEntry). e.of_offset) entry
          ∙ ap (λ (e : OpenFileEntry). e.of_offset + count) (same h).1;
      others = λ k other. SameHandle-trans s s1 s' k (same k) (
          one_handle s1 s' k params (mark k) (
            ap (λ (t : Array OpenFileEntry). t.at k) table
            ∙ update_ne s1.open_file_table.at h (advanced s1 h count) k other));
    }
