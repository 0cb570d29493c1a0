-- ===== src/Fs/History/Locked.antt =====
-- Lock and unlock do not matter for what is promised.
use so_ii.Prelude.{ℕ, length}
use so_ii.Fs.State.{State, MutexCall, lock, unlock}
use so_ii.Fs.Operations.{Path?, Reply}
use so_ii.Fs.Operations.Lock.{called}
use so_ii.Fs.Contents.{content}
use so_ii.Fs.Tables.Files.{IsOpen}
use so_ii.Fs.History.Spec.{
  SameHandle, SameHandles, OtherHandles, Untouched, Moves, Prepares, Follows,
}
use so_ii.Fs.History.{FileCall, open_file, HandlesInside}

-- Lock and unlock change neither the handles nor the contents.
pub called-HandlesInside :
    {s : State} (call : MutexCall) → HandlesInside s → HandlesInside (called s call)
called-HandlesInside call v h o = v h (record { small = o.small; is_taken = o.is_taken })

pub called-IsOpen : {s : State} {h : ℕ} → IsOpen s h → IsOpen (called s lock) h
called-IsOpen o = record { small = o.small; is_taken = o.is_taken }

-- Lock and unlock do not matter for what is prepared.
Prepares-called :
    (r : ℕ) (s t : State) (path : Path?) (mode n : ℕ)
    → Prepares r (called s lock) path mode n t
    → Prepares r s path mode n (called t unlock)
unfolding content
Prepares-called r s t path mode n (Prepares.found l off same links) =
    Prepares.found l off same links
Prepares-called r s t path mode n (Prepares.emptied l on same none' links) =
    Prepares.emptied l on same none' links
Prepares-called r s t path mode n (Prepares.created new on same none' links) =
    Prepares.created new on same none' links

SameHandle-called :
    (s t : State) (k : ℕ) → SameHandle (called s lock) t k → SameHandle s (called t unlock) k
SameHandle-called s t k ((to, from), e) = (
  (
    λ o.
        let o' = to (record { small = o.small; is_taken = o.is_taken }) in
        record { small = o'.small; is_taken = o'.is_taken },
    λ o.
        let o' = from (record { small = o.small; is_taken = o.is_taken }) in
        record { small = o'.small; is_taken = o'.is_taken },
  ),
  e,
)

SameHandles-called : (s t : State) → SameHandles (called s lock) t → SameHandles s (called t unlock)
SameHandles-called s t same k = SameHandle-called s t k (same k)

OtherHandles-called :
    (s : State) (h : ℕ) (t : State)
    → OtherHandles (called s lock) h t
    → OtherHandles s h (called t unlock)
OtherHandles-called s h t same k other = SameHandle-called s t k (same k other)

Moves-called :
    (s : State) (h n count : ℕ) (t : State)
    → Moves (called s lock) h n count t
    → Moves s h n count (called t unlock)
Moves-called s h n count t m = record {
  before = let o = m.before in record { small = o.small; is_taken = o.is_taken };
  after = let o = m.after in record { small = o.small; is_taken = o.is_taken };
  leads = m.leads;
  still_leads = m.still_leads;
  offset = m.offset;
  others = OtherHandles-called s h t m.others;
}

pub Untouched-called :
    (r : ℕ) (s t : State) → Untouched r (called s lock) t → Untouched r s (called t unlock)
unfolding content
Untouched-called r s t (same, links, handles) = (same, links, SameHandles-called s t handles)

-- Nor for what a call promises.
pub Follows-called :
    (r : ℕ) (s t : State) (c : FileCall) (reply : Reply)
    → Follows r (called s lock) c reply t
    → Follows r s c reply (called t unlock)
unfolding content
Follows-called r s t c reply (Follows.refused why same) =
    Follows.refused why (Untouched-called r s t same)
Follows-called r s t (open_file path mode) reply (Follows.no_handle n good p handles all) =
    Follows.no_handle n good (Prepares-called r s t path mode n p) (SameHandles-called s t handles)
      all
Follows-called r s t (open_file path mode) reply
      (Follows.opened h n good p others was is leads offset) =
    Follows.opened h n good (Prepares-called r s t path mode n p) (OtherHandles-called s h t others)
      (λ o. was (record { small = o.small; is_taken = o.is_taken }))
      (record { small = is.small; is_taken = is.is_taken }) leads offset
Follows-called r s t c reply (Follows.shut fhandle on shut same) =
    Follows.shut fhandle on (λ h e o. shut h e (record { small = o.small; is_taken = o.is_taken }))
      (Untouched-called r s t same)
Follows-called r s t c reply (Follows.full h full same) =
    Follows.full h full (Untouched-called r s t same)
Follows-called r s t c reply (Follows.closed h same links others was is) =
    Follows.closed h same links (OtherHandles-called s h t others)
      (record { small = was.small; is_taken = was.is_taken })
      λ o. is (record { small = o.small; is_taken = o.is_taken })
Follows-called r s t c reply (Follows.gave h n bytes same links moves e) =
    Follows.gave h n bytes same links (Moves-called s h n (length bytes) t moves) e
Follows-called r s t c reply (Follows.took h n count same links moves le stops e) =
    Follows.took h n count same links (Moves-called s h n count t moves) le stops e
Follows-called r s t c reply (Follows.removed n good l same gone handles links) =
    Follows.removed n good l same gone (SameHandles-called s t handles) links
Follows-called r s t c reply (Follows.not_there why same) =
    Follows.not_there why (Untouched-called r s t same)
