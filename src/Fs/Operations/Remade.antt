-- ===== src/Fs/Operations/Remade.antt =====
-- What a removal leaves, and what an opening then makes of the first free inode.
use so_ii.Prelude.{ℕ, ◌<◌, ◌≡◌, inl, inr, true, arith, ℤ, pos, length, Array}
use native.Mathlib.Decide.{dec_lt}
use so_ii.Fs.State.{State, AllocationState, free, taken}
use so_ii.Fs.Tables.Search.{IsFirstFree}
use so_ii.Fs.Tables.Files.{opened}
use so_ii.Fs.Inodes.{max_file_name}
use so_ii.Fs.Inodes.Create.{with_new_file}
use so_ii.Fs.Directory.Entries.{IsEmpty, Holds-inumber, not-IsEmpty-Holds}
use so_ii.Fs.Directory.Fill.{with_bytes}
use so_ii.Fs.Directory.Update.{Inserts, Removes}
use so_ii.Fs.Invariant.{IsValid, Linked, root_addr, root_entries}
use so_ii.Fs.Operations.{Path?, creates, valid_pathname, skip_slash}
use so_ii.Fs.Operations.Open
use so_ii.Fs.Operations.Open.{IsPath, OpenOutcome}
use so_ii.Fs.Operations.Unlink
use so_ii.Fs.Operations.Unlink.{UnlinkOutcome, given_back}

-- Inode `n` is the first that is free.
first-same :
    (f : ℕ → AllocationState) (count n m : ℕ)
    → f n ≡ free
    → ((k : ℕ) → k < n → f k ≡ taken)
    → IsFirstFree f 0 count m
    → m ≡ n
first-same f count n m is before first = elim (dec_lt m n) [
  | yes low ↦ cc (first.is_free, before m low)
  | no high ↦ elim (dec_lt n m) [
    | yes low ↦ cc (is, first.first n (omega arith) low)
    | no high' ↦ omega arith
  ]
]

-- What a removal of the file `n` leaves.
module _ {r : ℕ} {s : State} (v : IsValid r s) (old : Path?) (n : ℕ)
    (good : valid_pathname old ≡ true) (l : Linked r s (skip_slash old) n) where
  abbrev pub Gone : ℤ → State → Type 0
  Gone z s' =
      (z ≡ pos 0)
      × (fb : Array AllocationState) × (g : ℕ → ℕ) × (s' ≡ with_bytes (given_back s n fb) g)
      × Removes s.fs_data.at g (root_addr r s) (root_entries s) (skip_slash old) n

  pub gone : (z : ℤ) (s' : State) → UnlinkOutcome r s old z s' → Gone z s'
  gone z s' (Unlink.rejected bad e same) = cc
  gone z s' (Unlink.missing good' new e same) = absurd (new n l)
  gone z s' (Unlink.removed m good' (e', p', h') (fb, g, e, f, same, removes, only)) =
      let (e0, p0, h0) = l in
      let here = v.core.directory.same_name e' e0 m n (skip_slash old) p' p0 h' h0 in
      let is : m ≡ n = Holds-inumber (rw here at h') h0 in
      (e, fb, g, rw is at same, rw is at removes)

-- The file `n` with the name, and a handle at its start.
abbrev pub Made : (r : ℕ) (s : State) (new : Path?) (n : ℕ) → ℤ → State → Type 0
Made r s new n z s' =
    (g : ℕ → ℕ) × (h : ℕ) × (z ≡ pos h)
    × (h < s.fs_params.max_open_files_count)
    × (s.free_open_file_entries.at h ≡ free)
    × (s' ≡ opened (with_bytes (with_new_file s n) g) h (pos n) 0)
    × Inserts s.fs_data.at g (root_addr r s) (root_entries s) (skip_slash new) n

-- What an opening makes of the first free inode `n`.
module _ {r : ℕ} {s : State} (new : Path?) (mode n k : ℕ) (good : valid_pathname new ≡ true)
    (short : length (skip_slash new) < max_file_name) (on : creates mode ≡ true)
    (fresh : (m : ℕ) → ¬ Linked r s (skip_slash new) m) (small : n < s.fs_params.max_inode_count)
    (is : s.freeinode_ts.at n ≡ free) (before : (m : ℕ) → m < n → s.freeinode_ts.at m ≡ taken)
    (room : (e : ℕ) × (e < root_entries s) × IsEmpty s.fs_data.at (root_addr r s) e)
    (low : k < s.fs_params.max_open_files_count)
    (spare : s.free_open_file_entries.at k ≡ free) where
  pub made : (z : ℤ) (s' : State) → OpenOutcome r s new mode z s' → Made r s new n z s'
  made z s' (Open.rejected bad e same) = cc
  made z s' (Open.reopened m good' l o) = absurd (fresh m l)
  made z s' (Open.missing good' none' off e same) = cc
  made z s' (Open.made good' none' on' (inr (e, inl (same, full)))) =
      cc (full n (omega arith) (omega arith), is)
  made z s' (Open.made good' none' on' (inr (e, inr (m, f, same, inl long)))) = absurd (omega arith)
  made z s' (Open.made good' none' on' (inr (e, inr (m, f, same, inr full)))) =
      let (e0, p, empty) = room in
      let (m', name, h) = full e0 p in absurd (not-IsEmpty-Holds empty h)
  made z s' (Open.made good' none' on' (inl (m, g, first, inserts, only, inr (e, full, same)))) =
      cc (full k (omega arith) (omega arith), spare)
  made z s' (Open.made good' none' on' (inl (m, g, first, inserts, only, inl (h, e, f, same)))) =
      let here : m ≡ n =
        first-same s.freeinode_ts.at s.fs_params.max_inode_count n m is before first in
      (g, h, e, omega (arith, f.below), f.is_free, rw here at same, rw here at inserts)
