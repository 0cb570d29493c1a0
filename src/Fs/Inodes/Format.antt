-- ===== src/Fs/Inodes/Format.antt =====
-- What the loop of `inode_create` that labels the entries of a directory leaves in memory.
use so_ii.Prelude.{
  ℕ, zero, suc, ◌+◌, ◌*◌, ◌≤◌, ◌<◌, ◌≡◌, ◌∙◌, ◌⊎◌, inl, inr, refl, arith, minus_one, int_at,
  int_bytes, int_at-int_bytes, int_at_congr, length-int_bytes, copy_in, copy_in_inside,
  copy_in_outside,
}
use native.Mathlib.Decide.{dec_lt, ℕ_discrete}
use so_ii.Fs.State.{State, ok}
use so_ii.Fs.Inodes.{max_file_name, dir_entry_size, entry_addr, clear_entries}
use so_ii.Fs.Directory.Fill.{with_bytes, store_bytes-ok}

-- One round, and the `rounds` rounds from `i` on.
abbrev labelled : (ℕ → ℕ) → (d i : ℕ) → ℕ → ℕ
labelled f d i = copy_in f (entry_addr d i + max_file_name) (int_bytes minus_one)

pub labels : (ℕ → ℕ) → (d rounds i : ℕ) → ℕ → ℕ
labels f d zero i = f
labels f d (suc rounds) i = labels (labelled f d i) d rounds (i + 1)

pub clear_entries-ok :
    (s : State) (d rounds i : ℕ)
    → d + (i + rounds) * dir_entry_size ≤ s.fs_data.size
    → clear_entries d rounds i s ≡ ok tt (with_bytes s (labels s.fs_data.at d rounds i))
unfolding clear_entries labels
clear_entries-ok s d zero i h = refl
clear_entries-ok s d (suc rounds) i h =
    rw
      (store_bytes-ok s (entry_addr d i + max_file_name) (int_bytes minus_one)
        (omega (arith, length-int_bytes minus_one)))
      (clear_entries-ok (with_bytes s (labelled s.fs_data.at d i)) d rounds (i + 1) (omega arith))

labelled_outside :
    (f : ℕ → ℕ) (d i x : ℕ) → (x < d + i * 44 + 40) ⊎ (d + i * 44 + 44 ≤ x) → labelled f d i x ≡ f x
labelled_outside f d i x h =
    copy_in_outside f (entry_addr d i + max_file_name) (int_bytes minus_one) x
      (ground (arith, length-int_bytes minus_one))

-- The names stay.
pub labels-name :
    (f : ℕ → ℕ) (d rounds i e : ℕ) → labels f d rounds i (entry_addr d e) ≡ f (entry_addr d e)
unfolding labels
labels-name f d zero i e = refl
labels-name f d (suc rounds) i e =
    labels-name (labelled f d i) d rounds (i + 1) e
    ∙ labelled_outside f d i (entry_addr d e)
        (elim (dec_lt i e) [ yes behind ↦ inr (omega arith) | no here ↦ inl (omega arith) ])

-- A round leaves the entries before it alone.
labels-before : (f : ℕ → ℕ) (d rounds i x : ℕ) → x < d + i * 44 → labels f d rounds i x ≡ f x
unfolding labels
labels-before f d zero i x h = refl
labels-before f d (suc rounds) i x h =
    labels-before (labelled f d i) d rounds (i + 1) x (omega arith)
    ∙ labelled_outside f d i x (inl (omega arith))

labelled-inumber :
    (f : ℕ → ℕ) (d i : ℕ) → int_at (labelled f d i) (entry_addr d i + max_file_name) ≡ minus_one
labelled-inumber f d i =
    int_at-int_bytes (labelled f d i) (entry_addr d i + max_file_name) minus_one (omega arith)
      λ j p.
        copy_in_inside f (entry_addr d i + max_file_name) (int_bytes minus_one) j
          (omega (arith, length-int_bytes minus_one))

-- Every entry that has had its round is labelled empty.
pub labels-inumber :
    (f : ℕ → ℕ) (d rounds i e : ℕ)
    → i ≤ e
    → e < i + rounds
    → int_at (labels f d rounds i) (entry_addr d e + max_file_name) ≡ minus_one
unfolding labels
labels-inumber f d zero i e h p = absurd (omega arith)
labels-inumber f d (suc rounds) i e h p = elim (ℕ_discrete e i) [
  | yes same ↦ rw same (
      int_at_congr (labels (labelled f d i) d rounds (i + 1)) (labelled f d i)
        (entry_addr d i + max_file_name)
        (λ j q.
          labels-before (labelled f d i) d rounds (i + 1) (entry_addr d i + max_file_name + j)
            (omega arith))
      ∙ labelled-inumber f d i)
  | no later ↦ labels-inumber (labelled f d i) d rounds (i + 1) e (omega arith) (omega arith)
]
