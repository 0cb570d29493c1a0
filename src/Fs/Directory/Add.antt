-- ===== src/Fs/Directory/Add.antt =====
-- The loop of `add_dir_entry` inserts into the map that the directory is.
use so_ii.Prelude.{
  ℕ, zero, suc, ◌+◌, ◌*◌, ◌≤◌, ◌<◌, ◌≡◌, ◌⊎◌, inl, inr, refl, List, arith, ℤ, pos, minus_one,
  int_limit,
}
use native.Mathlib.Decide.{ℕ_discrete}
use so_ii.Fs.State.{State, ok}
use so_ii.Fs.Inodes.{dir_entry_size, entry_addr}
use so_ii.Fs.Directory.{add_entry}
use so_ii.Fs.Directory.Entries.{IsName, Binding, IsDirectory, Binds}
use so_ii.Fs.Directory.Find.{bytes_at-ok}
use so_ii.Fs.Directory.Fill.{with_bytes, filled, fill_entry-ok}
use so_ii.Fs.Directory.Update.{Inserts, OnlyEntries, filled-Inserts}

-- Insertion, with 0 returned, or -1 from a directory that has no empty entry and stays as it is.
abbrev pub Adds : State → (d m : ℕ) → List ℕ → ℕ → ℤ → State → Type 0
Adds s d m name n r s' =
    ((g : ℕ → ℕ) × (r ≡ pos 0)
      × (s' ≡ with_bytes s g)
      × Inserts s.fs_data.at g d m name n
      × OnlyEntries s.fs_data.at g d m)
    ⊎ ((r ≡ minus_one) × (s' ≡ s) × ((e : ℕ) → e < m → Binding s.fs_data.at d e))

module _ (s : State) (d m n : ℕ) (name : List ℕ) (fits : d + m * dir_entry_size ≤ s.fs_data.size)
    (small : n < int_limit) (is : IsName name) (dir : IsDirectory s.fs_data.at d m)
    (fresh_inumber : (other : List ℕ) → ¬ Binds s.fs_data.at d m other n)
    (fresh_name : (k : ℕ) → ¬ Binds s.fs_data.at d m name k) where
  full-suc :
      (i : ℕ)
      → Binding s.fs_data.at d i
      → ((e : ℕ) → e < i → Binding s.fs_data.at d e)
      → (e : ℕ) → e < i + 1
      → Binding s.fs_data.at d e
  full-suc i here full e p = elim (ℕ_discrete e i) [
    | yes same ↦ rw same here
    | no other ↦ full e (omega arith)
  ]

  pub add_entry-Adds :
      (rounds i : ℕ)
      → i + rounds ≡ m
      → ((e : ℕ) → e < i → Binding s.fs_data.at d e)
      → (r : ℤ) × (s' : State) × (add_entry name (pos n) d rounds i s ≡ ok r s')
        × Adds s d m name n r s'
  unfolding add_entry
  add_entry-Adds zero i e full =
      (minus_one, s, refl, inr (refl, refl, λ e' p. full e' (omega arith)))
  add_entry-Adds (suc rounds) i e full =
      let bytes = bytes_at-ok {s = s} (entry_addr d i) dir_entry_size (omega arith) in
      elim (dir.view i (omega arith)) [
        | inl empty ↦
            let (inserts, only) =
              filled-Inserts s.fs_data.at d m i n name dir (omega arith) small is empty
                fresh_inumber fresh_name in
            (
              pos 0,
              with_bytes s (filled s.fs_data.at (entry_addr d i) (pos n) name),
              rw (bytes, empty.inumber)
                  (fill_entry-ok s (entry_addr d i) (pos n) name (omega arith) is.short),
              inl (filled s.fs_data.at (entry_addr d i) (pos n) name, refl, refl, inserts, only),
            )
        | inr (k, own, holds) ↦
            let (r, s', run, adds) =
              add_entry-Adds rounds (i + 1) (omega arith) (full-suc i (k, own, holds) full) in
            (r, s', rw (bytes, holds.inumber) run, adds)
      ]
