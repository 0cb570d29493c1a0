-- ===== src/Fs/Directory/Clear.antt =====
-- The loop of `clear_dir_entry` removes from the map that the directory is.
use so_ii.Prelude.{
  ℕ, zero, suc, ◌+◌, ◌*◌, ◌≤◌, ◌<◌, ◌≡◌, ◌≢◌, ◌⊎◌, inl, inr, refl, true, false, List, [], ◌∷◌,
  arith, pos, Bool-cases,
}
use so_ii.Fs.State.{State, ok}
use so_ii.Fs.Strings.{strcmp_eq}
use so_ii.Fs.Strings.Compare.{eq_of_strcmp_eq}
use so_ii.Fs.Inodes.{dir_entry_size, entry_addr}
use so_ii.Fs.Directory.{clear_entry}
use so_ii.Fs.Directory.Entries.{IsName, IsEmpty, Holds, Binding, IsDirectory}
use so_ii.Fs.Directory.Find.{bytes_at-ok}
use so_ii.Fs.Directory.Fill.{with_bytes, blanked, blank_entry-ok}
use so_ii.Fs.Directory.Update.{Removes, OnlyEntries, blanked-Removes}

-- A name is not the empty string.
strcmp_eq-blank :
    (f : ℕ → ℕ) (a : ℕ) (name : List ℕ) → IsName name → f a ≡ 0 → strcmp_eq f a name ≡ false
unfolding strcmp_eq
strcmp_eq-blank f a [] is h = absurd (omega (arith, is.nonempty))
strcmp_eq-blank f a (c ∷ name) is h = ground (arith, is.string.0)

-- Removal of the binding, with 0 returned.
abbrev pub Clears : State → (d m : ℕ) → List ℕ → ℕ → State → Type 0
Clears s d m name n s' =
    (g : ℕ → ℕ) × (s' ≡ with_bytes s g)
    × Removes s.fs_data.at g d m name n
    × OnlyEntries s.fs_data.at g d m

module _ (s : State) (d m n e : ℕ) (name : List ℕ) (fits : d + m * dir_entry_size ≤ s.fs_data.size)
    (dir : IsDirectory s.fs_data.at d m) (bound : e < m)
    (holds : Holds s.fs_data.at d e n name) where
  -- The entry that compares equal to the name is the one that binds it.
  hit-eq :
      (i : ℕ)
      → i < m
      → strcmp_eq s.fs_data.at (entry_addr d i) name ≡ true
      → IsEmpty s.fs_data.at d i ⊎ Binding s.fs_data.at d i
      → e ≡ i
  hit-eq i p hit (inl empty) =
      cc (hit, strcmp_eq-blank s.fs_data.at (entry_addr d i) name holds.is_name empty.blank)
  hit-eq i p hit (inr (k, own, h)) =
      let same =
        eq_of_strcmp_eq s.fs_data.at (entry_addr d i) own name h.is_name.string holds.is_name.string
          h.named hit in
      dir.same_name e i n k name bound p holds (rw same at h)

  miss-ne : (i : ℕ) → strcmp_eq s.fs_data.at (entry_addr d i) name ≡ false → e ≢ i
  miss-ne i miss same = cc (miss, rw same at holds.named)

  pub clear_entry-Clears :
      (rounds i : ℕ)
      → i + rounds ≡ m
      → i ≤ e
      → (s' : State) × (clear_entry name d rounds i s ≡ ok (pos 0) s') × Clears s d m name n s'
  unfolding clear_entry
  clear_entry-Clears zero i q behind = absurd (omega arith)
  clear_entry-Clears (suc rounds) i q behind =
      let bytes = bytes_at-ok {s = s} (entry_addr d i) dir_entry_size (omega arith) in
      elim (Bool-cases (strcmp_eq s.fs_data.at (entry_addr d i) name)) [
        | inl hit ↦
            let same = hit-eq i (omega arith) hit (dir.view i (omega arith)) in
            let (removes, only) =
              blanked-Removes s.fs_data.at d m i n name dir (omega arith) (rw same at holds) in
            (
              with_bytes s (blanked s.fs_data.at (entry_addr d i)),
              rw (bytes, hit) (blank_entry-ok s (entry_addr d i) (omega arith)),
              (blanked s.fs_data.at (entry_addr d i), refl, removes, only),
            )
        | inr miss ↦
            let (s', run, clears) =
              clear_entry-Clears rounds (i + 1) (omega arith) (omega (arith, miss-ne i miss)) in
            (s', rw (bytes, miss) run, clears)
      ]
