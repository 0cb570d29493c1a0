-- ===== src/Fs/Directory/Find.antt =====
-- `find_in_dir` looks a name up in the map that the directory is.
use so_ii.Prelude.{
  ℕ, zero, suc, ◌+◌, ◌*◌, ◌≤◌, ◌<◌, ◌≡◌, ◌⊎◌, inl, inr, refl, Bool, true, false, not, ◌&&◌, List,
  arith, ℤ, pos, minus_one, int_at, eq_ℤ, Bool-cases, le→leb,
}
use native.Mathlib.Decide.{ℕ_discrete}
use so_ii.Fs.State.{State, ok, load_bytes}
use so_ii.Fs.Strings.{strncmp_eq, IsString}
use so_ii.Fs.Strings.Compare.{eq_of_strncmp_eq, strncmp_eq_of_strcmp_eq}
use so_ii.Fs.Inodes.{max_file_name, dir_entry_size, entry_addr}
use so_ii.Fs.Directory.{bytes_at, find_entry}
use so_ii.Fs.Directory.Entries.{IsEmpty, Holds, Binding, IsDirectory, Binds}

pub bytes_at-ok :
    {s : State} (a n : ℕ) → a + n ≤ s.fs_data.size → bytes_at a n s ≡ ok s.fs_data.at s
unfolding bytes_at load_bytes
bytes_at-ok {s} a n h = rw (le→leb (a + n) s.fs_data.size h)

-- The test of the loop of `find_in_dir`.
abbrev matches : (ℕ → ℕ) → (d e : ℕ) → List ℕ → Bool
matches f d e name =
    not (eq_ℤ (int_at f (entry_addr d e + max_file_name)) minus_one)
    && strncmp_eq max_file_name f (entry_addr d e) name

matches-IsEmpty : (f : ℕ → ℕ) (d e : ℕ) (name : List ℕ) → IsEmpty f d e → matches f d e name ≡ false
matches-IsEmpty f d e name empty = rw empty.inumber

matches-Holds :
    (f : ℕ → ℕ) (d e : ℕ) {n : ℕ} {name : List ℕ} → Holds f d e n name → matches f d e name ≡ true
matches-Holds f d e {n} {name} holds =
    rw (holds.inumber, strncmp_eq_of_strcmp_eq f max_file_name (entry_addr d e) name holds.named)

Holds-matches :
    (f : ℕ → ℕ) (d e : ℕ) {n : ℕ} {name : List ℕ} (other : List ℕ)
    → IsString other
    → Holds f d e n name
    → matches f d e other ≡ true
    → name ≡ other
Holds-matches f d e {n} {name} other is holds h =
    eq_of_strncmp_eq f max_file_name (entry_addr d e) name other holds.is_name.string is
      holds.is_name.short holds.named (ground (arith, holds.inumber))

-- What a look-up returns: the inode that the name is bound to, or -1 and no such inode.
abbrev pub Finds : (ℕ → ℕ) → (d m : ℕ) → List ℕ → ℤ → Type 0
Finds f d m name r =
    ((n : ℕ) × (r ≡ pos n) × Binds f d m name n)
    ⊎ ((r ≡ minus_one) × ((n : ℕ) → ¬ Binds f d m name n))

module _ (s : State) (d m : ℕ) (name : List ℕ) where
  abbrev f : ℕ → ℕ
  f = s.fs_data.at

  -- No entry before `i` binds the name.
  abbrev NotBefore : ℕ → Type 0
  NotBefore i = (e n : ℕ) → e < i → ¬ Holds f d e n name

  NotBefore-suc : (i : ℕ) → ((n : ℕ) → ¬ Holds f d i n name) → NotBefore i → NotBefore (i + 1)
  NotBefore-suc i here before e n p h = elim (ℕ_discrete e i) [
    | yes same ↦ here n (rw same at h)
    | no other ↦ before e n (omega arith) h
  ]

  hit-Finds :
      (i : ℕ)
      → i < m
      → IsString name
      → matches f d i name ≡ true
      → IsEmpty f d i ⊎ Binding f d i
      → Finds f d m name (int_at f (entry_addr d i + max_file_name))
  hit-Finds i p is hit (inl empty) = cc (hit, matches-IsEmpty f d i name empty)
  hit-Finds i p is hit (inr (n, own, holds)) =
      let same = Holds-matches f d i name is holds hit in
      inl (n, holds.inumber, (i, p, rw same at holds))

  pub find_entry-Finds :
      (rounds i : ℕ)
      → i + rounds ≡ m
      → d + m * dir_entry_size ≤ s.fs_data.size
      → IsString name
      → IsDirectory f d m
      → NotBefore i
      → (r : ℤ) × (find_entry name d rounds i s ≡ ok r s) × Finds f d m name r
  unfolding find_entry
  find_entry-Finds zero i e fits is dir before =
      (minus_one, refl, inr (refl, λ n (k, p, h). before k n (omega arith) h))
  find_entry-Finds (suc rounds) i e fits is dir before =
      let bytes = bytes_at-ok {s = s} (entry_addr d i) dir_entry_size (omega arith) in
      elim (Bool-cases (matches f d i name)) [
        | inl hit ↦ (
          int_at f (entry_addr d i + max_file_name),
          rw (bytes, hit),
          hit-Finds i (omega arith) is hit (dir.view i (omega arith)),
        )
        | inr miss ↦
            let here : (n : ℕ) → ¬ Holds f d i n name = λ n h. cc (matches-Holds f d i h, miss) in
            let (r, run, finds) =
              find_entry-Finds rounds (i + 1) (omega arith) fits is dir
                (NotBefore-suc i here before) in
            (r, rw (bytes, miss) run, finds)
      ]
