-- ===== src/Fs/Directory/Fill.antt =====
-- What an assignment to a directory entry leaves in memory, byte by byte and as a directory.
use so_ii.Prelude.{
  ℕ, zero, suc, ◌+◌, ◌≤◌, ◌<◌, ◌≡◌, ◌∙◌, ◌⊎◌, inl, inr, refl, true, List, [], ◌∷◌, arith, length,
  get_or, ℤ, pos, minus_one, int_at, int_bytes, IsInt, int_at-int_bytes, length-int_bytes, copy_in,
  copy_in_inside, copy_in_outside, le→leb, replicate, int_limit,
}
use native.Mathlib.Decide.{dec_lt}
use so_ii.Fs.State.{State, ok, store_bytes}
use so_ii.Fs.Strings.{strcmp_eq, strncpy_bytes}
use so_ii.Fs.Strings.Compare.{strcmp_eq_of_bytes, get_or-strncpy_bytes, length-strncpy_bytes}
use so_ii.Fs.Inodes.{max_file_name, dir_entry_size, entry_addr}
use so_ii.Fs.Directory.{fill_entry, blank_entry}
use so_ii.Fs.Directory.Entries.{IsName, IsEmpty, Holds}

-- `s` with other bytes on its disk.
abbrev pub with_bytes : State → (ℕ → ℕ) → State
with_bytes s f = record s { fs_data = record s.fs_data { at = f } }

pub store_bytes-ok :
    (s : State) (a : ℕ) (bs : List ℕ)
    → a + length bs ≤ s.fs_data.size
    → store_bytes a bs s ≡ ok tt (with_bytes s (copy_in s.fs_data.at a bs))
unfolding store_bytes
store_bytes-ok s a bs h = rw (le→leb (a + length bs) s.fs_data.size h)

-- Memory after `fill_entry` and after `blank_entry`.
pub filled : (ℕ → ℕ) → ℕ → ℤ → List ℕ → ℕ → ℕ
filled f a z name =
    copy_in (copy_in (copy_in f (a + 40) (int_bytes z)) a (strncpy_bytes 39 name)) (a + 39) (0 ∷ [])

pub blanked : (ℕ → ℕ) → ℕ → ℕ → ℕ
blanked f a = copy_in (copy_in f (a + 40) (int_bytes minus_one)) a (replicate 40 0)

pub fill_entry-ok :
    (s : State) (a : ℕ) (z : ℤ) (name : List ℕ)
    → a + dir_entry_size ≤ s.fs_data.size
    → length name < max_file_name
    → fill_entry name z a s ≡ ok (pos 0) (with_bytes s (filled s.fs_data.at a z name))
unfolding fill_entry filled
fill_entry-ok s a z name h short =
    let f1 = copy_in s.fs_data.at (a + 40) (int_bytes z) in
    let f2 = copy_in f1 a (strncpy_bytes 39 name) in
    rw (
      store_bytes-ok s (a + 40) (int_bytes z) (omega (arith, length-int_bytes z)),
      store_bytes-ok (with_bytes s f1) a (strncpy_bytes 39 name)
          (omega (arith, length-strncpy_bytes 39 name (omega arith))),
      store_bytes-ok (with_bytes s f2) (a + 39) (0 ∷ []) (omega arith),
    )

pub blank_entry-ok :
    (s : State) (a : ℕ)
    → a + dir_entry_size ≤ s.fs_data.size
    → blank_entry a s ≡ ok (pos 0) (with_bytes s (blanked s.fs_data.at a))
unfolding blank_entry blanked
blank_entry-ok s a h = rw (
  store_bytes-ok s (a + 40) (int_bytes minus_one) (omega (arith, length-int_bytes minus_one)),
  store_bytes-ok (with_bytes s (copy_in s.fs_data.at (a + 40) (int_bytes minus_one))) a
      (replicate 40 0) (omega arith),
)

get_or_end : (name : List ℕ) (j : ℕ) → length name ≤ j → get_or name j 0 ≡ 0
get_or_end [] j h = refl
get_or_end (c ∷ name) zero h = absurd (omega arith)
get_or_end (c ∷ name) (suc j) h = get_or_end name j (omega arith)

module _ (f : ℕ → ℕ) (a : ℕ) (z : ℤ) (name : List ℕ) (short : length name < max_file_name) where
  abbrev f1 : ℕ → ℕ
  f1 = copy_in f (a + 40) (int_bytes z)

  abbrev f2 : ℕ → ℕ
  f2 = copy_in f1 a (strncpy_bytes 39 name)

  long : length (strncpy_bytes 39 name) ≡ 39
  long = length-strncpy_bytes 39 name (omega arith)

  filled_name : (j : ℕ) → j < 40 → filled f a z name (a + j) ≡ get_or name j 0
  unfolding filled
  filled_name j h = elim (dec_lt j 39) [
    | yes p ↦
        copy_in_outside f2 (a + 39) (0 ∷ []) (a + j) (inl (omega arith))
        ∙ copy_in_inside f1 a (strncpy_bytes 39 name) j (omega (arith, long))
        ∙ get_or-strncpy_bytes 39 name j (omega arith)
    | no p ↦ ground (
      arith,
      copy_in_inside f2 (a + 39) (0 ∷ []) 0 (omega arith),
      get_or_end name j (omega arith),
    )
  ]

  filled_int : (j : ℕ) → j < 4 → filled f a z name (a + 40 + j) ≡ get_or (int_bytes z) j 0
  unfolding filled
  filled_int j h =
      copy_in_outside f2 (a + 39) (0 ∷ []) (a + 40 + j) (inr (omega arith))
      ∙ copy_in_outside f1 a (strncpy_bytes 39 name) (a + 40 + j) (inr (omega (arith, long)))
      ∙ copy_in_inside f (a + 40) (int_bytes z) j (omega (arith, length-int_bytes z))

  pub filled_outside : (x : ℕ) → (x < a) ⊎ (a + 44 ≤ x) → filled f a z name x ≡ f x
  unfolding filled
  filled_outside x h =
      copy_in_outside f2 (a + 39) (0 ∷ []) x (omega arith)
      ∙ copy_in_outside f1 a (strncpy_bytes 39 name) x (omega (arith, long))
      ∙ copy_in_outside f (a + 40) (int_bytes z) x (omega (arith, length-int_bytes z))

  filled_inumber : IsInt z → int_at (filled f a z name) (a + 40) ≡ z
  filled_inumber is = int_at-int_bytes (filled f a z name) (a + 40) z is filled_int

  filled_named : strcmp_eq (filled f a z name) a name ≡ true
  filled_named = strcmp_eq_of_bytes (filled f a z name) a name λ j p. filled_name j (omega arith)

module _ (f : ℕ → ℕ) (a : ℕ) where
  blanked_int : (j : ℕ) → j < 4 → blanked f a (a + 40 + j) ≡ get_or (int_bytes minus_one) j 0
  unfolding blanked
  blanked_int j h =
      copy_in_outside (copy_in f (a + 40) (int_bytes minus_one)) a (replicate 40 0) (a + 40 + j)
        (inr (omega arith))
      ∙ copy_in_inside f (a + 40) (int_bytes minus_one) j
          (omega (arith, length-int_bytes minus_one))

  pub blanked_outside : (x : ℕ) → (x < a) ⊎ (a + 44 ≤ x) → blanked f a x ≡ f x
  unfolding blanked
  blanked_outside x h =
      copy_in_outside (copy_in f (a + 40) (int_bytes minus_one)) a (replicate 40 0) x (omega arith)
      ∙ copy_in_outside f (a + 40) (int_bytes minus_one) x
          (omega (arith, length-int_bytes minus_one))

  blanked_name : blanked f a (a + 0) ≡ 0
  unfolding blanked
  blanked_name =
      copy_in_inside (copy_in f (a + 40) (int_bytes minus_one)) a (replicate 40 0) 0 (omega arith)

pub filled-Holds :
    (f : ℕ → ℕ) (d e n : ℕ) (name : List ℕ)
    → n < int_limit
    → IsName name
    → Holds (filled f (entry_addr d e) (pos n) name) d e n name
filled-Holds f d e n name small is = record {
  is_name = is;
  inumber = filled_inumber f (entry_addr d e) (pos n) name is.short small;
  named = filled_named f (entry_addr d e) (pos n) name is.short;
}

pub blanked-IsEmpty : (f : ℕ → ℕ) (d e : ℕ) → IsEmpty (blanked f (entry_addr d e)) d e
blanked-IsEmpty f d e = record {
  inumber =
      int_at-int_bytes (blanked f (entry_addr d e)) (entry_addr d e + 40) minus_one (omega arith)
        (blanked_int f (entry_addr d e));
  blank = ground (arith, blanked_name f (entry_addr d e));
}
