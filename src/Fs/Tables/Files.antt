-- ===== src/Fs/Tables/Files.antt =====
-- The open file table of fs/state.c.
use so_ii.Prelude.{
  ℕ, ◌<◌, ◌≡◌, refl, ◌⊎◌, inl, inr, Option, none, some, true, ℤ, pos, negsuc, minus_one, arith, set,
  lt→ltb, ltb→lt, Bool-cases, ltb,
}
use so_ii.Fs.State.{State, AllocationState, free, taken, ok}
use so_ii.Fs.Returns.{Returns, returns, load-ok, store-ok}
use so_ii.Fs.Layout.{HasTables}
use so_ii.Fs.Tables.{
  no_delay, valid_file_handle, entry_taken, take_open_file, add_to_open_file_table,
  remove_from_open_file_table, get_open_file_entry,
}
use so_ii.Fs.Tables.Search.{IsFirstFree, AllTaken, Searched, first_free-Searched}

-- Handle `h` is open.
pub record IsOpen (s : State) (h : ℕ) : Type 0 where
  pub small : h < s.fs_params.max_open_files_count
  pub is_taken : s.free_open_file_entries.at h ≡ taken

-- The state in which handle `h` is open on `inumber` at `offset`.
abbrev pub opened : State → ℕ → ℤ → ℕ → State
opened s h inumber offset = record s {
  free_open_file_entries = set s.free_open_file_entries h taken;
  open_file_table = set s.open_file_table h (record { of_inumber = inumber; of_offset = offset });
}

-- The first free handle, opened; or -1, no change, and a table with no free entry.
abbrev pub Opens : State → ℤ → ℕ → ℤ → State → Type 0
Opens s inumber offset r s' =
    ((h : ℕ) × (r ≡ pos h)
      × IsFirstFree s.free_open_file_entries.at 0 s.fs_params.max_open_files_count h
      × (s' ≡ opened s h inumber offset))
    ⊎ ((r ≡ minus_one)
        × AllTaken s.free_open_file_entries.at 0 s.fs_params.max_open_files_count
        × (s' ≡ s))

take_open_file-Opens :
    {s : State} (v : HasTables s) (inumber : ℤ) (offset : ℕ) (o : Option ℕ)
    → Searched s.free_open_file_entries.at 0 s.fs_params.max_open_files_count o
    → Returns (Opens s inumber offset) (take_open_file inumber offset o s)
unfolding take_open_file
take_open_file-Opens v inumber offset none full = returns (inr (refl, full, refl))
take_open_file-Opens {s} v inumber offset (some i) f =
    let s' = record s { free_open_file_entries = set s.free_open_file_entries i taken } in
    rw
      (
        store-ok (λ s. s.free_open_file_entries) s i (omega arith)
            (λ s t. record s { free_open_file_entries = t }) taken,
        store-ok (λ s. s.open_file_table) s' i (omega arith)
            (λ s t. record s { open_file_table = t })
            (record { of_inumber = inumber; of_offset = offset }),
      )
      (returns (inl (i, refl, f, refl)))

-- Where the tables have their sizes: `add_to_open_file_table` returns; it opens the first free handle
-- on the inode and offset that it is given, or returns -1 and changes nothing when none is free.
pub add_to_open_file_table_lem :
    {s : State} (inumber : ℤ) (offset : ℕ)
    → HasTables s
    → Returns (Opens s inumber offset) (add_to_open_file_table inumber offset s)
unfolding add_to_open_file_table no_delay
add_to_open_file_table_lem {s} inumber offset v =
    let (o, run, found) =
      first_free-Searched no_delay (λ s. s.free_open_file_entries) s (λ i. refl)
        s.fs_params.max_open_files_count 0 (omega arith) in
    rw run (take_open_file-Opens v inumber offset o found)

module _ {s : State} (v : HasTables s) (h : ℕ) where
  pub get_open_file_entry-some : IsOpen s h → get_open_file_entry (pos h) s ≡ ok (some h) s
  unfolding get_open_file_entry valid_file_handle entry_taken
  get_open_file_entry-some o = rw (
    lt→ltb h s.fs_params.max_open_files_count o.small,
    load-ok (λ s. s.free_open_file_entries) s h (omega arith),
    o.is_taken,
  )

  pub remove_from_open_file_table-ok :
      IsOpen s h
      → remove_from_open_file_table (pos h) s
        ≡ ok tt (record s { free_open_file_entries = set s.free_open_file_entries h free })
  unfolding remove_from_open_file_table valid_file_handle entry_taken
  remove_from_open_file_table-ok o = rw (
    lt→ltb h s.fs_params.max_open_files_count o.small,
    load-ok (λ s. s.free_open_file_entries) s h (omega arith),
    o.is_taken,
    store-ok (λ s. s.free_open_file_entries) s h (omega arith)
        (λ s t. record s { free_open_file_entries = t }) free,
  )

taken_of : (a : AllocationState) → entry_taken a ≡ true → a ≡ taken
unfolding entry_taken
taken_of a h = ground arith

-- Whether a handle is open is decided by `get_open_file_entry`, which changes nothing.
pub get_open_file_entry_cases :
    {s : State} (fhandle : ℤ)
    → HasTables s
    → ((h : ℕ) × (fhandle ≡ pos h) × IsOpen s h)
      ⊎ (((h : ℕ) → fhandle ≡ pos h → ¬ IsOpen s h) × (get_open_file_entry fhandle s ≡ ok none s))
unfolding get_open_file_entry valid_file_handle entry_taken
get_open_file_entry_cases (negsuc n) v = inr (λ h e o. cc, refl)
get_open_file_entry_cases {s} (pos n) v =
    elim (Bool-cases (ltb n s.fs_params.max_open_files_count)) [
      | inr big ↦ inr (λ h e o. ground arith, rw big)
      | inl small ↦ elim (Bool-cases (entry_taken (s.free_open_file_entries.at n))) [
        | inl t ↦ inl (n, refl, record { small = ltb→lt n _ small; is_taken = taken_of _ t })
        | inr t ↦ inr (
          λ h e o. ground arith,
          rw (small, load-ok (λ s. s.free_open_file_entries) s n (ground arith), t),
        )
      ]
    ]
