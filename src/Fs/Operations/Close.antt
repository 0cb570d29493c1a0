-- ===== src/Fs/Operations/Close.antt =====
-- `tfs_close` on every handle.
use so_ii.Prelude.{ℕ, ◌≡◌, ◌⊎◌, inl, inr, refl, ℤ, pos, minus_one, none}
use so_ii.Fs.State.{State, ok}
use so_ii.Fs.Returns.{Returns, returns}
use so_ii.Fs.Layout.{HasTables}
use so_ii.Fs.Tables.{get_open_file_entry}
use so_ii.Fs.Tables.Files.{
  IsOpen, get_open_file_entry-some, remove_from_open_file_table-ok, get_open_file_entry_cases,
}
use so_ii.Fs.Invariant.{IsValid}
use so_ii.Fs.Invariant.Handles.{closed, HasFiles-closed}
use so_ii.Fs.Operations.{close_body}

-- An open handle is closed and 0 returned; for any other the result is -1 and nothing changes.
abbrev pub Closes : State → ℤ → ℤ → State → Type 0
Closes s fhandle z s' =
    ((h : ℕ) × (fhandle ≡ pos h) × IsOpen s h × (z ≡ pos 0) × (s' ≡ closed s h))
    ⊎ (((h : ℕ) → fhandle ≡ pos h → ¬ IsOpen s h) × (z ≡ minus_one) × (s' ≡ s))

module _ {s : State} (v : HasTables s) where
  close_body-open : (h : ℕ) → IsOpen s h → close_body (pos h) s ≡ ok (pos 0) (closed s h)
  unfolding close_body
  close_body-open h o = rw (get_open_file_entry-some v h o, remove_from_open_file_table-ok v h o)

  close_body-shut :
      (fhandle : ℤ)
      → get_open_file_entry fhandle s ≡ ok none s
      → close_body fhandle s ≡ ok minus_one s
  unfolding close_body
  close_body-shut fhandle run = rw run

pub close_body_lem :
    {r : ℕ} {s : State} (fhandle : ℤ)
    → IsValid r s
    → Returns (λ z s'. IsValid r s' × Closes s fhandle z s') (close_body fhandle s)
close_body_lem fhandle v = elim (get_open_file_entry_cases fhandle v.core.tables) [
  | inr (shut, run) ↦
      rw (close_body-shut v.core.tables fhandle run) (returns (v, inr (shut, refl, refl)))
  | inl (h, e, o) ↦
      rw (e, close_body-open v.core.tables h o)
        (returns (
          record { core = HasFiles-closed h v.core; links = v.links },
          inl (h, refl, o, refl, refl),
        ))
]
