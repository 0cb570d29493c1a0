-- ===== src/Fs/Operations/Shut.antt =====
-- `tfs_write` and `tfs_read` through an integer that is no open handle.
use so_ii.Prelude.{refl, ℕ, ◌≡◌, ◌∙◌, inl, inr, ap, List, ℤ, pos}
use so_ii.Fs.State.{State, lock}
use so_ii.Fs.Returns.{Returns, returns}
use so_ii.Fs.Returns
use so_ii.Fs.Tables.{get_open_file_entry}
use so_ii.Fs.Tables.Files.{get_open_file_entry_cases}
use so_ii.Fs.State.{ok, unlock}
use so_ii.Fs.Operations.Lock.{with_lock-Returns}
use so_ii.Prelude.{none, minus_one, []}
use so_ii.Fs.Tables.Files.{IsOpen}
use so_ii.Fs.Invariant.{IsValid}
use so_ii.Fs.Operations.{write_body, read_body, Pthread, tfs_write, tfs_read}
use so_ii.Fs.Operations.Lock.{called, NeverFails, IsValid-called}

write_body-shut :
    {s : State} (fhandle : ℤ) (buffer : List ℕ) (to_write : ℕ)
    → get_open_file_entry fhandle s ≡ ok none s
    → write_body fhandle buffer to_write s ≡ ok minus_one s
unfolding write_body
write_body-shut fhandle buffer to_write run = rw run

read_body-shut :
    {s : State} (fhandle : ℤ) (len : ℕ)
    → get_open_file_entry fhandle s ≡ ok none s
    → read_body fhandle len s ≡ ok (minus_one, []) s
unfolding read_body
read_body-shut fhandle len run = rw run

shut_entry :
    {r : ℕ} {s : State} (fhandle : ℤ)
    → IsValid r s
    → ((h : ℕ) → fhandle ≡ pos h → ¬ IsOpen s h)
    → get_open_file_entry fhandle s ≡ ok none s
shut_entry fhandle v shut = elim (get_open_file_entry_cases fhandle v.core.tables) [
  | inl (h, e, o) ↦ absurd (shut h e o)
  | inr (_, run) ↦ run
]

-- From a valid state and for an integer that is no open handle, where the pthread calls never
-- return -1: `tfs_write` and `tfs_read` return -1, and change nothing but lock and unlock the mutex
-- once; the read puts nothing into the buffer.
pub tfs_write_read_shut :
    {r : ℕ} (s : State) (pthread : Pthread) (fhandle : ℤ) (buffer : List ℕ) (count : ℕ)
    → NeverFails pthread
    → IsValid r s
    → ((h : ℕ) → fhandle ≡ pos h → ¬ IsOpen s h)
    → Returns
        (λ z s'. (z ≡ minus_one) × (s' ≡ called (called s lock) unlock))
        (tfs_write pthread fhandle buffer count s)
      × Returns
          (λ reply s'. (reply ≡ (minus_one, [])) × (s' ≡ called (called s lock) unlock))
          (tfs_read pthread fhandle count s)
unfolding tfs_write tfs_read
tfs_write_read_shut {r} s pthread fhandle buffer count never v shut =
    let w = IsValid-called lock v in
    let run =
      shut_entry fhandle w
        (λ h e o. shut h e (record { small = o.small; is_taken = o.is_taken })) in
    (
      Returns.mono
          (with_lock-Returns pthread never {P = λ z t. (z ≡ minus_one) × (t ≡ called s lock)} _ _
            (write_body fhandle buffer count) s
            (rw (write_body-shut fhandle buffer count run) (returns (refl, refl))))
          λ z s' (t, (e, same), e'). (e, e' ∙ ap (λ (u : State). called u unlock) same),
      Returns.mono
          (with_lock-Returns pthread never
            {P = λ reply t. (reply ≡ (minus_one, [])) × (t ≡ called s lock)} _ _
            (read_body fhandle count) s
            (rw (read_body-shut fhandle count run) (returns (refl, refl))))
          λ reply s' (t, (e, same), e'). (e, e' ∙ ap (λ (u : State). called u unlock) same),
    )
