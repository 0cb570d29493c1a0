-- ===== src/Fs/History/Unheld.antt =====
-- A truncation and a removal keep every open handle inside a file in use, where none leads to the
-- file that they are of.
use so_ii.Prelude.{ℕ, ◌≢◌, ◌∙◌, sym, ap, arith, inl, inr, pos, update_ne, Array}
use so_ii.Fs.State.{State, Inode, AllocationState, free}
use so_ii.Fs.Tables.Files.{IsOpen}
use so_ii.Fs.Directory.Fill.{with_bytes}
use so_ii.Fs.Invariant.{inode_at}
use so_ii.Fs.Operations.Existing.{Truncates}
use so_ii.Fs.Operations.Unlink.{given_back}
use so_ii.Fs.Operations.Write.{entry_at}
use so_ii.Fs.History.{LeadsTo, HandlesInside}

module _ {s : State} (v : HandlesInside s) (n : ℕ)
    (unheld : (h : ℕ) → IsOpen s h → (entry_at s h).of_inumber ≢ pos n) where
  -- The file that an open handle leads to is another one.
  elsewhere : (h : ℕ) → IsOpen s h → (m : ℕ) × LeadsTo s h m × (n ≢ m)
  elsewhere h o = let (m, leads) = v h o in (m, leads, λ e. unheld h o (leads.0 ∙ ap pos (sym e)))

  pub truncated-HandlesInside : (s1 : State) → Truncates s n s1 → HandlesInside s1
  truncated-HandlesInside s1 (inl (empty, same)) = rw same v
  truncated-HandlesInside s1 (inr (b, e, same)) = rw same λ h o.
      let (m, (leads, u, inside), other) =
        elsewhere h (record { small = o.small; is_taken = o.is_taken }) in
      let size =
        ap (λ (i : Inode). i.i_size)
          (update_ne s.inode_table.at n (record (inode_at s n) { i_size = 0 }) m other) in
      (m, (leads, u, omega (arith, size, inside)))

  pub given_back-HandlesInside :
      (fb : Array AllocationState) (g : ℕ → ℕ) → HandlesInside (with_bytes (given_back s n fb) g)
  given_back-HandlesInside fb g h o =
      let (m, (leads, u, inside), other) =
        elsewhere h (record { small = o.small; is_taken = o.is_taken }) in
      (m, (leads, (u.0, u.1, update_ne s.freeinode_ts.at n free m other ∙ u.2), inside))
