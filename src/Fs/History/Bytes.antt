-- ===== src/Fs/History/Bytes.antt =====
-- What the outcomes of reading and writing promise, between lock and unlock.
use so_ii.Prelude.{
  Array, ◌⊎◌, ℕ, ◌+◌, ◌-◌, ◌*◌, ◌≤◌, ◌≡◌, ◌∙◌, sym, ap, arith, inl, inr, refl, List, [], ℤ, pos,
  length, length-slice, take, drop, slice,
}
use Prim.Native.Nat.{min}
use mathlib.Core.Path.{subst, ap₂}
use native.Mathlib.Decide.{dec_lt}
use so_ii.Fs.State.{State, Params, OpenFileEntry}
use so_ii.Fs.Invariant.{IsValid, inode_at}
use so_ii.Fs.Operations.{Reply}
use so_ii.Fs.Operations.Space.{Ensures, Ensures-HasBlock}
use so_ii.Fs.Operations.Write.{entry_at, advanced, WriteOutcome, wrote, wrote-Linked}
use so_ii.Fs.Operations.Write
use so_ii.Fs.Operations.Read.{ReadOutcome, bytes_of, moved}
use so_ii.Fs.Operations.Read
use so_ii.Fs.Contents.{block_addr, read-slice, splice-nil, content, length-content, splice}
use so_ii.Fs.Contents.Frame.{block_of_eq, SameContents-refl}
use so_ii.Fs.Contents.Write.{Ensures-SameContents, wrote-splice, wrote-SameOthers}
use so_ii.Fs.History.Spec.{Follows}
use so_ii.Fs.History.{read, write, LeadsTo, HandlesInside}
use so_ii.Fs.History.Handles.{moved-HandlesInside, Ensures-HandlesInside, wrote-HandlesInside}
use so_ii.Fs.Tables.Files.{IsOpen}
use so_ii.Fs.History.Spec.{Moves}
use so_ii.Fs.History.Same.{
  SameLinks-refl, SameHandles-refl, Untouched-refl, Ensures-SameLinks, Ensures-SameHandles,
  Moves-none, Moves-advanced,
}
use so_ii.Fs.History.Opened.{Keeps}

-- A write stops at the end of the buffer or of the block.
stop_at : (l k o : ℕ) → o ≤ k → (min l (k - o) ≡ l) ⊎ (o + min l (k - o) ≡ k)
stop_at l k o le = elim (dec_lt (k - o) l) [ yes p ↦ inr (omega arith) | no p ↦ inl (omega arith) ]

module _ (r : ℕ) {s : State} (v : HandlesInside s) (w : IsValid r s) (h n : ℕ) (open_h : IsOpen s h)
    (leads : LeadsTo s h n) where
  -- The bytes that there are to read, where they lie.
  given :
      (len : ℕ)
      → take len (drop (entry_at s h).of_offset (content s n))
        ≡ slice s.fs_data.at
            (block_addr s n + (entry_at s h).of_offset)
            (min len ((inode_at s n).i_size - (entry_at s h).of_offset))
  unfolding content
  given len =
      read-slice s.fs_data.at (block_addr s n) (entry_at s h).of_offset len (inode_at s n).i_size

  reads_bytes :
      (len count b : ℕ)
      → count ≡ min len ((inode_at s n).i_size - (entry_at s h).of_offset)
      → (inode_at s n).i_data_block ≡ pos b
      → Keeps r s (read (pos h) len) (pos count, bytes_of s h b count) (moved s h count)
  unfolding content
  reads_bytes len count b e block =
      let bytes = bytes_of s h b count in
      let o = (entry_at s h).of_offset in
      let long : length bytes ≡ count =
        length-slice s.fs_data.at (b * s.fs_params.block_size + o) count in
      (
        moved-HandlesInside v h n count leads (omega (arith, leads.2)),
        subst (λ (k : ℕ). Follows r s (read (pos h) len) (pos k, bytes) (moved s h count)) long
            (Follows.gave h n bytes (λ k u. (u, refl)) (λ name k. (λ l. l, λ l. l))
              (subst (λ (k : ℕ). Moves s h n k (moved s h count)) (sym long)
                (Moves-advanced s s (moved s h count) h n count open_h leads.0 (SameHandles-refl s)
                  refl refl refl))
              (ap (λ (a : ℕ). slice s.fs_data.at (a + o) count) (sym (block_of_eq s n b block))
                ∙ ap (slice s.fs_data.at (block_addr s n + o)) e
                ∙ sym (given len))),
      )

  pub reads :
      (len : ℕ) (reply : Reply) (s' : State)
      → ReadOutcome s n h (min len ((inode_at s n).i_size - (entry_at s h).of_offset)) reply s'
      → Keeps r s (read (pos h) len) reply s'
  reads len reply s' (Read.nothing q f same) =
      rw (f, same)
        (
          v,
          Follows.gave h n [] (SameContents-refl s) (SameLinks-refl r s)
              (Moves-none s h n open_h leads.0)
              (sym (
                given len ∙ ap (slice s.fs_data.at (block_addr s n + (entry_at s h).of_offset)) q)),
        )
  reads len reply s' (Read.done q b block f same) = rw (f, same) (reads_bytes len _ b refl block)

  writes_bytes :
      (buffer : List ℕ) (count b : ℕ) (s1 : State)
      → count ≤ length buffer
      → (count ≡ length buffer) ⊎ ((entry_at s h).of_offset + count ≡ s.fs_params.block_size)
      → (entry_at s h).of_offset + count ≤ s.fs_params.block_size
      → Ensures s n b s1
      → Keeps r s (write (pos h) buffer) (pos count, []) (wrote s1 n h b buffer count)
  writes_bytes buffer count b s1 enough stops fits ensures =
      let u = leads.1 in
      let (inside1, handles, params) = Ensures-HandlesInside v n b s1 ensures in
      let (w1, block) = Ensures-HasBlock n w (w.core.files n u.0 u.1 u.2) b s1 ensures in
      let same = Ensures-SameContents w.core n u b s1 ensures in
      let (u1, e1) = same n u in
      let o1 : (entry_at s1 h).of_offset ≡ (entry_at s h).of_offset =
        ap (λ (t : Array OpenFileEntry). (t.at h).of_offset) handles in
      let k1 = ap (λ (p : Params). p.block_size) params in
      let size = sym (length-content s1 n) ∙ ap length e1 ∙ length-content s n in
      let inside : (entry_at s1 h).of_offset ≤ (inode_at s1 n).i_size =
        omega (arith, o1, size, leads.2) in
      let fits1 : (entry_at s1 h).of_offset + count ≤ s1.fs_params.block_size =
        omega (arith, o1, k1, fits) in
      let led = ap (λ (t : Array OpenFileEntry). (t.at h).of_inumber) handles ∙ leads.0 in
      (
        wrote-HandlesInside inside1 n h b buffer count (led, u1, inside),
        Follows.took h n count
            (λ k other uk.
              let (u2, e2) = same k uk in
              let (u3, e3) =
                wrote-SameOthers w1.core n u1 b block.block h count buffer (block.alone u1.2) inside
                  fits1 enough k other u2 in
              (u3, e3 ∙ e2))
            (λ name k.
              let (to, from) = Ensures-SameLinks r s n b s1 ensures name k in
              let (to', from') =
                wrote-Linked n h b count buffer w1 (w1.core.files n u1.0 u1.1 u1.2) block fits1 name
                  k in
              (λ l. to' (to l), λ l. from (from' l)))
            (Moves-advanced s s1 (wrote s1 n h b buffer count) h n count open_h leads.0
              (Ensures-SameHandles s n b s1 ensures) refl refl refl)
            enough stops
            (wrote-splice w1.core n u1 b block.block h count buffer (block.alone u1.2) inside fits1
                enough
              ∙ ap₂ (λ o c. splice o (take count buffer) c) o1 e1),
      )

  pub in_block : (entry_at s h).of_offset ≤ s.fs_params.block_size
  in_block =
      let u = leads.1 in let file = w.core.files n u.0 u.1 u.2 in omega (arith, leads.2, file.fits)

  pub writes :
      (buffer : List ℕ) (z : ℤ) (s' : State)
      → WriteOutcome s n h buffer
          (min (length buffer) (s.fs_params.block_size - (entry_at s h).of_offset))
          z
          s'
      → Keeps r s (write (pos h) buffer) (z, []) s'
  writes buffer z s' (Write.nothing q f same) =
      rw (f, same)
        (
          v,
          Follows.took h n 0 (λ k other u. (u, refl)) (SameLinks-refl r s)
              (Moves-none s h n open_h leads.0) (omega arith)
              (subst
                (λ (k : ℕ).
                  (k ≡ length buffer) ⊎ ((entry_at s h).of_offset + k ≡ s.fs_params.block_size))
                q
                (stop_at (length buffer) s.fs_params.block_size (entry_at s h).of_offset in_block))
              (sym (splice-nil (entry_at s h).of_offset (content s n))),
        )
  writes buffer z s' (Write.no_space q full f same) =
      rw (f, same) (v, Follows.full h full (Untouched-refl r s))
  writes buffer z s' (Write.done q b s1 ensures f same) =
      rw (f, same)
        (writes_bytes buffer _ b s1 (omega arith)
          (stop_at (length buffer) s.fs_params.block_size (entry_at s h).of_offset in_block)
          (omega (arith, in_block)) ensures)
