-- ===== src/Fs/Contents/Write.antt =====
-- What a write does to the contents of the files.
use so_ii.Prelude.{
  ℕ, ◌+◌, ◌*◌, ◌≤◌, ◌≡◌, ◌≢◌, ◌∙◌, sym, ap, arith, inl, inr, refl, pos, List, length, length-take,
  take, slice, slice-copy_in_outside, update, update_ne, update_self, copy_in,
}
use mathlib.Core.Path.{subst}
use native.Mathlib.Decide.{ℕ_discrete, dec_lt}
use so_ii.Fs.State.{State, Inode}
use so_ii.Fs.Tables.Blocks.{blocks_apart}
use so_ii.Fs.Invariant.{HasFiles, Stored, inode_at}
use so_ii.Fs.Invariant.Inodes.{with_inode}
use so_ii.Fs.Invariant.Blocks.{taken_block}
use so_ii.Fs.Operations.Space.{Ensures}
use so_ii.Fs.Operations.Write.{entry_at, grown, wrote}
use so_ii.Fs.Contents.{
  content, content_empty, slice_at, splice, slice-splice, block_addr, block_of, InUse, SameContents,
}
use so_ii.Fs.Contents.Frame.{block_of_eq, SameContents-refl}

-- The contents of the other files in use stay.
abbrev pub SameOthers : State → ℕ → State → Type 0
SameOthers s n s' = (k : ℕ) → n ≢ k → InUse s k → InUse s' k × (content s' k ≡ content s k)

module _ {r : ℕ} {s : State} (v : HasFiles r s) (n : ℕ) (u : InUse s n) where
  -- A block for the file changes no contents.
  pub Ensures-SameContents : (b : ℕ) (s1 : State) → Ensures s n b s1 → SameContents s s1
  unfolding content
  Ensures-SameContents b s1 (inl (q, block, same)) = rw same (SameContents-refl s)
  Ensures-SameContents b s1 (inr (empty, first, same)) = rw same λ k w. (
    w,
    elim (ℕ_discrete n k) [
      | no other ↦
          ap
            (λ (i : Inode).
              slice s.fs_data.at (block_of i.i_data_block * s.fs_params.block_size) i.i_size)
            (update_ne s.inode_table.at n (record (inode_at s n) { i_data_block = pos b }) k other)
      | yes own ↦
          let own_empty : (inode_at s k).i_size ≡ 0 =
            subst (λ (m : ℕ). (inode_at s m).i_size ≡ 0) own empty in
          let i = record (inode_at s n) { i_data_block = pos b } in
          content_empty (with_inode (taken_block s b) n i) k (
            subst (λ (m : ℕ). (update s.inode_table.at n i m).i_size ≡ 0) own
              (ap (λ (i : Inode). i.i_size) (update_self s.inode_table.at n i) ∙ empty))
          ∙ sym (content_empty s k own_empty)
    ],
  )

  module _ (b : ℕ) (block : (inode_at s n).i_data_block ≡ pos b) (h count : ℕ) (buffer : List ℕ)
      (alone : (k : ℕ) → n ≢ k → Stored s k → (inode_at s k).i_data_block ≢ pos b)
      (inside : (entry_at s h).of_offset ≤ (inode_at s n).i_size)
      (fits : (entry_at s h).of_offset + count ≤ s.fs_params.block_size)
      (enough : count ≤ length buffer) where
    pub wrote-splice :
        content (wrote s n h b buffer count) n
        ≡ splice (entry_at s h).of_offset (take count buffer) (content s n)
    unfolding content
    wrote-splice =
        ap (λ (i : Inode). slice after (block_of i.i_data_block * s.fs_params.block_size) i.i_size)
          (update_self s.inode_table.at n (grown s n end))
        ∙ slice_at after (block_addr s n) base (grown s n end).i_size (grown s n end).i_size at_b
            refl
        ∙ slice-splice s.fs_data.at base o (inode_at s n).i_size (grown s n end).i_size
            (take count buffer) inside (ground (arith, length-take count buffer))
        ∙ ap (splice o (take count buffer)) (
            slice_at s.fs_data.at base (block_addr s n) (inode_at s n).i_size (inode_at s n).i_size
              (sym at_b) refl)
      where
        o : ℕ
        o = (entry_at s h).of_offset

        end : ℕ
        end = o + count

        base : ℕ
        base = b * s.fs_params.block_size

        after : ℕ → ℕ
        after = copy_in s.fs_data.at (base + o) (take count buffer)

        at_b : block_addr s n ≡ base
        at_b = block_of_eq s n b block

    pub wrote-SameOthers : SameOthers s n (wrote s n h b buffer count)
    unfolding content
    wrote-SameOthers k other w =
        let file = v.files k w.0 w.1 w.2 in
        let i = grown s n ((entry_at s h).of_offset + count) in
        let start = b * s.fs_params.block_size + (entry_at s h).of_offset in
        let bytes = take count buffer in
        (
          w,
          ap
                (λ (i : Inode).
                  slice (copy_in s.fs_data.at start bytes)
                    (block_of i.i_data_block * s.fs_params.block_size) i.i_size)
                (update_ne s.inode_table.at n i k other)
              ∙ elim (dec_lt 0 (inode_at s k).i_size) [
                | no empty ↦
                    let none' : (inode_at s k).i_size ≡ 0 = omega arith in
                    ap (slice (copy_in s.fs_data.at start bytes) (block_addr s k)) none'
                    ∙ sym (content_empty s k none')
                | yes some' ↦
                    let (c, e, low, ne) = file.stored some' in
                    let stored : Stored s k = record {
                      not_root = w.0;
                      small = w.1;
                      is_taken = w.2;
                      nonempty = some';
                    } in
                    let apart : b ≢ c = λ same. alone k other stored (e ∙ ap pos (sym same)) in
                    slice-copy_in_outside s.fs_data.at start bytes (block_addr s k)
                      (inode_at s k).i_size
                      (elim (blocks_apart b c s.fs_params.block_size apart) [
                        | inl before ↦
                            inr (omega (arith, block_of_eq s k c e, length-take count buffer))
                        | inr behind ↦ inl (omega (arith, block_of_eq s k c e, file.fits))
                      ])
              ],
        )
