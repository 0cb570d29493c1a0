-- ===== src/Fs/Contents/Frame.antt =====
-- What leaves the contents of the files alone.
use so_ii.Prelude.{
  ℕ, ◌*◌, ◌≡◌, ◌≢◌, ◌∙◌, sym, ap, arith, inl, inr, refl, pos, slice, slice_congr, update_ne,
}
use native.Mathlib.Decide.{dec_lt}
use so_ii.Fs.State.{State, Inode, taken, free}
use so_ii.Fs.Inodes.Create.{with_new_file, new_file}
use so_ii.Fs.Tables.Blocks.{blocks_apart}
use so_ii.Fs.Directory.Fill.{with_bytes}
use so_ii.Fs.Directory.Update.{OnlyEntries}
use so_ii.Fs.Invariant.{HasFiles, inode_at, root_addr, root_entries}
use so_ii.Fs.Invariant.Inodes.{freed_inode}
use so_ii.Fs.Contents.{content, content_empty, block_addr, block_of, SameContents}

pub SameContents-refl : (s : State) → SameContents s s
SameContents-refl s k u = (u, refl)

pub SameContents-trans :
    (s s1 s2 : State) → SameContents s s1 → SameContents s1 s2 → SameContents s s2
SameContents-trans s s1 s2 same same' k u =
    let (u1, e1) = same k u in let (u2, e2) = same' k u1 in (u2, e2 ∙ e1)

-- The range of a block.
pub block_of_eq :
    (s : State) (n b : ℕ)
    → (inode_at s n).i_data_block ≡ pos b
    → block_addr s n ≡ b * s.fs_params.block_size
block_of_eq s n b e = ap (λ z. block_of z * s.fs_params.block_size) e

module _ {r : ℕ} {s : State} (v : HasFiles r s) where
  -- Bytes that change in the root directory alone.
  pub root_bytes-SameContents :
      (g : ℕ → ℕ)
      → OnlyEntries s.fs_data.at g (root_addr r s) (root_entries s)
      → SameContents s (with_bytes s g)
  unfolding content
  root_bytes-SameContents g only k u =
      let file = v.files k u.0 u.1 u.2 in
      (
        u,
        elim (dec_lt 0 (inode_at s k).i_size) [
          | no empty ↦
              content_empty (with_bytes s g) k (omega arith) ∙ sym (content_empty s k (omega arith))
          | yes some' ↦
              let (b, e, low, ne) = file.stored some' in
              let at_b = block_of_eq s k b e in
              slice_congr g s.fs_data.at (block_addr s k) (inode_at s k).i_size λ x p q.
                only x (elim (blocks_apart b r s.fs_params.block_size ne) [
                  | inl before ↦ inl (omega (arith, at_b, file.fits))
                  | inr behind ↦ inr (omega (arith, at_b))
                ])
        ],
      )

module _ (s : State) where
  -- A free inode becomes an empty file.
  pub with_new_file-SameContents :
      (n : ℕ) → s.freeinode_ts.at n ≡ free → SameContents s (with_new_file s n)
  unfolding content
  with_new_file-SameContents n is k u =
      let other : n ≢ k = λ e. cc (is, u.2, ap s.freeinode_ts.at e) in
      (
        (u.0, u.1, update_ne s.freeinode_ts.at n taken k other ∙ u.2),
        ap
            (λ (i : Inode).
              slice s.fs_data.at (block_of i.i_data_block * s.fs_params.block_size) i.i_size)
            (update_ne s.inode_table.at n new_file k other),
      )

  -- And is given up.
  pub given_up-SameContents :
      (n : ℕ) → s.freeinode_ts.at n ≡ free → SameContents s (freed_inode (with_new_file s n) n)
  unfolding content
  given_up-SameContents n is k u =
      let other : n ≢ k = λ e. cc (is, u.2, ap s.freeinode_ts.at e) in
      let (u1, e1) = with_new_file-SameContents n is k u in
      ((u1.0, u1.1, update_ne (with_new_file s n).freeinode_ts.at n free k other ∙ u1.2), e1)
