-- ===== src/Fs/Contents/Removal.antt =====
-- What a truncation and a removal do to the contents of the files.
use so_ii.Prelude.{ℕ, ◌*◌, ◌≡◌, ◌∙◌, ap, inl, inr, refl, [], slice, update_ne, update_self, Array}
use so_ii.Fs.State.{State, Inode, AllocationState, free}
use so_ii.Fs.Directory.Fill.{with_bytes}
use so_ii.Fs.Directory.Update.{OnlyEntries}
use so_ii.Fs.Invariant.{HasFiles, inode_at, root_addr, root_entries}
use so_ii.Fs.Invariant.Blocks.{freed_block}
use so_ii.Fs.Invariant.Inodes.{with_inode}
use so_ii.Fs.Operations.Existing.{Truncates}
use so_ii.Fs.Operations.Unlink.{given_back}
use so_ii.Fs.Contents.{content, content_empty, block_of, InUse}
use so_ii.Fs.Contents.Frame.{root_bytes-SameContents}
use so_ii.Fs.Contents.Write.{SameOthers}

-- File `n` is in use, and empty.
abbrev pub IsEmptied : State → ℕ → Type 0
IsEmptied s n = (content s n ≡ []) × ((inode_at s n).i_size ≡ 0) × InUse s n

-- The inode of file `n` says that it is empty.
module _ (s : State) (n b : ℕ) (u : InUse s n) where
  no_bytes : Inode
  no_bytes = record (inode_at s n) { i_size = 0 }

  cut : State
  cut = freed_block (with_inode s n no_bytes) b

  size_zero : (inode_at cut n).i_size ≡ 0
  unfolding cut no_bytes
  size_zero = ap (λ (i : Inode). i.i_size) (update_self s.inode_table.at n no_bytes)

  cut-IsEmptied : IsEmptied cut n
  unfolding cut
  cut-IsEmptied = (content_empty cut n size_zero, size_zero, u)

  cut-SameOthers : SameOthers s n cut
  unfolding content cut
  cut-SameOthers k other w = (
    w,
    ap
        (λ (i : Inode).
          slice s.fs_data.at (block_of i.i_data_block * s.fs_params.block_size) i.i_size)
        (update_ne s.inode_table.at n no_bytes k other),
  )

pub Truncates-empties :
    (s : State) (n : ℕ) (s1 : State)
    → InUse s n
    → Truncates s n s1
    → SameOthers s n s1 × IsEmptied s1 n
unfolding cut no_bytes
Truncates-empties s n s1 u (inl (empty, same)) =
    rw same ((λ k other w. (w, refl)), (content_empty s n empty, empty, u))
Truncates-empties s n s1 u (inr (b, e, same)) =
    rw same (cut-SameOthers s n b u, cut-IsEmptied s n b u)

-- The inode of file `n` is free, and bytes of the root directory change.
pub given_back-SameOthers :
    {r : ℕ} {s : State} (v : HasFiles r s) (n : ℕ) (fb : Array AllocationState) (g : ℕ → ℕ)
    → OnlyEntries s.fs_data.at g (root_addr r s) (root_entries s)
    → SameOthers s n (with_bytes (given_back s n fb) g)
unfolding content
given_back-SameOthers {s} v n fb g only k other u =
    let (w, e) = root_bytes-SameContents v g only k u in
    ((w.0, w.1, update_ne s.freeinode_ts.at n free k other ∙ w.2), e)
