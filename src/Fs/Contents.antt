-- ===== src/Fs/Contents.antt =====
-- The contents of the files: what the block of an inode holds, up to the size of the file.
pub mod Frame
pub mod Write
pub mod Removal
use so_ii.Prelude.{
  ℕ, zero, suc, ◌+◌, ◌-◌, ◌*◌, ◌≤◌, ◌<◌, ◌≡◌, ◌∙◌, sym, ap, arith, inl, inr, refl, List, [], ◌∷◌,
  ◌++◌, ℤ, pos, negsuc, length, take, drop, slice, copy_in, slice-copy_in, slice-copy_in_outside,
  length-slice,
}
use Prim.Native.Nat.{min}
use mathlib.Core.Path.{ap₂}
use so_ii.Fs.State.{State, taken}
use so_ii.Fs.Invariant.{inode_at}

-- The number of a block, where there is one.
abbrev pub block_of : ℤ → ℕ
block_of (pos b) = b
block_of (negsuc b) = 0

abbrev pub block_addr : State → ℕ → ℕ
block_addr s n = block_of (inode_at s n).i_data_block * s.fs_params.block_size

unfoldable pub content : State → ℕ → List ℕ
content s n = slice s.fs_data.at (block_addr s n) (inode_at s n).i_size

pub content_empty : (s : State) (n : ℕ) → (inode_at s n).i_size ≡ 0 → content s n ≡ []
unfolding content
content_empty s n empty = ap (slice s.fs_data.at (block_addr s n)) empty

pub length-content : (s : State) (n : ℕ) → length (content s n) ≡ (inode_at s n).i_size
unfolding content
length-content s n = length-slice s.fs_data.at (block_addr s n) (inode_at s n).i_size

-- An inode of a file in use.
abbrev pub InUse : State → ℕ → Type 0
InUse s n = (0 < n) × (n < s.fs_params.max_inode_count) × (s.freeinode_ts.at n ≡ taken)

-- Every file in use stays in use, with its contents.
abbrev pub SameContents : State → State → Type 0
SameContents s s' = (k : ℕ) → InUse s k → InUse s' k × (content s' k ≡ content s k)

-- `old` after a write of `bs` at `o`.
pub splice : (o : ℕ) (bs old : List ℕ) → List ℕ
splice o bs old = take o old ++ (bs ++ drop (o + length bs) old)

pub slice_at : (f : ℕ → ℕ) (a b n m : ℕ) → a ≡ b → n ≡ m → slice f a n ≡ slice f b m
slice_at f a b n m e e' = ap₂ (slice f) e e'

slice-append : (f : ℕ → ℕ) (a n m : ℕ) → slice f a (n + m) ≡ slice f a n ++ slice f (a + n) m
slice-append f a zero m = slice_at f a (a + 0) (0 + m) m (omega arith) (omega arith)
slice-append f a (suc n) m =
    slice_at f a a (suc n + m) (suc (n + m)) refl (omega arith)
    ∙ ap (λ xs. f a ∷ xs)
        (slice-append f (a + 1) n m
          ∙ ap (λ ys. slice f (a + 1) n ++ ys)
              (slice_at f (a + 1 + n) (a + suc n) m m (omega arith) refl))

take-slice : (f : ℕ → ℕ) (a n m : ℕ) → n ≤ m → take n (slice f a m) ≡ slice f a n
take-slice f a zero m h = refl
take-slice f a (suc n) zero h = absurd (omega arith)
take-slice f a (suc n) (suc m) h = ap (λ xs. f a ∷ xs) (take-slice f (a + 1) n m (omega arith))

drop-slice : (f : ℕ → ℕ) (a n m : ℕ) → drop n (slice f a m) ≡ slice f (a + n) (m - n)
drop-slice f a zero m = slice_at f a (a + 0) m (m - 0) (omega arith) (omega arith)
drop-slice f a (suc n) zero =
    let e : 0 - suc n ≡ 0 = omega arith in sym (ap (slice f (a + suc n)) e)
drop-slice f a (suc n) (suc m) =
    drop-slice f (a + 1) n m
    ∙ slice_at f (a + 1 + n) (a + suc n) (m - n) (suc m - suc n) (omega arith) (omega arith)

-- A write inside a range, or at its end, is a splice.
pub slice-splice :
    (f : ℕ → ℕ) (a o n size : ℕ) (bs : List ℕ)
    → o ≤ n
    → size ≡ o + (length bs + (n - (o + length bs)))
    → slice (copy_in f (a + o) bs) a size ≡ splice o bs (slice f a n)
unfolding splice
slice-splice f a o n size bs h e =
    ap (slice g a) e
    ∙ slice-append g a o (length bs + more)
    ∙ ap₂ ◌++◌
        (slice-copy_in_outside f (a + o) bs a o (inl (omega arith)) ∙ sym (take-slice f a o n h))
        (slice-append g (a + o) (length bs) more
          ∙ ap₂ ◌++◌ (slice-copy_in f (a + o) bs) (
              slice-copy_in_outside f (a + o) bs (a + o + length bs) more (inr (omega arith))
              ∙ slice_at f (a + o + length bs) (a + (o + length bs)) more more (omega arith) refl
              ∙ sym (drop-slice f a (o + length bs) n)))
  where
    g : ℕ → ℕ
    g = copy_in f (a + o) bs

    more : ℕ
    more = n - (o + length bs)

take-slice-min : (f : ℕ → ℕ) (a n m : ℕ) → take n (slice f a m) ≡ slice f a (min n m)
take-slice-min f a zero m = slice_at f a a 0 (min 0 m) refl (omega arith)
take-slice-min f a (suc n) zero = slice_at f a a 0 (min (suc n) 0) refl (omega arith)
take-slice-min f a (suc n) (suc m) =
    ap (λ xs. f a ∷ xs) (take-slice-min f (a + 1) n m)
    ∙ slice_at f a a (suc (min n m)) (min (suc n) (suc m)) refl (omega arith)

-- A read from the offset `o`.
pub read-slice :
    (f : ℕ → ℕ) (a o len size : ℕ)
    → take len (drop o (slice f a size)) ≡ slice f (a + o) (min len (size - o))
read-slice f a o len size =
    ap (take len) (drop-slice f a o size) ∙ take-slice-min f (a + o) len (size - o)

-- Nothing is written.
pub splice-nil : (o : ℕ) (old : List ℕ) → splice o [] old ≡ old
unfolding splice
splice-nil o old = ap (λ k. take o old ++ drop k old) (omega arith) ∙ take-drop o old
  where
    take-drop : (o : ℕ) (old : List ℕ) → take o old ++ drop o old ≡ old
    take-drop zero old = refl
    take-drop (suc o) [] = refl
    take-drop (suc o) (x ∷ old) = ap (λ xs. x ∷ xs) (take-drop o old)
