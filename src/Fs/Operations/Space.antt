-- ===== src/Fs/Operations/Space.antt =====
-- The first write to an empty file gives it a block.
use so_ii.Prelude.{
  ℕ, ◌<◌, ◌≡◌, ◌∙◌, ◌⊎◌, inl, inr, refl, sym, ap, Bool, true, false, arith, pos, update_self,
  update_ne, Bool-cases, ◌==◌,
}
use mathlib.Core.Path.{subst}
use so_ii.Fs.State.{State, Inode, taken}
use so_ii.Fs.Returns.{Returns, returns, load-ok, store-ok}
use so_ii.Fs.Returns
use so_ii.Fs.Tables.Search.{IsFirstFree, AllTaken}
use so_ii.Fs.Tables.Alloc.{data_block_alloc_lem}
use so_ii.Fs.Invariant.{IsStored, Stored, File, IsValid, inode_at}
use so_ii.Fs.Invariant.Blocks.{taken_block, HasFiles-taken_block}
use so_ii.Fs.Invariant.Inodes.{with_inode, HasFiles-emptied}
use so_ii.Fs.Invariant.Written.{HasBlock}
use so_ii.Fs.Operations.{ensure_block}

-- `s1` is `s`, where file `n` has its block `b`; or `s` with the first free block given to the file.
abbrev pub Ensures : State → (n b : ℕ) → State → Type 0
Ensures s n b s1 =
    ((0 < (inode_at s n).i_size) × ((inode_at s n).i_data_block ≡ pos b) × (s1 ≡ s))
    ⊎ (((inode_at s n).i_size ≡ 0)
        × IsFirstFree s.free_blocks.at 0 s.fs_params.max_block_count b
        × (s1 ≡ with_inode (taken_block s b) n (record (inode_at s n) { i_data_block = pos b })))

-- What `ensure_block` leaves alone.
pub record SameFiles (s s1 : State) (n : ℕ) : Type 0 where
  pub params : s1.fs_params ≡ s.fs_params
  pub bytes : s1.fs_data ≡ s.fs_data
  pub handles : s1.open_file_table ≡ s.open_file_table
  pub entries : s1.free_open_file_entries ≡ s.free_open_file_entries
  pub size : (inode_at s1 n).i_size ≡ (inode_at s n).i_size

abbrev pub Spaces : (r : ℕ) → State → ℕ → Bool → State → Type 0
Spaces r s n space s1 =
    ((b : ℕ) × (space ≡ true)
      × IsValid r s1
      × HasBlock r s1 n b
      × SameFiles s s1 n
      × Ensures s n b s1)
    ⊎ ((space ≡ false) × AllTaken s.free_blocks.at 0 s.fs_params.max_block_count × (s1 ≡ s))

module _ {r : ℕ} {s : State} (n : ℕ) (v : IsValid r s) (file : File r s n) where
  open v use {core, links}

  has_block : (q : 0 < (inode_at s n).i_size) → HasBlock r s n (file.stored q).0
  has_block q =
      let (b, e, low, ne) = file.stored q in
      let stored : s.freeinode_ts.at n ≡ taken → Stored s n = λ is. record {
        not_root = file.not_root;
        small = file.small;
        is_taken = is;
        nonempty = q;
      } in
      record {
        block = e;
        low = low;
        not_root = ne;
        owned = λ is. core.owned n b (stored is) e;
        alone = λ is k other t e'. other (core.exclusive n k (stored is) t (e ∙ sym e'));
      }

  module _ (empty : (inode_at s n).i_size ≡ 0) (b : ℕ)
      (first : IsFirstFree s.free_blocks.at 0 s.fs_params.max_block_count b) where
    abbrev new_inode : Inode
    new_inode = record (inode_at s n) { i_data_block = pos b }

    new_block :
        HasBlock r
          (with_inode (taken_block s b) n (record (inode_at s n) { i_data_block = pos b }))
          n
          b
    new_block = record {
      block = ap (λ (i : Inode). i.i_data_block) (update_self s.inode_table.at n new_inode);
      low = omega (arith, first.below);
      not_root = λ e. cc (first.is_free, ap s.free_blocks.at e, core.root_block_taken);
      owned = λ _. update_self s.free_blocks.at b taken;
      alone = λ is k other t e.
          let same = update_ne s.inode_table.at n new_inode k other in
          let t' = subst (IsStored s.fs_params (s.freeinode_ts.at k) k) same t in
          cc (first.is_free, core.owned k b t' (sym (ap (λ (i : Inode). i.i_data_block) same) ∙ e));
    }

    new_state-IsValid :
        IsValid r (with_inode (taken_block s b) n (record (inode_at s n) { i_data_block = pos b }))
    new_state-IsValid = record {
      core =
          HasFiles-emptied n new_inode file.not_root file.small empty (HasFiles-taken_block b core);
      links = links;
    }

  -- What the state with the block has.
  pub Ensures-HasBlock : (b : ℕ) (s1 : State) → Ensures s n b s1 → IsValid r s1 × HasBlock r s1 n b
  Ensures-HasBlock b s1 (inl (q, block, same)) =
      let mine : (file.stored q).0 ≡ b = cc ((file.stored q).1, block) in
      rw same (v, subst (HasBlock r s n) mine (has_block q))
  Ensures-HasBlock b s1 (inr (empty, first, same)) =
      rw same (new_state-IsValid empty b first, new_block empty b first)

  -- From a valid state and for a file: `ensure_block` returns in a valid state in which the file has
  -- a block that no other file in use shares, the one it had, or the first free one where the file
  -- was empty; the bytes, handles and sizes stay. Where no block is free for an empty file, it
  -- returns false and changes nothing.
  pub ensure_block_lem : Returns (Spaces r s n) (ensure_block n s)
  unfolding ensure_block
  ensure_block_lem = elim (Bool-cases ((inode_at s n).i_size == 0)) [
    | inr some' ↦
        let q : 0 < (inode_at s n).i_size = ground arith in
        rw (load-ok (λ s. s.inode_table) s n (omega (arith, core.tables, file.small)), some')
          (returns (
            inl (
              (file.stored q).0,
              refl,
              v,
              has_block q,
              record { params = refl; bytes = refl; handles = refl; entries = refl; size = refl },
              inl (q, (file.stored q).1, refl),
            )))
    | inl none' ↦
        let empty : (inode_at s n).i_size ≡ 0 = ground arith in
        rw (load-ok (λ s. s.inode_table) s n (omega (arith, core.tables, file.small)), none')
          (Returns.bind (data_block_alloc_lem core.tables) λ z s1 alloc. elim alloc [
            | inr (e, full, same) ↦ rw (e, same) (returns (inr (refl, full, refl)))
            | inl (b, e, first, same) ↦
                rw
                  (
                    e,
                    same,
                    store-ok (λ s. s.inode_table) (taken_block s b) n
                        (omega (arith, core.tables, file.small))
                        (λ s t. record s { inode_table = t })
                        (record (inode_at s n) { i_data_block = pos b }),
                  )
                  (returns (
                    inl (
                      b,
                      refl,
                      new_state-IsValid empty b first,
                      new_block empty b first,
                      record {
                        params = refl;
                        bytes = refl;
                        handles = refl;
                        entries = refl;
                        size =
                            ap (λ (i : Inode). i.i_size)
                              (update_self s.inode_table.at n (new_inode empty b first));
                      },
                      inr (empty, first, refl),
                    )))
          ])
  ]
