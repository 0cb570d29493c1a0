-- ===== src/Fs/Tables/Alloc.antt =====
-- What the allocators of fs/state.c return and change.
use so_ii.Prelude.{
  ℕ, ◌≡◌, refl, ◌⊎◌, inl, inr, Option, none, some, ℤ, pos, minus_one, arith, set, Array,
  int_of_size-pos,
}
use so_ii.Fs.State.{State, AllocationState, taken, ok}
use so_ii.Fs.Returns.{Returns, returns, store-ok}
use so_ii.Fs.Layout.{HasTables}
use so_ii.Fs.Tables.{storage_delay, take_inode, inode_alloc, take_block, data_block_alloc}
use so_ii.Fs.Tables.Search.{IsFirstFree, AllTaken, Searched, first_free-Searched}

storage_delay-ok : {s : State} → HasTables s → (i : ℕ) → storage_delay i s ≡ ok tt s
unfolding storage_delay
storage_delay-ok v i = ground arith

-- The number of a map's first FREE entry, which is marked TAKEN while all else stays; or -1, no
-- change, and a map with no FREE entry.
abbrev pub Allocates :
    (State → Array AllocationState)
    → (State → Array AllocationState → State)
    → ℕ
    → State
    → ℤ
    → State
    → Type 0
Allocates table put count s r s' =
    ((i : ℕ) × (r ≡ pos i)
      × IsFirstFree (table s).at 0 count i
      × (s' ≡ put s (set (table s) i taken)))
    ⊎ ((r ≡ minus_one) × AllTaken (table s).at 0 count × (s' ≡ s))

take_inode-Allocates :
    {s : State} (v : HasTables s) (o : Option ℕ)
    → Searched s.freeinode_ts.at 0 s.fs_params.max_inode_count o
    → Returns
        (Allocates
          (λ s. s.freeinode_ts)
          (λ s t. record s { freeinode_ts = t })
          s.fs_params.max_inode_count
          s)
        (take_inode o s)
unfolding take_inode
take_inode-Allocates v none full = returns (inr (refl, full, refl))
take_inode-Allocates {s} v (some i) f =
    rw
      (store-ok (λ s. s.freeinode_ts) s i (omega arith) (λ s t. record s { freeinode_ts = t })
        taken)
      (returns (inl (i, int_of_size-pos i (omega arith), f, refl)))

take_block-Allocates :
    {s : State} (v : HasTables s) (o : Option ℕ)
    → Searched s.free_blocks.at 0 s.fs_params.max_block_count o
    → Returns
        (Allocates
          (λ s. s.free_blocks)
          (λ s t. record s { free_blocks = t })
          s.fs_params.max_block_count
          s)
        (take_block o s)
unfolding take_block
take_block-Allocates v none full = returns (inr (refl, full, refl))
take_block-Allocates {s} v (some i) f =
    rw (store-ok (λ s. s.free_blocks) s i (omega arith) (λ s t. record s { free_blocks = t }) taken)
      (returns (inl (i, int_of_size-pos i (omega arith), f, refl)))

-- Where the tables have their sizes: `inode_alloc` returns; it marks the first FREE inode TAKEN and
-- returns its number, or returns -1 and changes nothing when there is none.
pub inode_alloc_lem :
    {s : State}
    → HasTables s
    → Returns
        (Allocates
          (λ s. s.freeinode_ts)
          (λ s t. record s { freeinode_ts = t })
          s.fs_params.max_inode_count
          s)
        (inode_alloc s)
unfolding inode_alloc
inode_alloc_lem {s} v =
    let (o, run, found) =
      first_free-Searched storage_delay (λ s. s.freeinode_ts) s (storage_delay-ok v)
        s.fs_params.max_inode_count 0 (omega arith) in
    rw run (take_inode-Allocates v o found)

-- Where the tables have their sizes: `data_block_alloc` returns; it marks the first FREE block TAKEN
-- and returns its number, or returns -1 and changes nothing when there is none.
pub data_block_alloc_lem :
    {s : State}
    → HasTables s
    → Returns
        (Allocates
          (λ s. s.free_blocks)
          (λ s t. record s { free_blocks = t })
          s.fs_params.max_block_count
          s)
        (data_block_alloc s)
unfolding data_block_alloc
data_block_alloc_lem {s} v =
    let (o, run, found) =
      first_free-Searched storage_delay (λ s. s.free_blocks) s (storage_delay-ok v)
        s.fs_params.max_block_count 0 (omega arith) in
    rw run (take_block-Allocates v o found)
