-- ===== src/Fs/Tables/Overrun.antt =====
-- The search of the allocators where the parameters give a table more entries than it has.
use so_ii.Prelude.{ℕ, zero, suc, ◌+◌, ◌≤◌, ◌<◌, ◌≡◌, Array, arith}
use native.Mathlib.Decide.{dec_lt}
use so_ii.Fs.State.{State, AllocationState, Cmd, ok, fault, load}
use so_ii.Fs.Returns.{load-ok}
use so_ii.Fs.Tables.{storage_delay, first_free, inode_alloc}
use so_ii.Fs.Tables.Search.{AllTaken}

-- An access behind the end.
load-fault :
    {A : Type 0} (table : State → Array A) (s : State) (i : ℕ)
    → (table s).size ≤ i
    → load table i s ≡ fault
unfolding load
load-fault table s i h = ground (arith, h)

module _ (delay : ℕ → Cmd (Unit {0})) (table : State → Array AllocationState) (s : State)
    (quick : (i : ℕ) → delay i s ≡ ok tt s) (full : AllTaken (table s).at 0 (table s).size) where
  -- A search of more entries than the table has, all of which are taken, leaves the table.
  first_free-fault :
      (rounds i : ℕ)
      → i ≤ (table s).size
      → (table s).size < i + rounds
      → first_free delay table rounds i s ≡ fault
  unfolding first_free
  first_free-fault zero i low high = absurd (omega arith)
  first_free-fault (suc rounds) i low high = elim (dec_lt i (table s).size) [
    | no behind ↦ rw (quick i, load-fault table s i (omega arith))
    | yes inside ↦
        rw (quick i, load-ok table s i inside, full i (omega arith) (omega arith))
          (first_free-fault rounds (i + 1) (omega arith) (omega arith))
  ]

pub inode_alloc-fault :
    (s : State)
    → 0 < s.fs_params.block_size
    → AllTaken s.freeinode_ts.at 0 s.freeinode_ts.size
    → s.freeinode_ts.size < s.fs_params.max_inode_count
    → inode_alloc s ≡ fault
unfolding inode_alloc storage_delay
inode_alloc-fault s q full more = rw (
    first_free-fault storage_delay (λ s. s.freeinode_ts) s (λ i. ground (arith, q)) full
      s.fs_params.max_inode_count 0 (omega arith) (omega (arith, more)))
