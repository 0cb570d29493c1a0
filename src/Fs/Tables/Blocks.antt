-- ===== src/Fs/Tables/Blocks.antt =====
-- Blocks of fs/state.c: where they lie in memory, and that different ones do not meet.
use so_ii.Prelude.{ℕ, ◌+◌, ◌*◌, ◌≤◌, ◌<◌, ◌≡◌, ◌≢◌, ◌⊎◌, inl, inr, ℤ, pos, arith, set, lt→ltb, ◌^◌}
use native.Mathlib.Nat.{mod-eq_of_lt}
use native.Mathlib.Decide.{dec_lt}
use so_ii.Fs.State.{State, free, ok}
use so_ii.Fs.Returns.{store-ok}
use so_ii.Fs.Layout.{HasTables}
use so_ii.Fs.Tables.{valid_block_number, data_block_free, data_block_get}

-- A block lies inside the disk, and two blocks are apart.
pub block_fits : (b n k : ℕ) → b < n → b * k + k ≤ n * k
block_fits b n k h = grind arith

pub blocks_apart : (b c k : ℕ) → b ≢ c → (b * k + k ≤ c * k) ⊎ (c * k + k ≤ b * k)
blocks_apart b c k h = elim (dec_lt b c) [
  | yes p ↦ inl (block_fits b c k p)
  | no p ↦ inr (block_fits c b k (omega arith))
]

module _ {s : State} (v : HasTables s) {b : ℕ} (h : b < s.fs_params.max_block_count) where
  pub data_block_get-ok : data_block_get (pos b) s ≡ ok (b * s.fs_params.block_size) s
  unfolding data_block_get valid_block_number
  data_block_get-ok = rw (
    lt→ltb b s.fs_params.max_block_count h,
    mod-eq_of_lt {n = b * s.fs_params.block_size} {m = 2 ^ 64}
        (omega (arith, block_fits b s.fs_params.max_block_count s.fs_params.block_size h)),
  )

  pub data_block_free-ok :
      data_block_free (pos b) s ≡ ok tt (record s { free_blocks = set s.free_blocks b free })
  unfolding data_block_free valid_block_number
  data_block_free-ok = rw (
    lt→ltb b s.fs_params.max_block_count h,
    store-ok (λ s. s.free_blocks) s b (omega arith) (λ s t. record s { free_blocks = t }) free,
  )

  -- The same for the number that a variable holds.
  pub data_block_get_of :
      {z : ℤ} → z ≡ pos b → data_block_get z s ≡ ok (b * s.fs_params.block_size) s
  data_block_get_of e = rw e data_block_get-ok

  pub data_block_free_of :
      {z : ℤ}
      → z ≡ pos b
      → data_block_free z s ≡ ok tt (record s { free_blocks = set s.free_blocks b free })
  data_block_free_of e = rw e data_block_free-ok
