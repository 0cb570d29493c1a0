-- ===== src/Fs/Returns.antt =====
-- Runs that end with a value: no assertion fails, and no access is out of bounds.
use so_ii.Prelude.{ℕ, ◌<◌, ◌≡◌, lt→ltb, Array, set}
use so_ii.Fs.State.{State, Run, ok, Cmd, load, store, and_then}

pub data Returns {A : Type 0} (P : A → State → Type 0) : Run A → Type 0 where
  returns : {a : A} {s : State} → P a s → Returns P (ok a s)

module _ {A : Type 0} {P : A → State → Type 0} where
  pub bind :
      {B : Type 0} {Q : B → State → Type 0} {r : Run A} {k : A → Cmd B}
      → Returns P r
      → ((a : A) (s : State) → P a s → Returns Q (k a s))
      → Returns Q (and_then r k)
  bind (returns p) next = next _ _ p

  pub mono :
      {Q : A → State → Type 0} {r : Run A}
      → Returns P r
      → ((a : A) (s : State) → P a s → Q a s)
      → Returns Q r
  mono (returns p) weaken = returns (weaken _ _ p)

module _ {A : Type 0} (table : State → Array A) (s : State) (i : ℕ) (h : i < (table s).size) where
  pub load-ok : load table i s ≡ ok ((table s).at i) s
  unfolding load
  load-ok = rw (lt→ltb i (table s).size h)

  pub store-ok :
      (put : State → Array A → State) (v : A)
      → store table put i v s ≡ ok tt (put s (set (table s) i v))
  unfolding store
  store-ok put v = rw (lt→ltb i (table s).size h)
