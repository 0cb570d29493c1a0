-- ===== src/Fs/Operations/Lock.antt =====
-- Every operation takes `g_library_mutex` once and gives it back once, and is its body in between.
use so_ii.Prelude.{
  ℕ, ◌≡◌, ◌≢◌, ◌∙◌, refl, ap, ℤ, pos, negsuc, minus_one, eq_ℤ, false, List, [], ◌∷◌, ◌++◌, arith,
  Bool-cases, inl, inr,
}
use mathlib.Core.List.{append_assoc}
use so_ii.Fs.State.{State, MutexCall, lock, unlock, Cmd}
use so_ii.Fs.Returns.{Returns, returns}
use so_ii.Fs.Returns
use so_ii.Fs.Invariant.{IsValid, HasFiles}
use so_ii.Fs.Operations.{Pthread, mutex, with_lock}

-- `s` after one more call on the mutex.
abbrev pub called : State → MutexCall → State
called s call = record s { mutex_calls = s.mutex_calls ++ (call ∷ []) }

-- The pthread calls return an error number or 0, and never -1.
abbrev pub NeverFails : Pthread → Type 0
NeverFails pthread = (calls : List MutexCall) (call : MutexCall) → pthread calls call ≢ minus_one

eq_ℤ-ne : (z : ℤ) → z ≢ minus_one → eq_ℤ z minus_one ≡ false
eq_ℤ-ne (pos n) h = refl
eq_ℤ-ne (negsuc n) h = elim (Bool-cases (eq_ℤ (negsuc n) minus_one)) [
  | inl same ↦ absurd (h (ground arith))
  | inr differs ↦ differs
]

module _ (pthread : Pthread) (never : NeverFails pthread) where
  -- The operation is its body, between the two calls.
  pub with_lock-Returns :
      {A : Type 0} {P : A → State → Type 0} (failed : A) (forget : A → A) (body : Cmd A) (s : State)
      → Returns P (body (called s lock))
      → Returns
          (λ a s'. (t : State) × P a t × (s' ≡ called t unlock))
          (with_lock pthread failed forget body s)
  unfolding with_lock mutex
  with_lock-Returns failed forget body s run =
      rw (eq_ℤ-ne (pthread s.mutex_calls lock) (never s.mutex_calls lock)) (
        Returns.bind run λ a t p.
          rw (eq_ℤ-ne (pthread t.mutex_calls unlock) (never t.mutex_calls unlock))
            (returns (t, p, refl)))

HasFiles-called : {r : ℕ} {s : State} (call : MutexCall) → HasFiles r s → HasFiles r (called s call)
HasFiles-called call v = record {
  tables = let w = v.tables in omega arith;
  some_inode = v.some_inode;
  root_taken = v.root_taken;
  root_directory = v.root_directory;
  root_block = v.root_block;
  root_small = v.root_small;
  root_block_taken = v.root_block_taken;
  directory = v.directory;
  files = v.files;
  owned = v.owned;
  exclusive = v.exclusive;
  open_files = λ k o. v.open_files k (record { small = o.small; is_taken = o.is_taken });
}

pub IsValid-called :
    {r : ℕ} {s : State} (call : MutexCall) → IsValid r s → IsValid r (called s call)
IsValid-called call v = record { core = HasFiles-called call v.core; links = v.links }

-- `P` holds between the two calls, at the state before the second.
abbrev pub Between : {A : Type 0} → (A → State → Type 0) → A → State → Type 0
Between P a s' = (t : State) × P a t × (s' ≡ called t unlock)

-- The mutex has been taken and given back.
abbrev pub LockedOnce : State → State → Type 0
LockedOnce s s' = s'.mutex_calls ≡ s.mutex_calls ++ (lock ∷ unlock ∷ [])

module _ (pthread : Pthread) (never : NeverFails pthread) where
  pub with_lock_lem :
      {A : Type 0} {P : A → State → Type 0} {r : ℕ} (s : State) (failed : A) (forget : A → A)
      (body : Cmd A)
      → Returns (λ a t. IsValid r t × P a t) (body (called s lock))
      → ((a : A) (t : State) → P a t → t.mutex_calls ≡ (called s lock).mutex_calls)
      → Returns
          (λ a s'. IsValid r s' × Between P a s' × LockedOnce s s')
          (with_lock pthread failed forget body s)
  with_lock_lem s failed forget body run same =
      Returns.mono (with_lock-Returns pthread never failed forget body s run) λ a s' (t, (v, p), e).
        (
          rw e (IsValid-called unlock v),
          (t, p, e),
          rw e (
              ap (λ (calls : List MutexCall). calls ++ (unlock ∷ [])) (same a t p)
              ∙ append_assoc s.mutex_calls (lock ∷ []) (unlock ∷ [])),
        )
