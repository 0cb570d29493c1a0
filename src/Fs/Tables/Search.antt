-- ===== src/Fs/Tables/Search.antt =====
-- The search of the three allocators finds the first FREE entry.
use so_ii.Prelude.{
  ℕ, zero, suc, ◌+◌, ◌≤◌, ◌<◌, ◌≡◌, refl, Option, none, some, Array, arith, inl, inr, ◌⊎◌,
}
use native.Mathlib.Decide.{ℕ_discrete}
use so_ii.Fs.State.{State, AllocationState, free, taken, Cmd, ok}
use so_ii.Fs.Returns.{load-ok}
use so_ii.Fs.Tables.{first_free}

-- Entry `j` is FREE, one of the `n` entries from `i` on, and those before it are TAKEN.
pub record IsFirstFree (f : ℕ → AllocationState) (i n j : ℕ) : Type 0 where
  pub from : i ≤ j
  pub below : j < i + n
  pub is_free : f j ≡ free
  pub first : (k : ℕ) → i ≤ k → k < j → f k ≡ taken

abbrev pub AllTaken : (ℕ → AllocationState) → (i n : ℕ) → Type 0
AllTaken f i n = (k : ℕ) → i ≤ k → k < i + n → f k ≡ taken

-- What a search may answer.
abbrev pub Searched : (ℕ → AllocationState) → (i n : ℕ) → Option ℕ → Type 0
Searched f i n none = AllTaken f i n
Searched f i n (some j) = IsFirstFree f i n j

state_cases : (a : AllocationState) → (a ≡ free) ⊎ (a ≡ taken)
state_cases free = inl refl
state_cases taken = inr refl

-- Entry `i` is TAKEN, and entry `k` if it stands behind it.
first-suc :
    (f : ℕ → AllocationState) (i : ℕ)
    → f i ≡ taken
    → (k : ℕ) {m : ℕ} → (i + 1 ≤ k → k < m → f k ≡ taken)
    → k < m
    → i ≤ k
    → f k ≡ taken
first-suc f i e k later q p = elim (ℕ_discrete k i) [
  | yes same ↦ rw same e
  | no other ↦ later (omega arith) q
]

Searched-suc :
    (f : ℕ → AllocationState) (i n : ℕ) (o : Option ℕ)
    → f i ≡ taken
    → Searched f (i + 1) n o
    → Searched f i (suc n) o
Searched-suc f i n none e h =
    λ k p q. first-suc f i e k {m = i + suc n} (λ lo hi. h k lo (omega arith)) q p
Searched-suc f i n (some j) e h = record {
  from = omega arith;
  below = omega arith;
  is_free = h.is_free;
  first = λ k p q. first-suc f i e k (λ lo hi. h.first k lo q) q p;
}

module _ (delay : ℕ → Cmd (Unit {0})) (table : State → Array AllocationState) (s : State)
    (quick : (i : ℕ) → delay i s ≡ ok tt s) where
  pub first_free-Searched :
      (n i : ℕ)
      → i + n ≤ (table s).size
      → (o : Option ℕ) × (first_free delay table n i s ≡ ok o s) × Searched (table s).at i n o
  unfolding first_free
  first_free-Searched zero i h = (none, refl, λ k p q. absurd (omega arith))
  first_free-Searched (suc n) i h = elim (state_cases ((table s).at i)) [
    | inl e ↦ (
      some i,
      rw (quick i, load-ok table s i (omega arith), e),
      record {
        from = omega arith;
        below = omega arith;
        is_free = e;
        first = λ k p q. absurd (omega arith);
      },
    )
    | inr e ↦
        let (o, run, found) = first_free-Searched n (i + 1) (omega arith) in
        (
          o,
          rw (quick i, load-ok table s i (omega arith), e) run,
          Searched-suc (table s).at i n o e found,
        )
  ]
