-- ===== src/Fs/Strings/Compare.antt =====
-- `strcmp`, `strncmp` and `strncpy` on names of known length.
use so_ii.Prelude.{
  ℕ, zero, suc, ◌+◌, ◌-◌, ◌≤◌, ◌<◌, ◌≡◌, refl, true, List, [], ◌∷◌, arith, length-append,
  length-take, length-replicate, length, get_or, take, replicate,
}
use mathlib.Core.Path.{ap₂}
use so_ii.Fs.Strings.{strcmp_eq, strncmp_eq, strncpy_bytes, IsString}

module _ (f : ℕ → ℕ) where
  pub strncmp_eq_of_strcmp_eq :
      (k a : ℕ) (name : List ℕ) → strcmp_eq f a name ≡ true → strncmp_eq k f a name ≡ true
  unfolding strcmp_eq strncmp_eq
  strncmp_eq_of_strcmp_eq zero a name h = refl
  strncmp_eq_of_strcmp_eq (suc k) a [] h = h
  strncmp_eq_of_strcmp_eq (suc k) a (c ∷ name) h =
      ground (arith, strncmp_eq_of_strcmp_eq k (a + 1) name)

  -- A string that fits the bound is equal to any string that agrees with it up to the bound.
  pub eq_of_strncmp_eq :
      (k a : ℕ) (name other : List ℕ)
      → IsString name
      → IsString other
      → length name < k
      → strcmp_eq f a name ≡ true
      → strncmp_eq k f a other ≡ true
      → name ≡ other
  unfolding strcmp_eq strncmp_eq
  eq_of_strncmp_eq zero a name other p q h n o = absurd (omega arith)
  eq_of_strncmp_eq (suc k) a [] [] p q h n o = refl
  eq_of_strncmp_eq (suc k) a [] (c ∷ other) p q h n o = ground arith
  eq_of_strncmp_eq (suc k) a (c ∷ name) [] p q h n o = ground arith
  eq_of_strncmp_eq (suc k) a (c ∷ name) (d ∷ other) p q h n o =
      ap₂ ◌∷◌ (ground arith)
        (eq_of_strncmp_eq k (a + 1) name other p.1 q.1 (omega arith) (ground arith) (ground arith))

  pub eq_of_strcmp_eq :
      (a : ℕ) (name other : List ℕ)
      → IsString name
      → IsString other
      → strcmp_eq f a name ≡ true
      → strcmp_eq f a other ≡ true
      → name ≡ other
  eq_of_strcmp_eq a name other p q n o =
      eq_of_strncmp_eq (suc (length name)) a name other p q (omega arith) n
        (strncmp_eq_of_strcmp_eq (suc (length name)) a other o)

  -- Memory that holds the bytes of a name and a NUL compares equal to it.
  pub strcmp_eq_of_bytes :
      (a : ℕ) (name : List ℕ)
      → ((j : ℕ) → j ≤ length name → f (a + j) ≡ get_or name j 0)
      → strcmp_eq f a name ≡ true
  unfolding strcmp_eq
  strcmp_eq_of_bytes a [] h = ground (arith, h 0)
  strcmp_eq_of_bytes a (c ∷ name) h = ground (
    arith,
    h 0,
    strcmp_eq_of_bytes (a + 1) name λ (j : ℕ) (p : j ≤ length name). ground (arith, h (suc j)),
  )

pub strcmp_eq_congr :
    (f g : ℕ → ℕ) (a : ℕ) (name : List ℕ)
    → ((j : ℕ) → j ≤ length name → f (a + j) ≡ g (a + j))
    → strcmp_eq f a name ≡ strcmp_eq g a name
unfolding strcmp_eq
strcmp_eq_congr f g a [] h = ground (arith, h 0)
strcmp_eq_congr f g a (c ∷ name) h = ground (
  arith,
  h 0,
  strcmp_eq_congr f g (a + 1) name λ (j : ℕ) (p : j ≤ length name). ground (arith, h (suc j)),
)

strncmp_eq_congr :
    (k : ℕ) (f g : ℕ → ℕ) (a : ℕ) (name : List ℕ)
    → ((j : ℕ) → j < k → f (a + j) ≡ g (a + j))
    → strncmp_eq k f a name ≡ strncmp_eq k g a name
unfolding strncmp_eq
strncmp_eq_congr zero f g a name h = refl
strncmp_eq_congr (suc k) f g a [] h = ground (arith, h 0)
strncmp_eq_congr (suc k) f g a (c ∷ name) h = ground (
  arith,
  h 0,
  strncmp_eq_congr k f g (a + 1) name λ (j : ℕ) (p : j < k). ground (arith, h (suc j)),
)

get_or-replicate : (n j : ℕ) → get_or {A = ℕ} (replicate n 0) j 0 ≡ 0
get_or-replicate zero j = refl
get_or-replicate (suc n) zero = refl
get_or-replicate (suc n) (suc j) = get_or-replicate n j

-- What `strncpy` writes for a name that fits.
pub get_or-strncpy_bytes :
    (n : ℕ) (name : List ℕ) (j : ℕ)
    → length name ≤ n
    → get_or (strncpy_bytes n name) j 0 ≡ get_or name j 0
unfolding strncpy_bytes
get_or-strncpy_bytes zero [] j h = ground (arith, get_or-replicate (0 - 0) j)
get_or-strncpy_bytes zero (c ∷ name) j h = absurd (omega arith)
get_or-strncpy_bytes (suc n) [] j h = ground (arith, get_or-replicate (suc n - 0) j)
get_or-strncpy_bytes (suc n) (c ∷ name) zero h = refl
get_or-strncpy_bytes (suc n) (c ∷ name) (suc j) h = ground (arith, get_or-strncpy_bytes n name j)

pub length-strncpy_bytes :
    (n : ℕ) (name : List ℕ) → length name ≤ n → length (strncpy_bytes n name) ≡ n
unfolding strncpy_bytes
length-strncpy_bytes n name h = omega (
  arith,
  length-append (take n name) (replicate (n - length name) 0),
  length-take n name,
  length-replicate {A = ℕ} (n - length name) 0,
)
