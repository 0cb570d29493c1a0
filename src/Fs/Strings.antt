-- ===== src/Fs/Strings.antt =====
-- C strings. A caller's string is the list of its bytes before the NUL; a string in memory is
-- compared byte by byte, as `strcmp` and `strncmp` do.
pub mod Compare
use so_ii.Prelude.{
  ℕ, zero, suc, ◌+◌, ◌-◌, ◌≡◌, ◌≢◌, Bool, true, ◌&&◌, List, [], ◌∷◌, ◌++◌, ◌==◌, length, take,
  replicate,
}

-- `strcmp(f + a, name) == 0`.
unfoldable pub strcmp_eq : (ℕ → ℕ) → ℕ → List ℕ → Bool
strcmp_eq f a [] = f a == 0
strcmp_eq f a (c ∷ name) = f a == c && strcmp_eq f (a + 1) name

-- `strncmp(f + a, name, n) == 0`.
pub strncmp_eq : ℕ → (ℕ → ℕ) → ℕ → List ℕ → Bool
strncmp_eq zero f a name = true
strncmp_eq (suc n) f a [] = f a == 0
strncmp_eq (suc n) f a (c ∷ name) = f a == c && strncmp_eq n f (a + 1) name

-- The `n` bytes that `strncpy(_, name, n)` writes: the name, cut off or filled up with NUL.
pub strncpy_bytes : ℕ → List ℕ → List ℕ
strncpy_bytes n name = take n name ++ replicate (n - length name) 0

-- A C string holds no NUL.
abbrev pub IsString : List ℕ → Type 0
IsString [] = Unit
IsString (c ∷ name) = (c ≢ 0) × IsString name
