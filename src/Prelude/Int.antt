-- ===== src/Prelude/Int.antt =====
-- The C type `int`: integers, the cast from `size_t`, and the four bytes of an `int` in memory
-- (two's complement, least significant byte first).
use Prim.Native.Nat.{ℕ, ◌+◌, ◌-◌, ◌*◌, ◌/◌, ◌%◌, ◌^◌, ◌<◌}
use mathlib.Core.Path.{◌≡◌, refl, ap, ◌∙◌}
use mathlib.Core.Bool.{Bool, false}
use mathlib.Core.List.{List, [], ◌∷◌}
use native.Mathlib.Omega.{arith}
use so_ii.Prelude.Lists.{length, get_or}
use so_ii.Prelude.Tests.{ltb, ◌==◌, if◌then◌else◌}

-- `negsuc n` is -(n + 1).
pub data ℤ : Type 0 where
  pos : ℕ → ℤ
  negsuc : ℕ → ℤ

abbrev pub minus_one : ℤ
minus_one = negsuc 0

abbrev pub eq_ℤ : ℤ → ℤ → Bool
eq_ℤ (pos a) (pos b) = a == b
eq_ℤ (pos a) (negsuc b) = false
eq_ℤ (negsuc a) (pos b) = false
eq_ℤ (negsuc a) (negsuc b) = a == b

-- 2 ^ 64, what a `size_t` counts up to, and 2 ^ 31, what an `int` does.
abbrev pub size_mod : ℕ
size_mod = 2 ^ 64

abbrev pub int_limit : ℕ
int_limit = 2 ^ 31

-- `a + b` and `a - b` on `size_t`.
abbrev pub add_size : ℕ → ℕ → ℕ
add_size a b = (a + b) % 2 ^ 64

abbrev pub sub_size : ℕ → ℕ → ℕ
sub_size a b = (a + 2 ^ 64 - b) % 2 ^ 64

-- The value of 32 bits read as an `int`.
unfoldable pub int_of_word : ℕ → ℤ
int_of_word w = if ltb w (2 ^ 31) then pos w else negsuc (2 ^ 32 - 1 - w)

pub word_of_int : ℤ → ℕ
word_of_int (pos n) = n % 2 ^ 32
word_of_int (negsuc n) = 2 ^ 32 - 1 - n % 2 ^ 32

-- `(int)n` of a `size_t`.
pub int_of_size : ℕ → ℤ
unfolding int_of_word
int_of_size n = int_of_word (n % 2 ^ 32)

pub int_of_size-pos : (n : ℕ) → n < int_limit → int_of_size n ≡ pos n
unfolding int_of_size
int_of_size-pos n h = ground arith

pub int_bytes : ℤ → List ℕ
unfolding word_of_int
int_bytes z =
    (word_of_int z % 256)
    ∷ (word_of_int z / 256 % 256)
    ∷ (word_of_int z / 65536 % 256)
    ∷ (word_of_int z / 16777216 % 256)
    ∷ []

-- The `int` that four bytes make up.
unfoldable pub int_at : (ℕ → ℕ) → ℕ → ℤ
unfolding int_of_word
int_at f a = int_of_word (f a + 256 * f (a + 1) + 65536 * f (a + 2) + 16777216 * f (a + 3))

-- What an `int` can hold.
abbrev pub IsInt : ℤ → Type 0
IsInt (pos n) = n < int_limit
IsInt (negsuc n) = n < int_limit

pub word_of_int-lt : (z : ℤ) → word_of_int z < 2 ^ 32
unfolding word_of_int
word_of_int-lt (pos n) = omega arith
word_of_int-lt (negsuc n) = omega arith

pub int_of_word-word_of_int : (z : ℤ) → IsInt z → int_of_word (word_of_int z) ≡ z
unfolding int_of_word word_of_int
int_of_word-word_of_int (pos n) h = ground arith
int_of_word-word_of_int (negsuc n) h = ground arith

pub word_bytes :
    (w : ℕ)
    → w < 2 ^ 32
    → w % 256 + 256 * (w / 256 % 256) + 65536 * (w / 65536 % 256) + 16777216 * (w / 16777216 % 256)
      ≡ w
word_bytes w h = omega arith

int_at_bytes :
    (f : ℕ → ℕ) (a : ℕ) (z : ℤ)
    → IsInt z
    → f a ≡ word_of_int z % 256
    → f (a + 1) ≡ word_of_int z / 256 % 256
    → f (a + 2) ≡ word_of_int z / 65536 % 256
    → f (a + 3) ≡ word_of_int z / 16777216 % 256
    → int_at f a ≡ z
unfolding int_at
int_at_bytes f a z h h0 h1 h2 h3 =
    ap int_of_word (omega (arith, word_bytes (word_of_int z) (word_of_int-lt z)))
    ∙ int_of_word-word_of_int z h

-- Four bytes that hold `int_bytes z` are read back as `z`.
pub int_at-int_bytes :
    (f : ℕ → ℕ) (a : ℕ) (z : ℤ)
    → IsInt z
    → ((j : ℕ) → j < 4 → f (a + j) ≡ get_or (int_bytes z) j 0)
    → int_at f a ≡ z
unfolding int_bytes
int_at-int_bytes f a z is h =
    int_at_bytes f a z is (ground (arith, h 0 (omega arith))) (h 1 (omega arith))
      (h 2 (omega arith)) (h 3 (omega arith))

pub length-int_bytes : (z : ℤ) → length (int_bytes z) ≡ 4
unfolding int_bytes
length-int_bytes z = refl

pub int_at_congr :
    (f g : ℕ → ℕ) (a : ℕ) → ((j : ℕ) → j < 4 → f (a + j) ≡ g (a + j)) → int_at f a ≡ int_at g a
unfolding int_at
int_at_congr f g a h =
    ground (arith, h 0 (omega arith), h 1 (omega arith), h 2 (omega arith), h 3 (omega arith))
