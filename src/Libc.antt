-- ===== src/Libc.antt =====
-- What the programs use of the C library on bytes: character arrays, strings, `atoi` and `strtok`.
pub mod Laws
use Prim.Native.Char.{code}
use Prim.Native.String.{String}
use so_ii.Prelude.{
  ℕ, zero, suc, ◌+◌, ◌-◌, ◌*◌, ◌^◌, Bool, true, false, ◌||◌, ◌&&◌, Option, none, some, List, [],
  ◌∷◌, ℤ, pos, negsuc, leb, ltb, ◌==◌, copy_in, if◌then◌else◌,
}

-- The bytes of a literal.
abbrev pub codes : String → List ℕ
codes String.[] = []
codes (String.◌∷◌ c s) = code c ∷ codes s

abbrev pub zeros : ℕ → ℕ
zeros x = 0

-- An array of zeros into which `strcpy` has put a string.
pub char_array : List ℕ → ℕ → ℕ
char_array name = copy_in zeros 0 name

-- The string at `f + a`, if it ends within `n` bytes.
pub string_at : (f : ℕ → ℕ) (a n : ℕ) → Option (List ℕ)
string_at f a zero = none
string_at f a (suc n) =
    let rest = string_at f (a + 1) n in
    if f a == 0 then some [] else elim rest [ none ↦ none | some s ↦ some (f a ∷ s) ]

abbrev pub is_digit : ℕ → Bool
is_digit c = leb b'0' c && leb c b'9'

abbrev pub is_space : ℕ → Bool
is_space c = c == 32 || (leb 9 c && leb c 13)

-- The digits at the front of a string, behind the number `n` read so far.
unfoldable pub digits : ℕ → List ℕ → ℕ
digits n [] = n
digits n (c ∷ s) = let rest = digits (10 * n + (c - b'0')) s in if is_digit c then rest else n

-- `-n`.
abbrev pub minus : ℕ → ℤ
minus zero = pos 0
minus (suc n) = negsuc n

-- A sign, and then digits.
unfoldable pub signed : List ℕ → ℤ
unfolding digits
signed [] = pos 0
signed (c ∷ s) =
    if c == b'-'
    then minus (digits 0 s)
    else if c == b'+'
    then pos (digits 0 s)
    else pos (digits 0 (c ∷ s))

-- `atoi` of a string whose number is in the range of `int`.
unfoldable pub atoi : List ℕ → ℤ
unfolding signed
atoi [] = pos 0
atoi (c ∷ s) = let rest = atoi s in if is_space c then rest else signed (c ∷ s)

abbrev add_front : ℕ → List (List ℕ) → List (List ℕ)
add_front c [] = (c ∷ []) ∷ []
add_front c (t ∷ ts) = (c ∷ t) ∷ ts

-- The pieces between the separators `sep`, the empty ones included.
unfoldable pub pieces : ℕ → List ℕ → List (List ℕ)
pieces sep [] = [] ∷ []
pieces sep (c ∷ s) = let rest = pieces sep s in if c == sep then [] ∷ rest else add_front c rest

unfoldable pub nonempty : List (List ℕ) → List (List ℕ)
nonempty [] = []
nonempty ([] ∷ ts) = nonempty ts
nonempty ((c ∷ t) ∷ ts) = (c ∷ t) ∷ nonempty ts

-- What `strtok(s, sep)` and then `strtok(NULL, sep)` return until NULL.
unfoldable pub tokens : ℕ → List ℕ → List (List ℕ)
unfolding pieces nonempty
tokens sep s = nonempty (pieces sep s)

-- `strcmp(s, t) == 0` of two strings.
abbrev pub eq_bytes : List ℕ → List ℕ → Bool
eq_bytes [] [] = true
eq_bytes [] (d ∷ t) = false
eq_bytes (c ∷ s) [] = false
eq_bytes (c ∷ s) (d ∷ t) = c == d && eq_bytes s t
