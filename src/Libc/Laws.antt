-- ===== src/Libc/Laws.antt =====
-- Strings in arrays are read back.
use so_ii.Prelude.{
  ℕ, zero, suc, ◌+◌, ◌-◌, ◌≤◌, ◌<◌, ◌≡◌, ◌∙◌, refl, sym, ap, arith, List, [], ◌∷◌, length, get_or,
  some, pos, copy_in, copy_in_inside, copy_in_outside, slice, length-slice, inr, false, true,
}
use native.Mathlib.Decide.{dec_lt}
use so_ii.Fs.Strings.{IsString}
use so_ii.Libc.{zeros, char_array, string_at, digits, signed, atoi, is_digit}

pub get_or_past : (s : List ℕ) (j : ℕ) → length s ≤ j → get_or s j 0 ≡ 0
get_or_past [] j h = refl
get_or_past (c ∷ s) zero h = absurd (omega arith)
get_or_past (c ∷ s) (suc j) h = get_or_past s j (omega arith)

-- A character array holds the string's bytes, and then zeros.
pub char_array-byte : (name : List ℕ) (j : ℕ) → char_array name j ≡ get_or name j 0
unfolding char_array
char_array-byte name j = elim (dec_lt j (length name)) [
  | yes inside ↦
      let e : j ≡ 0 + j = omega arith in
      ap (copy_in zeros 0 name) e ∙ copy_in_inside zeros 0 name j inside
  | no past ↦
      copy_in_outside zeros 0 name j (inr (omega arith)) ∙ sym (get_or_past name j (omega arith))
]

-- Memory that holds a string's bytes and a NUL holds the string.
pub string_at-bytes :
    (f : ℕ → ℕ) (a n : ℕ) (name : List ℕ)
    → IsString name
    → length name < n
    → ((j : ℕ) → j ≤ length name → f (a + j) ≡ get_or name j 0)
    → string_at f a n ≡ some name
unfolding string_at
string_at-bytes f a zero name is h bytes = absurd (omega arith)
string_at-bytes f a (suc n) [] is h bytes = ground (arith, bytes 0 (omega arith))
string_at-bytes f a (suc n) (c ∷ name) is h bytes =
    let here : f a ≡ c = let e : a ≡ a + 0 = omega arith in ap f e ∙ bytes 0 (omega arith) in
    let rest =
      string_at-bytes f (a + 1) n name is.1 (omega arith) λ j p.
        let e : a + 1 + j ≡ a + suc j = omega arith in ap f e ∙ bytes (suc j) (omega arith) in
    rw (rest, here) (ground (arith, is.0))

-- `atoi` of a digit and then no digit.
pub atoi-digit :
    (c : ℕ) (beyond : List ℕ)
    → is_digit c ≡ true
    → is_digit (get_or beyond 0 0) ≡ false
    → atoi (c ∷ beyond) ≡ pos (c - b'0')
unfolding atoi signed digits
atoi-digit c [] d h = ground arith
atoi-digit c (x ∷ beyond) d h = ground arith

-- Byte `j` of what is copied out of memory.
pub get_or-slice : (f : ℕ → ℕ) (a n j : ℕ) → j < n → get_or (slice f a n) j 0 ≡ f (a + j)
get_or-slice f a zero j h = absurd (omega arith)
get_or-slice f a (suc n) zero h = let e : a ≡ a + 0 = omega arith in ap f e
get_or-slice f a (suc n) (suc j) h =
    let e : a + 1 + j ≡ a + suc j = omega arith in get_or-slice f (a + 1) n j (omega arith) ∙ ap f e

-- Byte `x` of memory into which `bs` has been copied at `a`.
pub copy_in-byte :
    (f : ℕ → ℕ) (a : ℕ) (bs : List ℕ) (x : ℕ)
    → a ≤ x
    → x < a + length bs
    → copy_in f a bs x ≡ get_or bs (x - a) 0
copy_in-byte f a bs x h p =
    let e : x ≡ a + (x - a) = omega arith in
    ap (copy_in f a bs) e ∙ copy_in_inside f a bs (x - a) (omega arith)

-- What is copied from one place of memory to another, at byte `j`.
pub moved-byte : (f g : ℕ → ℕ) (a d n j : ℕ) → j < n → copy_in f d (slice g a n) (d + j) ≡ g (a + j)
moved-byte f g a d n j h =
    copy_in_inside f d (slice g a n) j (omega (arith, length-slice g a n)) ∙ get_or-slice g a n j h

-- The same from the front of an array, and to the front of one.
pub string_in-bytes :
    (f : ℕ → ℕ) (n : ℕ) (name : List ℕ)
    → IsString name
    → length name < n
    → ((j : ℕ) → j ≤ length name → f j ≡ get_or name j 0)
    → string_at f 0 n ≡ some name
string_in-bytes f n name is h bytes =
    string_at-bytes f 0 n name is h λ j p. let e : 0 + j ≡ j = omega arith in ap f e ∙ bytes j p

pub moved_front-byte : (f g : ℕ → ℕ) (a n j : ℕ) → j < n → copy_in f 0 (slice g a n) j ≡ g (a + j)
moved_front-byte f g a n j h =
    let e : j ≡ 0 + j = omega arith in ap (copy_in f 0 (slice g a n)) e ∙ moved-byte f g a 0 n j h

-- What is read as a string holds no NUL.
pub string_at-IsString : (f : ℕ → ℕ) (a n : ℕ) (s : List ℕ) → string_at f a n ≡ some s → IsString s
unfolding string_at
string_at-IsString f a zero s e = absurd (ground arith)
string_at-IsString f a (suc n) [] e = tt
string_at-IsString f a (suc n) (c ∷ s) e =
    (ground arith, string_at-IsString f (a + 1) n s (ground arith))
