-- ===== src/Prelude/Arrays.antt =====
-- C arrays behind a pointer that may be NULL, and ranges of bytes in memory.
use Prim.Native.Nat.{ℕ, zero, suc, ◌+◌, ◌-◌, ◌<◌, ◌≤◌}
use mathlib.Core.Path.{◌≡◌, refl, ap, ap₂, fun_ext}
use mathlib.Core.Logic.{◌≢◌, ◌⊎◌}
use mathlib.Core.Bool.{Bool, false, ◌&&◌}
use mathlib.Core.List.{List, [], ◌∷◌}
use native.Mathlib.Omega.{arith}
use so_ii.Prelude.Tests.{ltb, leb, ◌==◌, if◌then◌else◌}
use so_ii.Prelude.Lists.{length, get_or}

-- What a pointer to `size` elements leads to. `NULL` leads to none.
pub record Array {ℓ} (A : Type ℓ) : Type ℓ where
  pub allocated : Bool
  pub size : ℕ
  pub at : ℕ → A

abbrev pub null {ℓ} : {A : Type ℓ} → A → Array A
null d = record { allocated = false; size = 0; at = λ _. d }

abbrev pub update {ℓ} : {A : Type ℓ} → (ℕ → A) → ℕ → A → ℕ → A
update f i v j = if i == j then v else f j

abbrev pub set {ℓ} : {A : Type ℓ} → Array A → ℕ → A → Array A
set t i v = record t { at = update t.at i v }

-- The `n` values from `a` on.
abbrev pub slice {ℓ} : {A : Type ℓ} → (ℕ → A) → ℕ → ℕ → List A
slice f a zero = []
slice f a (suc n) = f a ∷ slice f (a + 1) n

-- Memory after `memcpy` of a list of bytes to `a`.
unfoldable pub copy_in : (ℕ → ℕ) → ℕ → List ℕ → ℕ → ℕ
copy_in f a bs x = if leb a x && ltb x (a + length bs) then get_or bs (x - a) 0 else f x

pub copy_in_inside :
    (f : ℕ → ℕ) (a : ℕ) (bs : List ℕ) (j : ℕ)
    → j < length bs
    → copy_in f a bs (a + j) ≡ get_or bs j 0
unfolding copy_in
copy_in_inside f a bs j h =
    let e : a + j - a ≡ j = omega arith in ground (arith, ap (λ (i : ℕ). get_or bs i 0) e)

pub copy_in_outside :
    (f : ℕ → ℕ) (a : ℕ) (bs : List ℕ) (x : ℕ)
    → (x < a) ⊎ (a + length bs ≤ x)
    → copy_in f a bs x ≡ f x
unfolding copy_in
copy_in_outside f a bs x h = ground arith

pub length-slice {ℓ} : {A : Type ℓ} (f : ℕ → A) (a n : ℕ) → length (slice f a n) ≡ n
length-slice f a zero = refl
length-slice f a (suc n) = ap suc (length-slice f (a + 1) n)

pub slice_congr {ℓ} :
    {A : Type ℓ} (f g : ℕ → A) (a n : ℕ)
    → ((x : ℕ) → a ≤ x → x < a + n → f x ≡ g x)
    → slice f a n ≡ slice g a n
slice_congr f g a zero h = refl
slice_congr f g a (suc n) h =
    ap₂ ◌∷◌ (h a (omega arith) (omega arith))
      (slice_congr f g (a + 1) n λ x p q. h x (omega arith) (omega arith))

slice_eq :
    (f : ℕ → ℕ) (a : ℕ) (bs : List ℕ)
    → ((j : ℕ) → j < length bs → f (a + j) ≡ get_or bs j 0)
    → slice f a (length bs) ≡ bs
slice_eq f a [] h = refl
slice_eq f a (b ∷ bs) h =
    ap₂ ◌∷◌ (ground (arith, h 0 (omega arith)))
      (slice_eq f (a + 1) bs λ j p. ground (arith, h (suc j) (omega arith)))

-- What was written is read back.
pub slice-copy_in : (f : ℕ → ℕ) (a : ℕ) (bs : List ℕ) → slice (copy_in f a bs) a (length bs) ≡ bs
slice-copy_in f a bs = slice_eq (copy_in f a bs) a bs (copy_in_inside f a bs)

-- A write leaves the ranges alone that it does not touch.
pub slice-copy_in_outside :
    (f : ℕ → ℕ) (a : ℕ) (bs : List ℕ) (x n : ℕ)
    → (x + n ≤ a) ⊎ (a + length bs ≤ x)
    → slice (copy_in f a bs) x n ≡ slice f x n
slice-copy_in_outside f a bs x n h =
    slice_congr (copy_in f a bs) f x n λ y p q. copy_in_outside f a bs y (ground arith)

module _ {ℓ} {A : Type ℓ} (f : ℕ → A) (i : ℕ) (v : A) where
  pub update_self : update f i v i ≡ v
  update_self = ground arith

  pub update_ne : (j : ℕ) → i ≢ j → update f i v j ≡ f j
  update_ne j h = ground arith

-- Of two writes to one place the second stays.
pub update-update {ℓ} :
    {A : Type ℓ} (f : ℕ → A) (i : ℕ) (v w : A) → update (update f i v) i w ≡ update f i w
update-update f i v w = fun_ext λ j. ground arith
