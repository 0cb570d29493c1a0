-- ===== src/Clients/System.antt =====
-- What the clients ask of the operating system: the calls of a run in their order, and what comes of
-- them. What goes to the standard error is left out.
use so_ii.Prelude.{
  ℕ, ◌≡◌, refl, ap, Bool, true, false, List, [], ◌∷◌, ◌++◌, ℤ, pos, negsuc, if◌then◌else◌,
}

pub data Flags : Type 0 where
  o_rdonly o_wronly : Flags

-- A piece of a line that is printed: a string, or a number in decimal digits.
pub data Piece : Type 0 where
  text : List ℕ → Piece
  number : ℤ → Piece

-- `print` is a line on the standard output.
pub data SystemCall : Type 0 where
  open_fifo : (path : List ℕ) (flags : Flags) → SystemCall
  mkfifo : (path : List ℕ) → SystemCall
  unlink : (path : List ℕ) → SystemCall
  write_to : (fd : ℤ) (bytes : List ℕ) → SystemCall
  close_fd : (fd : ℤ) → SystemCall
  print : List Piece → SystemCall

-- The operating system: what a call returns after those before it.
abbrev pub Kernel : Type 0
Kernel = List SystemCall → SystemCall → ℤ

-- How a program stops: with its exit status, by undefined behaviour, or not, waiting for ever.
pub data Ending : Type 0 where
  exited : (status : ℕ) → Ending
  faulted waiting : Ending

-- A program goes on with a value or stops, and has made its calls.
pub data Step (A : Type 0) : Type 0 where
  went : A → List SystemCall → Step A
  stopped : Ending → List SystemCall → Step A

abbrev pub Program : Type 0 → Type 0
Program A = List SystemCall → Step A

module _ {A B : Type 0} where
  abbrev pub and_then : Step A → (A → Program B) → Step B
  and_then (went a calls) k = k a calls
  and_then (stopped e calls) k = stopped e calls

  infixl 5 ◌>>=◌ ◌>>◌
  abbrev pub ◌>>=◌ : Program A → (A → Program B) → Program B
  m >>= k = λ calls. and_then (m calls) k

  abbrev pub ◌>>◌ : Program A → Program B → Program B
  m >> k = m >>= λ _. k

abbrev pub pure : {A : Type 0} → A → Program A
pure = went

abbrev pub stop : {A : Type 0} → Ending → Program A
stop = stopped

-- A call, whatever it returns.
abbrev pub ask : Kernel → SystemCall → Program ℤ
ask kernel c calls = went (kernel calls c) (calls ++ (c ∷ []))

abbrev pub is_negative : ℤ → Bool
is_negative (pos n) = false
is_negative (negsuc n) = true

-- A call whose failure ends the program with `exit(EXIT_FAILURE)`, by the test of what it returns.
unfoldable pub attempt : (fails : ℤ → Bool) → Kernel → SystemCall → Program ℤ
attempt fails kernel c calls =
    let z = kernel calls c in
    let after = calls ++ (c ∷ []) in if fails z then stopped (exited 1) after else went z after

-- No call fails.
pub record NeverFails (kernel : Kernel) : Type 0 where
  pub not_negative :
      (calls : List SystemCall) (c : SystemCall) → is_negative (kernel calls c) ≡ false
  pub made : (calls : List SystemCall) (path : List ℕ) → kernel calls (mkfifo path) ≡ pos 0

-- A call that does not fail goes on.
pub attempt_went :
    (fails : ℤ → Bool) (kernel : Kernel) (c : SystemCall) (calls : List SystemCall)
    → fails (kernel calls c) ≡ false
    → attempt fails kernel c calls ≡ went (kernel calls c) (calls ++ (c ∷ []))
unfolding attempt
attempt_went fails kernel c calls e = rw e refl

pub attempt_then :
    {B : Type 0}
    → (fails : ℤ → Bool) (kernel : Kernel) (c : SystemCall) (calls : List SystemCall)
      (k : ℤ → Program B)
    → fails (kernel calls c) ≡ false
    → and_then (attempt fails kernel c calls) k ≡ k (kernel calls c) (calls ++ (c ∷ []))
attempt_then fails kernel c calls k e = ap (λ t. and_then t k) (attempt_went fails kernel c calls e)

pub and_then-if :
    {B : Type 0}
    → (b : Bool) (done after : List SystemCall) (e : Ending) (k : Unit {0} → Program B)
    → and_then (if b then went tt done else stopped e after) k
      ≡ (if b then k tt done else stopped e after)
and_then-if true done after e k = refl
and_then-if false done after e k = refl
