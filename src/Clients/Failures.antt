-- ===== src/Clients/Failures.antt =====
-- What a client makes of the calls that fail.
use so_ii.Prelude.{◌≡◌, ◌≢◌, true, false, List, [], ◌∷◌, ◌++◌, ℤ, Bool-cases, inl, inr}
use so_ii.Clients.System.{
  SystemCall, open_fifo, mkfifo, unlink, write_to, close_fd, print, Kernel, Ending, exited, Step,
  went, stopped, Program, and_then, attempt, is_negative,
}

-- What is returned says that the call has not failed; of `close` and `printf` it is not looked at.
abbrev pub Passes : SystemCall → ℤ → Type 0
Passes (open_fifo path flags) z = is_negative z ≡ false
Passes (mkfifo path) z = is_negative z ≡ false
Passes (unlink path) z = is_negative z ≡ false
Passes (write_to fd bytes) z = is_negative z ≡ false
Passes (close_fd fd) z = Unit
Passes (print pieces) z = Unit

pub not_negative-Passes : (c : SystemCall) (z : ℤ) → is_negative z ≡ false → Passes c z
not_negative-Passes (open_fifo path flags) z e = e
not_negative-Passes (mkfifo path) z e = e
not_negative-Passes (unlink path) z e = e
not_negative-Passes (write_to fd bytes) z e = e
not_negative-Passes (close_fd fd) z e = tt
not_negative-Passes (print pieces) z e = tt

pub data AllPassed (kernel : Kernel) : List SystemCall → Type 0 where
  none_made : AllPassed kernel []
  made :
      (calls : List SystemCall) (c : SystemCall)
      → AllPassed kernel calls
      → Passes c (kernel calls c)
      → AllPassed kernel (calls ++ (c ∷ []))

-- Where a run stands or ends: behind calls that have not failed, or with the status 1 at the first
-- that has. A status 1 may have another cause.
pub data Stops (kernel : Kernel) (Cause : Type 0) {A : Type 0} : Step A → Type 0 where
  goes :
      {a : A} {calls : List SystemCall} → AllPassed kernel calls → Stops kernel Cause (went a calls)
  ends :
      {e : Ending} {calls : List SystemCall}
      → e ≢ exited 1
      → AllPassed kernel calls
      → Stops kernel Cause (stopped e calls)
  caused :
      {calls : List SystemCall}
      → Cause
      → AllPassed kernel calls
      → Stops kernel Cause (stopped (exited 1) calls)
  fails :
      (calls : List SystemCall) (c : SystemCall)
      → AllPassed kernel calls
      → is_negative (kernel calls c) ≡ true
      → Stops kernel Cause (stopped (exited 1) (calls ++ (c ∷ [])))

module _ {kernel : Kernel} {Cause : Type 0} where
  pub and_then-Stops :
      {A B : Type 0}
      → (t : Step A) (k : A → Program B) → Stops kernel Cause t
      → ((a : A) (calls : List SystemCall)
          → AllPassed kernel calls
          → Stops kernel Cause (k a calls))
      → Stops kernel Cause (and_then t k)
  and_then-Stops (went a calls) k (Stops.goes p) h = h a calls p
  and_then-Stops (stopped e calls) k (Stops.ends ne p) h = Stops.ends ne p
  and_then-Stops (stopped e calls) k (Stops.caused c p) h = Stops.caused c p
  and_then-Stops (stopped e _) k (Stops.fails calls c p f) h = Stops.fails calls c p f

  pub attempt-Stops :
      (c : SystemCall) (calls : List SystemCall)
      → AllPassed kernel calls
      → Stops kernel Cause (attempt is_negative kernel c calls)
  unfolding attempt
  attempt-Stops c calls p = elim (Bool-cases (is_negative (kernel calls c))) [
    | inl e ↦ rw (attempt, e) (Stops.fails calls c p e)
    | inr e ↦
        rw (attempt, e)
          (Stops.goes (AllPassed.made calls c p (not_negative-Passes c (kernel calls c) e)))
  ]
