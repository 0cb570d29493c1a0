-- ===== src/Broker/Keeps.antt =====
-- What holds in every state that a thread of the broker goes on from.
use so_ii.Prelude.{◌≡◌, refl, ap, ℕ, List, Option, none, some, Bool-cases, inl, inr, ltb}
use so_ii.Fs.State.{State, Run, Cmd}
use so_ii.Fs.Strings.{IsString, strcmp_eq}
use so_ii.Fs.Returns.{Returns, returns}
use so_ii.Libc.{string_at}
use so_ii.Libc.Laws.{string_at-IsString}
use so_ii.Broker.{
  Broker, Outcome, done, fault, Thread, and_then, call, c_string, of_run, has_name, set_box,
  Pointer, nowhere, shared, elsewhere, same_name, box_name_size, pipe_name_size, Box,
}

-- The outcome is a value and a state with the property, or no state to go on from.
pub data Keeps {A : Type 0} (P : A → Broker → Type 0) : Outcome A → Type 0 where
  keeps : {a : A} {b : Broker} → P a b → Keeps P (done a b)
  exited : Keeps P Outcome.exits
  waiting : Keeps P Outcome.waits
  faulty : Keeps P Outcome.fault

module _ {A : Type 0} {P : A → Broker → Type 0} where
  pub bind :
      {B : Type 0} {Q : B → Broker → Type 0} {o : Outcome A} {k : A → Thread B}
      → Keeps P o
      → ((a : A) (b : Broker) → P a b → Keeps Q (k a b))
      → Keeps Q (and_then o k)
  bind (keeps p) next = next _ _ p
  bind exited next = exited
  bind waiting next = waiting
  bind faulty next = faulty

  pub mono :
      {Q : A → Broker → Type 0} {o : Outcome A}
      → Keeps P o
      → ((a : A) (b : Broker) → P a b → Q a b)
      → Keeps Q o
  mono (keeps p) weaken = keeps (weaken _ _ p)
  mono exited weaken = exited
  mono waiting weaken = waiting
  mono faulty weaken = faulty

-- A call of the file system.
pub call-Keeps :
    {A : Type 0} {Q : A → State → Type 0} (c : Cmd A) (b : Broker)
    → Returns Q (c b.fs)
    → Keeps (λ a b'. Q a b'.fs × (b'.msg ≡ b.msg)) (call c b)
unfolding of_run
call-Keeps {A = A} {Q = Q} c b run = of_returns run
  where
    of_returns :
        {run' : Run A}
        → Returns Q run'
        → Keeps (λ a b'. Q a b'.fs × (b'.msg ≡ b.msg)) (of_run run' b)
    of_returns (returns q) = keeps (q, refl)

-- A property of the file system and of the bytes of `msg`.
module _ (P : State → (ℕ → ℕ) → Type 0) where
  abbrev pub Fs : {A : Type 0} → A → Broker → Type 0
  Fs a b = P b.fs b.msg

  pub c_string-Keeps :
      (f : Broker → ℕ → ℕ) (n : ℕ) (b : Broker)
      → P b.fs b.msg
      → Keeps (λ s b'. IsString s × P b'.fs b'.msg) (c_string f n b)
  c_string-Keeps f n b p = string_or_not (string_at (f b) 0 n) (string_at-IsString (f b) 0 n)
    where
      string_or_not :
          (o : Option (List ℕ))
          → ((s : List ℕ) → o ≡ some s → IsString s)
          → Keeps
              (λ s b'. IsString s × P b'.fs b'.msg)
              (elim o [ none ↦ fault | some s ↦ done s b ])
      string_or_not none is = faulty
      string_or_not (some s) is = keeps (is s refl, p)

  pub set_box-Keeps : (i : ℕ) (f : Box → Box) (b : Broker) → P b.fs b.msg → Keeps Fs (set_box i f b)
  unfolding set_box
  set_box-Keeps i f b p = elim (Bool-cases (ltb i pipe_name_size)) [
    | inl inside ↦ rw inside (keeps p)
    | inr outside ↦ rw outside faulty
  ]

  same_name-Keeps :
      (p : Pointer) (name : List ℕ) (b : Broker) → P b.fs b.msg → Keeps Fs (same_name p name b)
  unfolding same_name
  same_name-Keeps nowhere name b p = faulty
  same_name-Keeps shared name b p = keeps p
  same_name-Keeps (elsewhere a) name b p = ended (string_at a.at 0 a.size)
    where
      ended :
          (o : Option (List ℕ))
          → Keeps Fs (elim o [ none ↦ fault | some s ↦ done (strcmp_eq a.at 0 name) b ])
      ended none = faulty
      ended (some s) = keeps p

  pub has_name-Keeps : (i : ℕ) (b : Broker) → P b.fs b.msg → Keeps Fs (has_name i b)
  unfolding has_name
  has_name-Keeps i b p = bind (c_string-Keeps (λ b. b.box_name) box_name_size b p) λ s b' q.
      elim (Bool-cases (ltb i pipe_name_size)) [
        | inl inside ↦ rw inside (same_name-Keeps (b'.active_box i).name s b' q.1)
        | inr outside ↦ rw outside faulty
      ]

-- The thread goes on, in a state with the property.
pub data Ends {A : Type 0} (P : A → Broker → Type 0) : Outcome A → Type 0 where
  ends : {a : A} {b : Broker} → P a b → Ends P (done a b)

-- A first command whose outcome is known, and what follows it.
pub run_on :
    {A B : Type 0} {Q : B → Broker → Type 0} {o : Outcome A} {a : A} {b : Broker} (k : A → Thread B)
    → o ≡ done a b
    → Ends Q (k a b)
    → Ends Q (and_then o k)
run_on k e rest = rw e rest

pub weaken :
    {A : Type 0} {P Q : A → Broker → Type 0} {o : Outcome A}
    → Ends P o
    → ((a : A) (b : Broker) → P a b → Q a b)
    → Ends Q o
weaken (ends p) next = ends (next _ _ p)

pub call-done :
    {A : Type 0} (c : Cmd A) (b : Broker) (a : A) (s : State)
    → c b.fs ≡ Run.ok a s
    → call c b ≡ done a (record b { fs = s })
unfolding of_run
call-done c b a s e = ap (λ r. of_run r b) e
