-- ===== src/Broker.antt =====
-- The broker, mbroker/mbroker.c: its globals, and the commands of its threads.
pub mod Requests
pub mod Sessions
pub mod Keeps
pub mod Main
mod Tests
use so_ii.Prelude.{
  ℕ, ◌+◌, ◌*◌, ◌<◌, ◌==◌, Array, Bool, true, false, Option, none, some, List, [], ◌∷◌, ◌++◌, ℤ, pos,
  negsuc, ltb, update, slice, if◌then◌else◌,
}
use so_ii.Fs.State.{State, Run, Cmd}
use so_ii.Fs.Strings.{strcmp_eq}
use so_ii.Queue.{Queue}
use so_ii.Libc.{string_at}

abbrev pub box_name_size : ℕ
box_name_size = 32

abbrev pub pipe_name_size : ℕ
pipe_name_size = 256

abbrev pub max_msg_size : ℕ
max_msg_size = 1024

-- What a `char *` in a box points to: nothing, the global `box_name`, or an array of its own.
pub data Pointer : Type 0 where
  nowhere shared : Pointer
  elsewhere : Array ℕ → Pointer

pub record Box : Type 0 where
  pub name : Pointer
  pub num_active_subs : ℕ
  pub pub_activity : ℕ
  pub size : ℕ

-- The globals, the `Server` among them, the file system and the queue. `sent` is what has been
-- written to the pipes of clients, the first message first.
pub record Broker : Type 0 where
  pub buffer : ℕ → ℕ
  pub op_code : ℤ
  pub client_named_pipe_path : ℕ → ℕ
  pub box_name : ℕ → ℕ
  pub msg : ℕ → ℕ
  pub tester : Bool
  pub num_active_sessions : ℕ
  pub active_sessions : Array ℕ
  pub active_box : ℕ → Box
  pub num_active_box : ℕ
  pub fs : State
  pub queue : Queue
  pub sent : List (List ℕ)

-- A thread goes on, or ends the program with `exit(EXIT_FAILURE)` or PANIC, or waits for ever, or
-- does what C leaves undefined.
pub data Outcome (A : Type 0) : Type 0 where
  done : A → Broker → Outcome A
  exits : Outcome A
  waits : Outcome A
  fault : Outcome A

abbrev pub Thread : Type 0 → Type 0
Thread A = Broker → Outcome A

module _ {A B : Type 0} where
  abbrev pub and_then : Outcome A → (A → Thread B) → Outcome B
  and_then (done a b) k = k a b
  and_then exits k = exits
  and_then waits k = waits
  and_then fault k = fault

  infixl 5 ◌>>=◌ ◌>>◌
  abbrev pub ◌>>=◌ : Thread A → (A → Thread B) → Thread B
  m >>= k = λ b. and_then (m b) k

  abbrev pub ◌>>◌ : Thread A → Thread B → Thread B
  m >> k = m >>= λ _. k

abbrev pub pure : {A : Type 0} → A → Thread A
pure = done

abbrev pub assign : (Broker → Broker) → Thread (Unit {0})
assign f b = done tt (f b)

abbrev pub get : {A : Type 0} → (Broker → A) → Thread A
get f b = done (f b) b

abbrev pub exit : {A : Type 0} → Thread A
exit b = exits

abbrev pub require : Bool → Thread (Unit {0})
require true b = done tt b
require false b = exits

-- A call of the file system.
pub of_run : {A : Type 0} → Run A → Broker → Outcome A
of_run (Run.ok a s) b = done a (record b { fs = s })
of_run Run.panic b = exits
of_run Run.fault b = fault

abbrev pub call : {A : Type 0} → Cmd A → Thread A
unfolding of_run
call c b = of_run (c b.fs) b

-- The string in an array of `n` bytes; one that does not end in it is read past its end.
abbrev pub c_string : (Broker → ℕ → ℕ) → ℕ → Thread (List ℕ)
c_string f n b = elim (string_at (f b) 0 n) [ none ↦ fault | some s ↦ done s b ]

-- `s.active_box[i]`, of 256 boxes.
pub set_box : ℕ → (Box → Box) → Thread (Unit {0})
set_box i f b =
    if ltb i pipe_name_size
    then done tt (record b { active_box = update b.active_box i (f (b.active_box i)) })
    else fault

-- `strcmp(_, box_name) == 0`, where `name` is the string in `box_name`: undefined for NULL and for an
-- array without NUL.
pub same_name : Pointer → (name : List ℕ) → Thread Bool
same_name nowhere name b = fault
same_name shared name b = done true b
same_name (elsewhere a) name b = elim (string_at a.at 0 a.size) [
  | none ↦ fault
  | some s ↦ done (strcmp_eq a.at 0 name) b
]

-- `strcmp(s.active_box[i].name, box_name) == 0`.
pub has_name : ℕ → Thread Bool
unfolding same_name
has_name i = c_string (λ b. b.box_name) box_name_size >>= λ name b.
    if ltb i pipe_name_size then same_name (b.active_box i).name name b else fault
