-- ===== src/Broker/Sessions.antt =====
-- The steps of `threadFun` of mbroker/mbroker.c: its loops, its answers, and what a client does.
pub mod Commands
pub mod Safe
pub mod Steps
use so_ii.Prelude.{
  ℕ, zero, suc, ◌+◌, ◌-◌, ◌*◌, ◌==◌, Bool, true, false, not, ◌&&◌, Option, none, some, List, [],
  ◌∷◌, ◌++◌, ℤ, pos, negsuc, minus_one, eq_ℤ, length, int_bytes, ltb, leb, copy_in, slice, take,
  update, Array, if◌then◌else◌,
}
use so_ii.Fs.Strings.{strcmp_eq}
use so_ii.Fs.Operations.{Pthread, tfs_open, tfs_close, tfs_read, tfs_unlink, is_nonneg}
use so_ii.Libc.{zeros, codes, string_at}
use so_ii.Queue
use so_ii.Queue.{pcq_dequeue}
use so_ii.Broker.{
  Pointer, nowhere, shared, elsewhere, Box, Broker, Outcome, done, exits, waits, Thread, ◌>>=◌,
  ◌>>◌, pure, assign, get, exit, require, call, c_string, set_box, has_name, box_name_size,
  pipe_name_size, max_msg_size,
}

-- What the environment does in a session: whether the client's pipe opens, what each `read` of it
-- gives (`none` is an error and `some []` the end), and whether each `write` succeeds.
pub record Client : Type 0 where
  pub opens : Bool
  pub reads : List (Option (List ℕ))
  pub writes : List Bool

abbrev send : (ℕ → ℕ) → ℕ → Broker → Broker
send buf n b = record b { sent = b.sent ++ (slice buf 0 n ∷ []) }

-- A `write` of `n` bytes of `buf` that ends the program if it fails.
pub write_all : List Bool → (ℕ → ℕ) → ℕ → Thread (Unit {0})
write_all [] buf n = λ b. waits
write_all (false ∷ ws) buf n = exit
write_all (true ∷ ws) buf n = assign (send buf n)

abbrev more_sessions : Broker → Broker
more_sessions b = record b { num_active_sessions = b.num_active_sessions + 1 }

abbrev fewer_sessions : Broker → Broker
fewer_sessions b = record b { num_active_sessions = b.num_active_sessions - 1 }

-- `strcpy(msg, text)`.
abbrev set_msg : List ℕ → Broker → Broker
set_msg text b = record b { msg = copy_in b.msg 0 (text ++ (0 ∷ [])) }

-- The loop that ends the program if a session has the client's path.
pub has_session : List ℕ → ℕ → Thread Bool
has_session path i b =
    if leb (i * 256 + 256) b.active_sessions.size
    then done (strcmp_eq b.active_sessions.at (i * 256) path) b
    else Outcome.fault

pub check_sessions : (rounds i : ℕ) → Thread (Unit {0})
unfolding has_session
check_sessions zero i = pure tt
check_sessions (suc rounds) i = do
  path ← c_string (λ b. b.client_named_pipe_path) pipe_name_size
  same ← has_session path i
  if same then exit else check_sessions rounds (i + 1)

-- The loop that ends the program if the box has a publisher.
pub check_boxes : (rounds i : ℕ) → Thread (Unit {0})
check_boxes zero i = pure tt
check_boxes (suc rounds) i = do
  same ← has_name i
  b ← get (λ b. b)
  if same && (b.active_box i).pub_activity == 1 then exit else check_boxes rounds (i + 1)

-- The loop over the publisher's messages. A message is read into the buffer, and since the branch
-- that would store it has the test of the one before, nothing else happens; at the end of the pipe
-- the thread returns.
pub publish : List (Option (List ℕ)) → Thread (Unit {0})
publish [] = λ b. waits
publish (none ∷ rs) = exit
publish (some [] ∷ rs) = pure tt
publish (some (c ∷ bytes) ∷ rs) = do
  assign (λ b. record b { buffer = copy_in b.buffer 0 (c ∷ bytes) })
  publish rs

-- The first box with the name gets one more subscriber; `false` if there is none.
pub subscribe : (rounds i : ℕ) → Thread (Unit {0})
subscribe zero i = pure tt
subscribe (suc rounds) i = do
  same ← has_name i
  if same
      then set_box i (λ x. record x { num_active_subs = x.num_active_subs + 1 })
        >> assign (λ b. record b { tester = true })
      else subscribe rounds (i + 1)

-- A new box with one subscriber.
pub new_box : Thread (Unit {0})
new_box = do
  i ← get (λ b. b.num_active_box)
  set_box i (λ x. record x { name = shared; num_active_subs = 1 })
  assign (λ b. record b { num_active_box = b.num_active_box + 1 })

-- `format_msg` of the string in `msg`, which is what its callers pass.
unfoldable pub format_msg : (ℕ → ℕ) → List ℕ → ℕ → ℕ
format_msg buf msge = copy_in (copy_in (copy_in buf 0 (b'1' ∷ [])) 1 (b'|' ∷ [])) 2 msge

-- The loop that forgets a removed box.
pub forget : (rounds i : ℕ) → Thread (Unit {0})
forget zero i = pure tt
forget (suc rounds) i = do
  same ← has_name i
  if same
      then set_box i (λ x. record x { name = nowhere; num_active_subs = 0; pub_activity = 0 })
        >> assign (λ b. record b { num_active_box = b.num_active_box - 1 })
      else forget rounds (i + 1)

-- `open` of the client's pipe, which ends the program if it fails.
pub open_pipe : Client → Thread (Unit {0})
open_pipe c = do c_string (λ b. b.client_named_pipe_path) pipe_name_size; require c.opens

-- The answer to a creation that failed.
creation_failed : List ℕ
creation_failed = codes "[ERR]: box creation failed"

deletion_failed : List ℕ
deletion_failed = codes "[ERR]: box deletion failed"

-- `strcpy(_, box_name)` for the name of box `i`: undefined to NULL, to the array itself, and to an
-- array that is too small.
pub copy_to : ℕ → Pointer → Thread (Unit {0})
copy_to i nowhere = λ b. Outcome.fault
copy_to i shared = λ b. Outcome.fault
copy_to i (elsewhere a) = do
  name ← c_string (λ b. b.box_name) box_name_size
  if ltb (length name) a.size
      then set_box i
          (λ x. record x { name = elsewhere (record a { at = copy_in a.at 0 (name ++ (0 ∷ [])) }) })
      else (λ b. Outcome.fault)

-- `strcpy(s.active_box[i].name, box_name)`.
pub copy_name : ℕ → Thread (Unit {0})
unfolding copy_to
copy_name i b = if ltb i pipe_name_size then copy_to i (b.active_box i).name b else Outcome.fault

-- The bytes of a file's handle `-1` and `0` as text, and the message behind them.
unfoldable pub create_answer : (failed : Bool) → (ℕ → ℕ) → ℕ → ℕ
create_answer true msg =
    copy_in (copy_in (copy_in zeros 0 (b'4' ∷ [])) 1 (b'-' ∷ b'1' ∷ [])) 3
      (slice msg 0 max_msg_size)
create_answer false msg =
    copy_in (copy_in (copy_in zeros 0 (b'4' ∷ [])) 1 (b'0' ∷ [])) 2 (slice msg 0 max_msg_size)

-- `stack` is what the array on the stack holds before.
pub remove_answer : (ℕ → ℕ) → ℤ → (ℕ → ℕ) → ℕ → ℕ
remove_answer stack return_code msg =
    copy_in (copy_in (copy_in stack 0 (b'6' ∷ [])) 1 (int_bytes return_code)) 4
      (slice msg 0 max_msg_size)

-- The bytes of box `i` in memory from each of four fields on: 32 from its name, and 8 each.
pub record Image : Type 0 where
  pub name : List ℕ
  pub size : List ℕ
  pub pub_activity : List ℕ
  pub num_active_subs : List ℕ

-- The message of a listing on one box.
list_answer : (stack : ℕ → ℕ) → Image → ℕ → ℕ
list_answer stack x =
    copy_in
      (copy_in (copy_in (copy_in (copy_in stack 0 (b'8' ∷ b'0' ∷ [])) 2 x.name) 34 x.size) 44
        x.pub_activity)
      52 x.num_active_subs
