-- ===== src/Broker/Sessions/Commands.antt =====
-- The cases of `threadFun` of mbroker/mbroker.c.
pub mod AtEnd
pub mod Nothing
pub mod Subscriber
pub mod Publisher
pub mod Remover
pub mod Names
pub mod Creator
use so_ii.Prelude.{
  ℕ, zero, suc, ◌+◌, ◌-◌, ◌*◌, ◌==◌, Bool, true, false, not, ◌&&◌, Option, none, some, List, [],
  ◌∷◌, ◌++◌, ℤ, pos, negsuc, minus_one, eq_ℤ, length, int_bytes, ltb, leb, copy_in, slice, take,
  update, Array, if◌then◌else◌,
}
use so_ii.Fs.Strings.{strcmp_eq}
use so_ii.Fs.Operations.{Pthread, tfs_open, tfs_close, tfs_read, tfs_unlink, is_nonneg}
use so_ii.Libc.{zeros, codes, string_at}
use so_ii.Queue
use so_ii.Queue.{pcq_dequeue}
use so_ii.Broker.{
  Pointer, nowhere, shared, Box, Broker, Outcome, done, exits, waits, Thread, ◌>>=◌, ◌>>◌, pure,
  assign, get, exit, require, call, c_string, set_box, has_name, box_name_size, pipe_name_size,
  max_msg_size,
}
use so_ii.Broker.Sessions.{
  Client, send, write_all, more_sessions, fewer_sessions, set_msg, check_sessions, check_boxes,
  publish, subscribe, new_box, format_msg, forget, open_pipe, creation_failed, deletion_failed,
  copy_name, create_answer, remove_answer, Image, list_answer,
}

module _ (pthread : Pthread) where
  -- `case 1`.
  pub publisher : Client → Thread (Unit {0})
  unfolding check_boxes publish open_pipe
  publisher c = do
    boxes ← get (λ b. b.num_active_box)
    check_boxes boxes 0
    open_pipe c
    assign more_sessions
    i ← get (λ b. b.num_active_box)
    set_box i (λ x. record x { name = shared; pub_activity = 1 })
    assign (λ b. record b { num_active_box = b.num_active_box + 1 })
    name ← c_string (λ b. b.box_name) box_name_size
    fhandle ← call (tfs_open pthread (some name) 4)
    require (is_nonneg fhandle)
    publish c.reads

  -- `tfs_read` into `msg`.
  read_msg : ℤ → Thread (Unit {0})
  read_msg fhandle = do
    (n, bytes) ← call (tfs_read pthread fhandle max_msg_size)
    assign (λ b. record b { msg = copy_in b.msg 0 bytes })
    require (is_nonneg n)

  -- The loop over the writes to the subscriber, which ends when one fails.
  deliver : ℤ → List Bool → (ℕ → ℕ) → Thread (Unit {0})
  unfolding read_msg
  deliver fhandle [] buf = λ b. waits
  deliver fhandle (false ∷ ws) buf = pure tt
  deliver fhandle (true ∷ ws) buf = do
    assign (send buf 1026)
    read_msg fhandle
    text ← c_string (λ b. b.msg) max_msg_size
    deliver fhandle ws (format_msg buf text)

  -- `case 2`.
  pub subscriber : Client → Thread (Unit {0})
  unfolding subscribe new_box open_pipe read_msg deliver
  subscriber c = do
    open_pipe c
    assign more_sessions
    boxes ← get (λ b. b.num_active_box)
    subscribe boxes 0
    tested ← get (λ b. b.tester)
    if tested then pure tt else new_box
    name ← c_string (λ b. b.box_name) box_name_size
    fhandle ← call (tfs_open pthread (some name) 4)
    require (is_nonneg fhandle)
    read_msg fhandle
    text ← c_string (λ b. b.msg) max_msg_size
    deliver fhandle c.writes (format_msg zeros text)
    call (tfs_close pthread fhandle)
    assign fewer_sessions

  -- What `case 3` does after `tfs_open`.
  opened_box : ℤ → Thread (ℕ → ℕ)
  unfolding creation_failed create_answer copy_name
  opened_box fhandle =
      if is_nonneg fhandle
      then (do
        i ← get (λ b. b.num_active_box)
        copy_name i
        assign (λ b. record b { num_active_box = b.num_active_box + 1 })
        msg ← get (λ b. b.msg)
        pure (create_answer false msg))
      else (do
        assign (set_msg creation_failed)
        msg ← get (λ b. b.msg)
        pure (create_answer true msg))

  -- `case 3`.
  pub creator : Client → Thread (Unit {0})
  unfolding open_pipe opened_box write_all
  creator c = do
    open_pipe c
    assign more_sessions
    name ← c_string (λ b. b.box_name) box_name_size
    fhandle ← call (tfs_open pthread (some name) 1)
    buf ← opened_box fhandle
    write_all c.writes buf 1030
    call (tfs_close pthread fhandle)
    assign fewer_sessions

  -- `case 5`. The result of `tfs_unlink` is what `tfs_close` is given.
  pub remover : (stack : ℕ → ℕ) → Client → Thread (Unit {0})
  unfolding open_pipe deletion_failed remove_answer write_all forget
  remover stack c = do
    open_pipe c
    assign more_sessions
    name ← c_string (λ b. b.box_name) box_name_size
    fhandle ← call (tfs_unlink pthread (some name))
    if is_nonneg fhandle then pure tt else assign (set_msg deletion_failed)
    msg ← get (λ b. b.msg)
    write_all c.writes (remove_answer stack (if is_nonneg fhandle then pos 0 else minus_one) msg)
        1029
    call (tfs_close pthread fhandle)
    assign fewer_sessions
    boxes ← get (λ b. b.num_active_box)
    forget boxes 0

  -- `case 7`. The `break` behind the first round ends the loop.
  pub lister : (stack : ℕ → ℕ) → (ℕ → Image) → Client → Thread (Unit {0})
  unfolding open_pipe list_answer write_all
  lister stack image c = do
    open_pipe c
    assign more_sessions
    boxes ← get (λ b. b.num_active_box)
    if ltb 1 boxes then write_all c.writes (list_answer stack (image 0)) 1030 else pure tt

  -- The `switch`.
  unfoldable pub dispatch : (stack : ℕ → ℕ) → (ℕ → Image) → Client → ℤ → Thread (Unit {0})
  unfolding publisher subscriber creator remover lister
  dispatch stack image c op =
      if eq_ℤ op (pos 1)
      then publisher c
      else if eq_ℤ op (pos 2)
      then subscriber c
      else if eq_ℤ op (pos 3)
      then creator c
      else if eq_ℤ op (pos 5)
      then remover stack c
      else if eq_ℤ op (pos 7)
      then lister stack image c
      else pure tt

  -- `threadFun` once it has an element of the queue.
  pub session : (stack : ℕ → ℕ) → (ℕ → Image) → Client → Thread (Unit {0})
  unfolding check_sessions dispatch
  session stack image c = do
    sessions ← get (λ b. b.num_active_sessions)
    check_sessions sessions 0
    op ← get (λ b. b.op_code)
    dispatch stack image c op

  -- `threadFun`.
  unfoldable pub of_dequeue : Thread (Unit {0}) → Queue.Outcome ℕ → Thread (Unit {0})
  of_dequeue then' (Queue.returned x q) b = then' (record b { queue = q })
  of_dequeue then' (Queue.asleep q) b = waits
  of_dequeue then' Queue.fault b = Outcome.fault

  unfoldable pub thread_fun : (stack : ℕ → ℕ) → (ℕ → Image) → Client → Thread (Unit {0})
  unfolding of_dequeue session
  thread_fun stack image c b = of_dequeue (session stack image c) (pcq_dequeue b.queue) b
