-- ===== src/Broker/Main.antt =====
-- `main` of mbroker/mbroker.c.
use so_ii.Prelude.{
  ℕ, suc, ◌-◌, ◌*◌, ◌%◌, ◌^◌, ◌≡◌, ◌∙◌, refl, ap, arith, Bool, true, false, List, [], ◌∷◌, Option,
  none, some, ℤ, pos, negsuc, minus_one,
}
use so_ii.Fs.State.{State, ok}
use so_ii.Fs.Init.{Mallocs, tfs_init}
use so_ii.Fs.Operations.{Pthread}
use so_ii.Libc.{atoi}
use so_ii.Queue
use so_ii.Queue.{Queue, pcq_create, pcq_enqueue, pcq_dequeue}
use so_ii.Broker.{
  Broker, Outcome, done, waits, Thread, and_then, ◌>>◌, pure, assign, exit, require, call, of_run,
}
use so_ii.Broker.Requests.{received, decode}
use so_ii.Broker.Sessions.{Client, Image}
use so_ii.Broker.Sessions.Commands.{session, thread_fun, of_dequeue}

-- What `malloc` and `mkfifo` give a broker that starts.
pub record Startup : Type 0 where
  pub sessions : Option (ℕ → ℕ)
  pub makes_pipe : Bool
  pub mallocs : Mallocs
  pub queue : Option Queue
  pub buffer : Option (ℕ → ℕ)

-- `(size_t)` of an `int`.
size_of_int : ℤ → ℕ
size_of_int (pos n) = n
size_of_int (negsuc n) = 2 ^ 64 - 1 - n

-- `pcq_create`, whose result is not looked at.
create_queue : Option Queue → Option (ℕ → ℕ) → ℕ → Thread (Unit {0})
create_queue none buffer n b = Outcome.fault
create_queue (some q) buffer n b = done tt (record b { queue = (pcq_create buffer n q).1 })

-- The `Server`, with the memory of `active_sessions`.
cleared : Startup → (max_sessions : ℕ) → Broker → Broker
cleared e max_sessions b = record b {
  num_active_sessions = 0;
  num_active_box = 0;
  active_sessions = elim e.sessions [
    | none ↦ record { allocated = false; size = 0; at = λ _. 0 }
    | some f ↦ record { allocated = true; size = max_sessions % 2 ^ 32 * 256; at = f }
  ];
}

-- What `main` does before its loop.
boot : Startup → (max_sessions : ℕ) → Thread (Unit {0})
unfolding cleared create_queue
boot e max_sessions = do
  assign (cleared e max_sessions)
  require e.makes_pipe
  call (tfs_init e.mallocs none)
  create_queue e.queue e.buffer max_sessions

-- What a call of `pthread_join` gives: 0 after the thread, which serves the client, has ended, or
-- an error and then a request: whether the pipe opens, and what the `read` gives.
pub data Join : Type 0 where
  joined : Client → Join
  refused : (opens : Bool) → (read : Option (List ℕ)) → Join

-- `pcq_enqueue`.
of_enqueue : Queue.Outcome ℤ → Thread (Unit {0})
of_enqueue (Queue.returned z q) b = done tt (record b { queue = q })
of_enqueue (Queue.asleep q) b = waits
of_enqueue Queue.fault b = Outcome.fault

-- The reading of a request, with the address of `buffer`.
receive : (address : ℕ) (beyond : List ℕ) → (opens : Bool) → Option (List ℕ) → Thread (Unit {0})
unfolding of_enqueue
receive address beyond false read = exit
receive address beyond true none = exit
receive address beyond true (some bytes) = do
  assign (λ b. decode beyond (received bytes b))
  λ b. of_enqueue (pcq_enqueue address b.queue) b

module _ (pthread : Pthread) (stack : ℕ → ℕ) (image : ℕ → Image) (address : ℕ)
    (beyond : List ℕ) where
  -- The two loops, one round for each call of `pthread_join`.
  pub rounds : List Join → Thread (Unit {0})
  unfolding receive
  rounds [] = λ b. waits
  rounds (joined c ∷ js) = do thread_fun pthread stack image c; rounds js
  rounds (refused opens read ∷ js) = do receive address beyond opens read; rounds js

  -- The result of `main`, with the arguments from `argv[0]` on.
  pub main : Startup → List Join → List (List ℕ) → Thread ℤ
  unfolding size_of_int boot rounds
  main e js (program ∷ pipe_name ∷ max_sessions ∷ []) = do
    boot e (size_of_int (atoi max_sessions))
    rounds js
    pure (pos 0)
  main e js args = pure minus_one

dequeue_empty : (q : Queue) → q.pcq_current_size ≡ 0 → pcq_dequeue q ≡ Queue.asleep q
unfolding pcq_dequeue
dequeue_empty q empty = rw empty refl

module _ (pthread : Pthread) (stack : ℕ → ℕ) (image : ℕ → Image) (c : Client) (b : Broker)
    (empty : b.queue.pcq_current_size ≡ 0) where
  -- A thread that finds the queue empty waits for an element, and `main` for the thread.
  thread-waits : thread_fun pthread stack image c b ≡ waits
  unfolding thread_fun of_dequeue
  thread-waits =
      ap (λ o. of_dequeue pthread (session pthread stack image c) o b) (dequeue_empty b.queue empty)

  rounds-waits :
      (address : ℕ) (beyond : List ℕ) (js : List Join)
      → rounds pthread stack image address beyond (joined c ∷ js) b ≡ waits
  unfolding rounds
  rounds-waits address beyond js =
      ap (λ o. and_then o (λ _. rounds pthread stack image address beyond js)) thread-waits

-- The state that the loop starts in has an empty queue.
boots :
    (e : Startup) (n : ℕ) (b : Broker) (z : ℤ) (s : State) (q : Queue) (memory : ℕ → ℕ)
    → e.makes_pipe ≡ true
    → tfs_init e.mallocs none b.fs ≡ ok z s
    → e.queue ≡ some q
    → e.buffer ≡ some memory
    → (b1 : Broker) × (boot e (suc n) b ≡ done tt b1) × (b1.queue.pcq_current_size ≡ 0)
unfolding boot cleared create_queue pcq_create of_run
boots e n b z s q memory pipe init queue buffer = (
  record (cleared e (suc n) b) { fs = s; queue = (pcq_create (some memory) (suc n) q).1 },
  rw (pipe, init, queue, buffer) refl,
  ground arith,
)

-- The broker never serves a request: it waits for ever for its first thread, which waits for an
-- element of the queue, as long as `pthread_join` waits for a thread. This is for a number of
-- sessions that is positive, where the pipe is made, `tfs_init` returns and the queue has its
-- memory.
pub main_never_serves :
    (pthread : Pthread) (stack : ℕ → ℕ) (image : ℕ → Image) (address : ℕ) (beyond : List ℕ)
    (e : Startup) (c : Client) (js : List Join) (program pipe_name max_sessions : List ℕ) (n : ℕ)
    (b : Broker) (z : ℤ) (s : State) (q : Queue) (memory : ℕ → ℕ)
    → atoi max_sessions ≡ pos (suc n)
    → e.makes_pipe ≡ true
    → tfs_init e.mallocs none b.fs ≡ ok z s
    → e.queue ≡ some q
    → e.buffer ≡ some memory
    → main pthread stack image address beyond e
        (joined c ∷ js)
        (program ∷ pipe_name ∷ max_sessions ∷ [])
        b
      ≡ waits
unfolding main size_of_int
main_never_serves pthread stack image address beyond e c js program pipe_name max_sessions n b z s q
      memory count pipe init queue buffer =
    let (b1, booted, empty) = boots e n b z s q memory pipe init queue buffer in
    ap (λ k. and_then (boot e (size_of_int k) b) serve) count
    ∙ ap (λ o. and_then o serve) booted
    ∙ ap (λ o. and_then o (λ _. pure (pos 0)))
        (rounds-waits pthread stack image c b1 empty address beyond js)
  where
    serve : Unit {0} → Thread ℤ
    serve x = rounds pthread stack image address beyond (joined c ∷ js) >> pure (pos 0)
