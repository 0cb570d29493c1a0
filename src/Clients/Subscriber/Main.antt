-- ===== src/Clients/Subscriber/Main.antt =====
-- subscriber/sub.c: the whole program, with the handler of SIGINT.
use so_ii.Prelude.{ℕ, List, [], ◌∷◌, none, some, pos, copy_in, take, drop, ◌++◌}
use so_ii.Libc.{codes}
use so_ii.Clients.System.{
  text, number, open_fifo, mkfifo, write_to, close_fd, print, o_rdonly, o_wronly, Kernel, Program,
  exited, faulted, waiting, ask, stop, attempt, is_negative, ◌>>=◌,
}
use so_ii.Clients.Subscriber.{Start, start, usage, exits, ready, registration, shown}

-- What comes of a `read`: the bytes that others have written since the one before join those in the
-- pipe, and as many as are asked for are taken; or an error, or the signal.
pub data Event : Type 0 where
  arrived : (bytes : List ℕ) → Event
  failed interrupted : Event

-- `counter` is the global.
unfoldable pub sigint_handler : Kernel → (counter : ℕ) → Program (Unit {0})
sigint_handler kernel counter = do
  _ ← ask kernel (print (number (pos counter) ∷ text (codes " messages received") ∷ []))
  stop (exited 0)

-- The loop. `buffer` is what the array on the stack holds before, and `fifo` the bytes in the pipe: a
-- read takes 1025 of them, or all where they are fewer, and leaves the others.
unfoldable pub listen :
    Kernel → (counter : ℕ) → (buffer : ℕ → ℕ) → (fifo : List ℕ) → List Event → Program (Unit {0})
unfolding sigint_handler
listen kernel counter buffer fifo [] = stop waiting
listen kernel counter buffer fifo (arrived bytes ∷ events) = elim (shown buffer (fifo ++ bytes)) [
  | none ↦ stop faulted
  | some message ↦ do
    _ ← ask kernel (print (text message ∷ []))
    listen kernel counter (copy_in buffer 0 (take 1025 (fifo ++ bytes))) (drop 1025 (fifo ++ bytes))
        events
]
listen kernel counter buffer fifo (failed ∷ events) = stop (exited 1)
listen kernel counter buffer fifo (interrupted ∷ events) = sigint_handler kernel counter

-- After the tests of the arguments. `events` counts what comes into the pipe from its opening on. The
-- pipe that is read is the one that was written to.
unfoldable pub subscribe_to :
    Kernel → (buffer : ℕ → ℕ) → (register pipe box : List ℕ) → List Event → Program (Unit {0})
unfolding listen
subscribe_to kernel buffer register pipe box events = do
  tx ← attempt is_negative kernel (open_fifo register o_wronly)
  _ ← attempt is_negative kernel (mkfifo pipe)
  _ ← attempt is_negative kernel (write_to tx (registration pipe box))
  _ ← ask kernel (close_fd tx)
  _ ← attempt is_negative kernel (open_fifo register o_rdonly)
  listen kernel 0 buffer [] events

unfoldable pub begin : Kernel → (buffer : ℕ → ℕ) → List Event → Start → Program (Unit {0})
unfolding subscribe_to
begin kernel buffer events usage = stop (exited 255)
begin kernel buffer events exits = stop (exited 1)
begin kernel buffer events (ready register pipe box) =
    subscribe_to kernel buffer register pipe box events

unfoldable pub main :
    Kernel → (buffer : ℕ → ℕ) → List Event → (args : List (List ℕ)) → Program (Unit {0})
unfolding begin
main kernel buffer events args = begin kernel buffer events (start args)
