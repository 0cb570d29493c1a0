-- ===== src/Clients/Publisher/Main.antt =====
-- publisher/pub.c: the whole program.
use so_ii.Prelude.{ℕ, List, [], ◌∷◌, none, some, ℤ}
use so_ii.Clients.System.{
  open_fifo, mkfifo, write_to, close_fd, o_wronly, Kernel, Program, exited, faulted, ask, stop,
  pure, attempt, is_negative, ◌>>=◌,
}
use so_ii.Clients.Publisher.{Start, start, usage, exits, ready, registration, message}

-- The loop over the words that `scanf` reads until the end of the input.
unfoldable pub send_words : Kernel → (rx : ℤ) → (words : List (List ℕ)) → Program (Unit {0})
send_words kernel rx [] = pure tt
send_words kernel rx (word ∷ words) = elim (message word) [
  | none ↦ stop faulted
  | some mesg ↦ do _ ← attempt is_negative kernel (write_to rx mesg); send_words kernel rx words
]

-- After the tests of the arguments.
unfoldable pub publish_words :
    Kernel → (register pipe box : List ℕ) → (words : List (List ℕ)) → Program (Unit {0})
unfolding send_words
publish_words kernel register pipe box words = do
  tx ← attempt is_negative kernel (open_fifo register o_wronly)
  _ ← attempt is_negative kernel (mkfifo pipe)
  _ ← attempt is_negative kernel (write_to tx (registration pipe box))
  _ ← ask kernel (close_fd tx)
  rx ← attempt is_negative kernel (open_fifo pipe o_wronly)
  _ ← send_words kernel rx words
  _ ← ask kernel (close_fd rx)
  stop (exited 0)

unfoldable pub begin : Kernel → (words : List (List ℕ)) → Start → Program (Unit {0})
unfolding publish_words
begin kernel words usage = stop (exited 255)
begin kernel words exits = stop (exited 1)
begin kernel words (ready register pipe box) = publish_words kernel register pipe box words

unfoldable pub main : Kernel → (words args : List (List ℕ)) → Program (Unit {0})
unfolding begin
main kernel words args = begin kernel words (start args)
