-- ===== src/Clients/Manager/Main.antt =====
-- manager/manager.c: the whole program, from the opening of the register pipe to what is printed.
use so_ii.Prelude.{
  ℕ, ◌==◌, not, Bool, List, [], ◌∷◌, Option, none, some, ℤ, pos, minus_one, eq_ℤ, get_or,
  if◌then◌else◌,
}
use so_ii.Libc.{codes, string_at, eq_bytes}
use so_ii.Clients.System.{
  Piece, text, number, open_fifo, mkfifo, unlink, write_to, close_fd, print, o_rdonly, o_wronly,
  Kernel, Program, exited, faulted, waiting, ask, stop, pure, attempt, is_negative, ◌>>=◌, ◌>>◌,
}
use so_ii.Clients.Manager.{
  start, usage, exits, fault, ready, request, Verdict, success, failure, create_verdict,
  remove_verdict, Entry, Listing, listed, waits, ByteRead, read_boxes,
}
use so_ii.Clients.Manager.Sorting.{Qsort, sort_boxes}

abbrev pub is_minus_one : ℤ → Bool
is_minus_one z = eq_ℤ z minus_one

abbrev pub is_nonzero : ℤ → Bool
is_nonzero z = not (eq_ℤ z (pos 0))

-- An array of zeros with these bytes.
abbrev pub in_array : List ℕ → ℕ → ℕ
in_array bytes i = get_or bytes i 0

-- A string that is printed from an array of `n` bytes.
unfoldable pub printed : (array : List ℕ) (n : ℕ) → Program (List ℕ)
printed array n calls = elim (string_at (in_array array) 0 n) [
  | none ↦ stop faulted calls
  | some s ↦ pure s calls
]

abbrev pub told : Kernel → (error_message : List ℕ) → Program (Unit {0})
told kernel error_message =
    ask kernel (print (text (codes "ERROR ") ∷ text error_message ∷ [])) >> pure tt

unfoldable pub print_verdict : Kernel → Verdict → Program (Unit {0})
unfolding printed
print_verdict kernel success = do _ ← ask kernel (print (text (codes "OK") ∷ [])); pure tt
print_verdict kernel (failure message) = do
  error_message ← printed message 1024
  told kernel error_message

-- What is read from the own pipe, once it is open: the answer of a `read`, or its failure.
unfoldable pub reply_of : Option (List ℕ) → Program (List ℕ)
reply_of none = stop (exited 1)
reply_of (some reply) = pure reply

-- Case 3, which leaves the register pipe open and shows the whole answer on the standard error.
unfoldable pub create :
    Kernel → (tx : ℤ) (pipe name : List ℕ) → Option (List ℕ) → Program (Unit {0})
unfolding print_verdict reply_of printed
create kernel tx pipe name reply = do
  _ ← attempt is_negative kernel (write_to tx (request 3 pipe name))
  rx ← attempt is_minus_one kernel (open_fifo pipe o_rdonly)
  answer ← reply_of reply
  _ ← printed answer 1032
  _ ← print_verdict kernel (create_verdict answer)
  _ ← ask kernel (close_fd rx)
  stop (exited 0)

-- Case 5.
unfoldable pub remove :
    Kernel → (tx : ℤ) (pipe name : List ℕ) → Option (List ℕ) → Program (Unit {0})
unfolding print_verdict reply_of
remove kernel tx pipe name reply = do
  _ ← attempt is_negative kernel (write_to tx (request 5 pipe name))
  _ ← ask kernel (close_fd tx)
  rx ← attempt is_minus_one kernel (open_fifo pipe o_rdonly)
  answer ← reply_of reply
  _ ← print_verdict kernel (remove_verdict answer)
  _ ← ask kernel (close_fd rx)
  stop (exited 0)

abbrev line : Entry → List Piece
line entry =
    text entry.box_name
    ∷ text (codes " ")
    ∷ number entry.box_size
    ∷ text (codes " ")
    ∷ number entry.n_publishers
    ∷ text (codes " ")
    ∷ number entry.n_subscribers
    ∷ []

unfoldable pub print_lines : Kernel → List Entry → Program (Unit {0})
print_lines kernel [] = pure tt
print_lines kernel (entry ∷ entries) = do
  _ ← ask kernel (print (line entry))
  print_lines kernel entries

-- What is done with the boxes. `old` is what the array on the stack holds before.
unfoldable pub print_boxes :
    Kernel → Qsort → (rx : ℤ) (old : Entry) → List Entry → Program (Unit {0})
unfolding print_lines
print_boxes kernel qsort rx old boxes =
    if eq_bytes (first boxes).box_name []
    then ask kernel (print (text (codes "NO BOXES FOUND") ∷ [])) >> stop (exited 0)
    else (print_lines kernel (sort_boxes qsort boxes)
        >> ask kernel (close_fd rx)
        >> stop (exited 0))
  where
    first : List Entry → Entry
    first boxes = get_or boxes 0 old

unfoldable pub end_listing : Kernel → Qsort → (rx : ℤ) (old : Entry) → Listing → Program (Unit {0})
unfolding print_boxes
end_listing kernel qsort rx old (listed boxes) = print_boxes kernel qsort rx old boxes
end_listing kernel qsort rx old Listing.exits = stop (exited 1)
end_listing kernel qsort rx old waits = stop waiting

-- Case 7.
unfoldable pub list_all :
    Kernel
    → Qsort
    → (tx : ℤ) (pipe name : List ℕ) (old : Entry) → List ByteRead
    → Program (Unit {0})
unfolding end_listing
list_all kernel qsort tx pipe name old reads = do
  _ ← attempt is_negative kernel (write_to tx (request 7 pipe name))
  _ ← ask kernel (close_fd tx)
  rx ← attempt is_minus_one kernel (open_fifo pipe o_rdonly)
  end_listing kernel qsort rx old (read_boxes reads 0 (pos 1) old [])

-- What the own pipe gives to the one `read` of a creation or a removal, and to those of a listing.
pub record Inbox : Type 0 where
  pub reply : Option (List ℕ)
  pub reads : List ByteRead

-- The switch, whose default shows the usage.
unfoldable pub serve :
    Kernel
    → Qsort
    → (old : Entry) → Inbox
    → (operation : ℕ) (tx : ℤ) (pipe name : List ℕ) → Program (Unit {0})
unfolding create remove list_all
serve kernel qsort old inbox operation tx pipe name =
    if operation == 3
    then create kernel tx pipe name inbox.reply
    else if operation == 5
    then remove kernel tx pipe name inbox.reply
    else if operation == 7
    then list_all kernel qsort tx pipe name old inbox.reads
    else stop (exited 0)

unfoldable pub execute :
    Kernel
    → Qsort
    → (old : Entry) → Inbox
    → (operation : ℕ) (register pipe name : List ℕ) → Program (Unit {0})
unfolding serve
execute kernel qsort old inbox operation register pipe name = do
  tx ← attempt is_minus_one kernel (open_fifo register o_wronly)
  _ ← ask kernel (unlink pipe)
  _ ← attempt is_nonzero kernel (mkfifo pipe)
  serve kernel qsort old inbox operation tx pipe name

unfoldable pub main :
    Kernel → Qsort → (old : Entry) → Inbox → (args : List (List ℕ)) → Program (Unit {0})
unfolding execute
main kernel qsort old inbox args = elim (start args) [
  | usage ↦ stop (exited 255)
  | exits ↦ stop (exited 1)
  | fault ↦ stop faulted
  | ready operation pipe name ↦
      execute kernel qsort old inbox operation (get_or args 1 []) pipe name
]
