-- ===== src/Clients/Manager/Runs.antt =====
-- Whole runs of the manager.
use so_ii.Prelude.{
  ℕ, ◌≤◌, ◌≡◌, ◌∙◌, refl, Bool, true, false, List, [], ◌∷◌, ◌++◌, some, ℤ, pos, negsuc, length,
  if◌then◌else◌, le→leb,
}
use so_ii.Libc.{codes}
use so_ii.Clients.System.{
  SystemCall, text, open_fifo, mkfifo, unlink, write_to, close_fd, print, o_rdonly, o_wronly,
  Kernel, Step, stopped, exited, waiting, is_negative, NeverFails, attempt_then,
}
use so_ii.Clients.Manager.{start, operation_of, request, Entry, Listing, ByteRead}
use so_ii.Clients.Manager.Sorting.{Qsort}
use so_ii.Clients.Manager.Main.{
  Inbox, is_minus_one, is_nonzero, reply_of, print_verdict, remove, end_listing, list_all, serve,
  execute, main,
}
use so_ii.Clients.Answers.{any_failed, listing_never_ends, remove_always_ok}

module _ {kernel : Kernel} (never : NeverFails kernel) where
  pub opened : (calls : List SystemCall) (c : SystemCall) → is_minus_one (kernel calls c) ≡ false
  opened calls c = not_minus_one (kernel calls c) (never.not_negative calls c)
    where
      not_minus_one : (z : ℤ) → is_negative z ≡ false → is_minus_one z ≡ false
      not_minus_one (pos n) e = refl
      not_minus_one (negsuc n) e = cc

  made : (calls : List SystemCall) (path : List ℕ) → is_nonzero (kernel calls (mkfifo path)) ≡ false
  made calls path = rw (never.made calls path) refl

-- The calls up to the request, and with it to the opening of the own pipe.
abbrev pub reached : (register pipe : List ℕ) → List SystemCall
reached register pipe = open_fifo register o_wronly ∷ unlink pipe ∷ mkfifo pipe ∷ []

abbrev pub asked : (operation : ℕ) → Kernel → (register pipe name : List ℕ) → List SystemCall
asked operation kernel register pipe name =
    let tx = kernel [] (open_fifo register o_wronly) in
    reached register pipe
    ++ (write_to tx (request operation pipe name) ∷ close_fd tx ∷ open_fifo pipe o_rdonly ∷ [])

module _ (kernel : Kernel) (qsort : Qsort) (old : Entry) (inbox : Inbox)
    (program register pipe word name : List ℕ) where
  pub executes :
      NeverFails kernel
      → length pipe ≤ 256
      → length name ≤ 32
      → main kernel qsort old inbox (program ∷ register ∷ pipe ∷ word ∷ name ∷ []) []
        ≡ serve kernel qsort old inbox
            (operation_of word)
            (kernel [] (open_fifo register o_wronly))
            pipe
            name
            (reached register pipe)
  unfolding main execute start
  executes never p q =
      rw (main, le→leb (length pipe) 256 p, le→leb (length name) 32 q)
        (attempt_then is_minus_one kernel c1 [] _ (opened never [] c1)
          ∙ attempt_then is_nonzero kernel (mkfifo pipe) (c1 ∷ unlink pipe ∷ []) _
              (made never (c1 ∷ unlink pipe ∷ []) pipe))
    where
      c1 : SystemCall
      c1 = open_fifo register o_wronly

abbrev pub receiving_end : (operation : ℕ) → Kernel → (register pipe name : List ℕ) → ℤ
receiving_end operation kernel register pipe name =
    let tx = kernel [] (open_fifo register o_wronly) in
    kernel (reached register pipe ++ (write_to tx (request operation pipe name) ∷ close_fd tx ∷ []))
      (open_fifo pipe o_rdonly)

never_listed :
    (kernel : Kernel) (qsort : Qsort) (rx : ℤ) (old : Entry) (b : Bool) (calls : List SystemCall)
    → end_listing kernel qsort rx old (if b then Listing.exits else Listing.waits) calls
      ≡ stopped (if b then exited 1 else waiting) calls
unfolding end_listing
never_listed kernel qsort rx old true calls = refl
never_listed kernel qsort rx old false calls = refl

list_all_lem :
    {kernel : Kernel}
    → NeverFails kernel
    → (qsort : Qsort) (register pipe name : List ℕ) (old : Entry) (reads : List ByteRead)
    → list_all kernel qsort
        (kernel [] (open_fifo register o_wronly))
        pipe
        name
        old
        reads
        (reached register pipe)
      ≡ stopped (if any_failed reads then exited 1 else waiting) (asked 7 kernel register pipe name)
unfolding list_all
list_all_lem {kernel} never qsort register pipe name old reads =
    attempt_then is_negative kernel c4 before _ (never.not_negative before c4)
    ∙ attempt_then is_minus_one kernel c6 (before ++ (c4 ∷ c5 ∷ [])) _
        (opened never (before ++ (c4 ∷ c5 ∷ [])) c6)
    ∙ rw (listing_never_ends reads 0 old []) (
        never_listed kernel qsort (kernel (before ++ (c4 ∷ c5 ∷ [])) c6) old (any_failed reads)
          (before ++ (c4 ∷ c5 ∷ c6 ∷ [])))
  where
    tx : ℤ
    tx = kernel [] (open_fifo register o_wronly)

    before : List SystemCall
    before = reached register pipe

    c4 : SystemCall
    c4 = write_to tx (request 7 pipe name)

    c5 : SystemCall
    c5 = close_fd tx

    c6 : SystemCall
    c6 = open_fifo pipe o_rdonly

remove_lem :
    {kernel : Kernel}
    → NeverFails kernel
    → (register pipe name reply : List ℕ)
    → remove kernel
        (kernel [] (open_fifo register o_wronly))
        pipe
        name
        (some reply)
        (reached register pipe)
      ≡ stopped (exited 0) (
          asked 5 kernel register pipe name
          ++ (print (text (codes "OK") ∷ [])
              ∷ close_fd (receiving_end 5 kernel register pipe name)
              ∷ []))
unfolding remove reply_of print_verdict
remove_lem {kernel} never register pipe name reply =
    attempt_then is_negative kernel c4 before _ (never.not_negative before c4)
    ∙ attempt_then is_minus_one kernel c6 (before ++ (c4 ∷ c5 ∷ [])) _
        (opened never (before ++ (c4 ∷ c5 ∷ [])) c6)
    ∙ rw (remove_always_ok reply) refl
  where
    tx : ℤ
    tx = kernel [] (open_fifo register o_wronly)

    before : List SystemCall
    before = reached register pipe

    c4 : SystemCall
    c4 = write_to tx (request 5 pipe name)

    c5 : SystemCall
    c5 = close_fd tx

    c6 : SystemCall
    c6 = open_fifo pipe o_rdonly

-- A manager that removes a box prints OK and ends with the status 0 whatever the broker answers,
-- also where tfs_unlink has failed; one that lists the boxes prints nothing: it ends with the status
-- 1 if a read fails, and reads on for ever otherwise. The path and the name are of at most 256 and
-- 32 bytes, a name is given to a listing too, and no call of the system but a read of the answer
-- fails.
pub manager_runs :
    (kernel : Kernel) (qsort : Qsort) (old : Entry) (reply : List ℕ) (reads : List ByteRead)
    (program register pipe name : List ℕ)
    → NeverFails kernel
    → length pipe ≤ 256
    → length name ≤ 32
    → let run : List ℕ → Step (Unit {0}) = λ word.
      main kernel qsort old
        (record { reply = some reply; reads = reads })
        (program ∷ register ∷ pipe ∷ word ∷ name ∷ [])
        [] in
      (run (codes "remove")
        ≡ stopped (exited 0) (
            asked 5 kernel register pipe name
            ++ (print (text (codes "OK") ∷ [])
                ∷ close_fd (receiving_end 5 kernel register pipe name)
                ∷ [])))
      × (run (codes "list")
          ≡ stopped
              (if any_failed reads then exited 1 else waiting)
              (asked 7 kernel register pipe name))
unfolding operation_of serve
manager_runs kernel qsort old reply reads program register pipe name never p q = (
  executes kernel qsort old inbox program register pipe (codes "remove") name never p q
      ∙ remove_lem never register pipe name reply,
  executes kernel qsort old inbox program register pipe (codes "list") name never p q
      ∙ list_all_lem never qsort register pipe name old reads,
)
  where
    inbox : Inbox
    inbox = record { reply = some reply; reads = reads }
