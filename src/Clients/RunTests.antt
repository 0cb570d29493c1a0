-- ===== src/Clients/RunTests.antt =====
-- Whole runs of the clients, on a system on which every call succeeds and on one without pipes.
use mathlib.Core.List
use mathlib.Core.List.{Mem, Perm, Pairwise, forall_mem-cons, not-mem-nil}
use so_ii.Prelude.{
  ℕ, ◌≡◌, refl, arith, List, [], ◌∷◌, ◌++◌, some, pos, minus_one, true, false, slice, length-slice,
  if◌then◌else◌,
}
use so_ii.Libc.{codes, zeros, char_array}
use so_ii.Clients.System.{
  Kernel, Step, NeverFails, stopped, exited, faulted, waiting, close_fd, print, text, mkfifo,
  open_fifo, unlink, write_to,
}
use so_ii.Clients.Publisher as Publisher_args
use so_ii.Clients.Subscriber as Subscriber_args
use so_ii.Clients.Publisher.Main as Publisher
use so_ii.Clients.Publisher.Sends.{publisher_sends, sending_end, connected, sent, all_short}
use so_ii.Clients.Subscriber.Main as Subscriber
use so_ii.Clients.Subscriber.Main.{interrupted}
use so_ii.Clients.Subscriber.Shows.{
  Message, delivered, subscribed, lines, farewell, subscriber_counts_none,
}
use so_ii.Clients.Manager.{Entry, byte, ended}
use so_ii.Clients.Manager.Main as Manager
use so_ii.Broker.Sessions.{create_answer}
use so_ii.Clients.Manager.Creates.{created, manager_creates}
use so_ii.Clients.Manager.Runs.{asked, receiving_end, manager_runs}
use so_ii.Clients.Manager.Sorting.{compare_box_names, sort_boxes, insertion_sort}
use so_ii.Clients.Manager.Order.{
  NamesInOrder, DistinctNames, insertion_sort-Sorts, sort_boxes-insertion_sort,
}
use so_ii.Clients.Answers.{any_failed}

abbrev smooth : Kernel
smooth calls c = pos 0

smooth-NeverFails : NeverFails smooth
smooth-NeverFails = record { not_negative = λ calls c. refl; made = λ calls path. refl }

abbrev register : List ℕ
register = codes "r"

abbrev pipe : List ℕ
pipe = codes "p1"

abbrev box : List ℕ
box = codes "news"

abbrev words : List (List ℕ)
words = codes "hello" ∷ codes "world" ∷ []

publisher_sends_example :
    Publisher.main smooth words (codes "pub" ∷ register ∷ pipe ∷ box ∷ []) []
    ≡ let rx = sending_end smooth register pipe box in
      let calls = connected smooth register pipe box ++ sent rx words in
      if all_short words
      then stopped (exited 0) (calls ++ (close_fd rx ∷ []))
      else stopped faulted calls
publisher_sends_example =
    publisher_sends smooth words (codes "pub") register pipe box smooth-NeverFails (omega arith)
      (omega arith)

abbrev arguments : List (List ℕ)
arguments = codes "client" ∷ register ∷ pipe ∷ box ∷ []

-- A system on which no pipe can be made.
abbrev full : Kernel
full calls (mkfifo path) = minus_one
full calls (open_fifo path flags) = pos 3
full calls (unlink path) = pos 0
full calls (write_to fd bytes) = pos 0
full calls (close_fd fd) = pos 0
full calls (print pieces) = pos 0

-- A read that finds the registration of a publisher.
abbrev messages : List Message
messages =
    record {
      first = b'1';
      second = b'|';
      third = b'p';
      fourth = b'i';
      shown_text = codes "pe1";
      more = slice (Publisher_args.registration_bytes (codes "pipe1") box) 8 283;
      string = ground arith;
      short = omega arith;
      fits =
          omega (arith, length-slice (Publisher_args.registration_bytes (codes "pipe1") box) 8 283);
    }
    ∷ []

subscriber_counts_none_example :
    Subscriber.main smooth zeros
      (List.map delivered messages ++ (interrupted ∷ []))
      (codes "sub" ∷ register ∷ pipe ∷ box ∷ [])
      []
    ≡ stopped
        (exited 0)
        (subscribed smooth register pipe box ++ (lines messages ++ (farewell ∷ [])))
subscriber_counts_none_example =
    subscriber_counts_none smooth zeros messages (codes "sub") register pipe box smooth-NeverFails
      (omega arith) (omega arith)

abbrev news : Entry
news = record { box_name = box; box_size = pos 8; n_publishers = pos 1; n_subscribers = pos 0 }

abbrev early : Entry
early = record {
  box_name = codes "early";
  box_size = pos 2;
  n_publishers = pos 0;
  n_subscribers = pos 3;
}

manager_runs_example :
    let run : List ℕ → Step (Unit {0}) = λ word.
      Manager.main smooth insertion_sort news
        (record { reply = some (codes "6"); reads = byte b'8' ∷ ended ∷ [] })
        (codes "manager" ∷ register ∷ pipe ∷ word ∷ box ∷ [])
        [] in
    (run (codes "remove")
      ≡ stopped (exited 0) (
          asked 5 smooth register pipe box
          ++ (print (text (codes "OK") ∷ [])
              ∷ close_fd (receiving_end 5 smooth register pipe box)
              ∷ [])))
    × (run (codes "list")
        ≡ stopped
            (if any_failed (byte b'8' ∷ ended ∷ []) then exited 1 else waiting)
            (asked 7 smooth register pipe box))
manager_runs_example =
    manager_runs smooth insertion_sort news (codes "6") (byte b'8' ∷ ended ∷ []) (codes "manager")
      register pipe box smooth-NeverFails (omega arith) (omega arith)

abbrev boxes : List Entry
boxes = news ∷ early ∷ []

entry-IsSet : IsSet Entry
entry-IsSet = hlevel

-- To show a proposition of the boxes of the list, show it of each.
of_each :
    (p : Entry → Type 0)
    → ((x : Entry) → IsProp (p x))
    → p news
    → p early
    → (x : Entry) → Mem x boxes
    → p x
of_each p is n e =
    (forall_mem-cons is).1 (n, (forall_mem-cons is).1 (e, λ x m. absurd (not-mem-nil m)))

boxes-DistinctNames : DistinctNames boxes
boxes-DistinctNames x y m m' =
    of_each (λ x. x.box_name ≡ y.box_name → x ≡ y) (λ x. hlevel entry-IsSet)
      (of_each (λ y. box ≡ y.box_name → news ≡ y) (λ y. hlevel entry-IsSet) (λ e. refl) (λ e. cc) y
        m')
      (of_each (λ y. codes "early" ≡ y.box_name → early ≡ y) (λ y. hlevel entry-IsSet) (λ e. cc)
        (λ e. refl) y m')
      x m

sort_boxes-insertion_sort_example :
    Perm (sort_boxes insertion_sort boxes) boxes
    × Pairwise NamesInOrder (sort_boxes insertion_sort boxes)
    × (sort_boxes insertion_sort boxes ≡ insertion_sort compare_box_names boxes)
sort_boxes-insertion_sort_example =
    sort_boxes-insertion_sort insertion_sort boxes insertion_sort-Sorts boxes-DistinctNames

manager_creates_example :
    let run : (ℕ → ℕ) → Step (Unit {0}) = λ answer.
      Manager.main smooth insertion_sort news
        (record { reply = some (slice answer 0 1030); reads = [] })
        (codes "manager" ∷ register ∷ pipe ∷ codes "create" ∷ box ∷ [])
        [] in
    (run (create_answer true (char_array (codes "no")))
      ≡ stopped (exited 0) (created smooth register pipe box (codes "no")))
    × (run (create_answer false (char_array (codes "xno")))
        ≡ stopped (exited 0) (created smooth register pipe box (codes "no")))
manager_creates_example =
    manager_creates smooth insertion_sort news [] (codes "manager") register pipe box b'x'
      (codes "no") smooth-NeverFails (omega arith) (omega arith) (ground arith)
      (ground arith, (ground arith, tt)) (omega arith)
