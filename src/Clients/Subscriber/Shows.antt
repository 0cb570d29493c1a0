-- ===== src/Clients/Subscriber/Shows.antt =====
-- What the subscriber prints of what it reads.
use mathlib.Core.List
use so_ii.Prelude.{
  ℕ, zero, suc, ◌+◌, ◌≤◌, ◌≡◌, ◌∙◌, refl, ap, arith, List, [], ◌∷◌, ◌++◌, ℤ, pos, some, length,
  length-append, get_or, copy_in, copy_in_inside, take, drop, le→leb,
}
use so_ii.Fs.Strings.{IsString}
use so_ii.Libc.{codes, string_at}
use so_ii.Libc.Laws.{string_at-bytes}
use so_ii.Clients.System.{
  SystemCall, text, number, open_fifo, mkfifo, write_to, close_fd, print, o_rdonly, o_wronly,
  Kernel, stopped, exited, is_negative, NeverFails, attempt_then,
}
use so_ii.Clients.Subscriber.{start, registration, shown}
use so_ii.Clients.Subscriber.Main.{
  Event, arrived, interrupted, sigint_handler, listen, subscribe_to, begin, main,
}

-- What a read finds in the pipe: four bytes, a string of at most 256 bytes with its NUL, and more, in
-- all no more than the read asks for.
pub record Message : Type 0 where
  pub first : ℕ
  pub second : ℕ
  pub third : ℕ
  pub fourth : ℕ
  pub shown_text : List ℕ
  pub more : List ℕ
  pub string : IsString shown_text
  pub short : length shown_text ≤ 256
  pub fits : 5 + length shown_text + length more ≤ 1025

abbrev pub bytes : Message → List ℕ
bytes m = m.first ∷ m.second ∷ m.third ∷ m.fourth ∷ (m.shown_text ++ (0 ∷ m.more))

abbrev pub delivered : Message → Event
delivered m = arrived (bytes m)

-- The lines for the messages, and the one of the handler.
abbrev pub lines : List Message → List SystemCall
lines messages = List.map (λ (m : Message). print (text m.shown_text ∷ [])) messages

abbrev pub farewell : SystemCall
farewell = print (number (pos 0) ∷ text (codes " messages received") ∷ [])

length-bytes : (m : Message) → length (bytes m) ≤ 1025
length-bytes m = omega (arith, length-append m.shown_text (0 ∷ m.more), m.fits)

take_all : (n : ℕ) (xs : List ℕ) → length xs ≤ n → take n xs ≡ xs
take_all zero [] h = refl
take_all zero (x ∷ xs) h = absurd (omega arith)
take_all (suc n) [] h = refl
take_all (suc n) (x ∷ xs) h = ap (λ ys. x ∷ ys) (take_all n xs (omega arith))

drop_all : (n : ℕ) (xs : List ℕ) → length xs ≤ n → drop n xs ≡ []
drop_all zero [] h = refl
drop_all zero (x ∷ xs) h = absurd (omega arith)
drop_all (suc n) [] h = refl
drop_all (suc n) (x ∷ xs) h = drop_all n xs (omega arith)

get_or-text : (s more : List ℕ) (j : ℕ) → j ≤ length s → get_or (s ++ (0 ∷ more)) j 0 ≡ get_or s j 0
get_or-text [] more zero h = refl
get_or-text [] more (suc j) h = absurd (omega arith)
get_or-text (c ∷ s) more zero h = refl
get_or-text (c ∷ s) more (suc j) h = get_or-text s more j (omega arith)

shown-bytes : (old : ℕ → ℕ) (m : Message) → shown old (bytes m) ≡ some m.shown_text
unfolding shown
shown-bytes old m = rw (shown, text') (ground (arith, m.short))
  where
    xs : List ℕ
    xs = bytes m

    byte : (j : ℕ) → j ≤ length m.shown_text → copy_in old 0 xs (4 + j) ≡ get_or m.shown_text j 0
    byte j h =
        (let e : 4 + j ≡ 0 + (4 + j) = omega arith in ap (copy_in old 0 xs) e)
        ∙ copy_in_inside old 0 xs (4 + j) (omega (arith, length-append m.shown_text (0 ∷ m.more)))
        ∙ (let e : 4 + j ≡ suc (suc (suc (suc j))) = omega arith in ap (λ k. get_or xs k 0) e)
        ∙ get_or-text m.shown_text m.more j h

    text' : string_at (copy_in old 0 (take 1025 xs)) 4 1021 ≡ some m.shown_text
    text' =
        ap (λ ys. string_at (copy_in old 0 ys) 4 1021) (take_all 1025 xs (length-bytes m))
        ∙ string_at-bytes (copy_in old 0 xs) 4 1021 m.shown_text m.string (omega (arith, m.short))
            byte

listen_lem :
    (kernel : Kernel) (buffer : ℕ → ℕ) (messages : List Message) (calls : List SystemCall)
    → listen kernel 0 buffer [] (List.map delivered messages ++ (interrupted ∷ [])) calls
      ≡ stopped (exited 0) (calls ++ (lines messages ++ (farewell ∷ [])))
unfolding listen sigint_handler
listen_lem kernel buffer [] calls = refl
listen_lem kernel buffer (m ∷ messages) calls =
    rw (listen, shown-bytes buffer m, drop_all 1025 (bytes m) (length-bytes m))
      (listen_lem kernel (copy_in buffer 0 (take 1025 (bytes m))) messages
          (calls ++ (print (text m.shown_text ∷ []) ∷ []))
        ∙ ap (stopped (exited 0)) (
            List.append_assoc calls (print (text m.shown_text ∷ []) ∷ [])
              (lines messages ++ (farewell ∷ []))))

-- The calls up to the first message.
abbrev pub subscribed : Kernel → (register pipe box : List ℕ) → List SystemCall
subscribed kernel register pipe box =
    let tx = kernel [] (open_fifo register o_wronly) in
    open_fifo register o_wronly
    ∷ mkfifo pipe
    ∷ write_to tx (registration pipe box)
    ∷ close_fd tx
    ∷ open_fifo register o_rdonly
    ∷ []

-- The subscriber registers, opens the register pipe again, not its own, and prints one line for each
-- read, with the string behind the first four bytes that the read finds; at the signal SIGINT it
-- prints that 0 messages were received, however many there were, and ends with the status 0. Each
-- read finds at most the 1025 bytes that it asks for, with a string of at most 256 bytes behind the
-- first four; the path and the name of the box are of at most 256 and 32, and no call of the system
-- fails.
pub subscriber_counts_none :
    (kernel : Kernel) (buffer : ℕ → ℕ) (messages : List Message)
    (program register pipe box : List ℕ)
    → NeverFails kernel
    → length pipe ≤ 256
    → length box ≤ 32
    → main kernel buffer
        (List.map delivered messages ++ (interrupted ∷ []))
        (program ∷ register ∷ pipe ∷ box ∷ [])
        []
      ≡ stopped
          (exited 0)
          (subscribed kernel register pipe box ++ (lines messages ++ (farewell ∷ [])))
unfolding main begin subscribe_to start
subscriber_counts_none kernel buffer messages program register pipe box never p q =
    rw (main, le→leb (length pipe) 256 p, le→leb (length box) 32 q)
      (attempt_then is_negative kernel c1 [] _ (never.not_negative [] c1)
        ∙ attempt_then is_negative kernel c2 (c1 ∷ []) _ (never.not_negative (c1 ∷ []) c2)
        ∙ attempt_then is_negative kernel c3 (c1 ∷ c2 ∷ []) _ (never.not_negative (c1 ∷ c2 ∷ []) c3)
        ∙ attempt_then is_negative kernel c5 before _ (never.not_negative before c5)
        ∙ listen_lem kernel buffer messages (subscribed kernel register pipe box))
  where
    tx : ℤ
    tx = kernel [] (open_fifo register o_wronly)

    c1 : SystemCall
    c1 = open_fifo register o_wronly

    c2 : SystemCall
    c2 = mkfifo pipe

    c3 : SystemCall
    c3 = write_to tx (registration pipe box)

    c5 : SystemCall
    c5 = open_fifo register o_rdonly

    before : List SystemCall
    before = c1 ∷ c2 ∷ c3 ∷ close_fd tx ∷ []
