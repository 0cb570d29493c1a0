-- ===== src/Clients/Publisher/Sends.antt =====
-- What the publisher sends.
use mathlib.Core.List
use so_ii.Prelude.{
  ℕ, ◌≤◌, ◌≡◌, ◌∙◌, refl, ap, Bool, true, false, List, [], ◌∷◌, ◌++◌, none, some, ℤ, length, ltb,
  if◌then◌else◌, Bool-cases, inl, inr, le→leb,
}
use so_ii.Clients.System.{
  SystemCall, open_fifo, mkfifo, write_to, close_fd, o_wronly, Kernel, Program, Step, went, stopped,
  exited, faulted, ask, stop, is_negative, ◌>>=◌, and_then, NeverFails, attempt_went, attempt_then,
  and_then-if,
}
use so_ii.Clients.Publisher.{start, registration, message, mesg}
use so_ii.Clients.Publisher.Main.{send_words, publish_words, begin, main}

-- Whether no word is too long, and the words before the first that is.
pub all_short : (words : List (List ℕ)) → Bool
all_short [] = true
all_short (word ∷ words) = if ltb 1024 (length word) then false else all_short words

pub short_words : (words : List (List ℕ)) → List (List ℕ)
short_words [] = []
short_words (word ∷ words) =
    let rest = short_words words in if ltb 1024 (length word) then [] else word ∷ rest

-- One message for each word.
abbrev pub sent : (rx : ℤ) (words : List (List ℕ)) → List SystemCall
sent rx words = List.map (λ word. write_to rx (mesg word)) (short_words words)

abbrev pub sending : (rx : ℤ) (words : List (List ℕ)) (calls : List SystemCall) → Step (Unit {0})
sending rx words calls =
    if all_short words
    then went tt (calls ++ sent rx words)
    else stopped faulted (calls ++ sent rx words)

snoc :
    (b : Bool) (calls : List SystemCall) (c : SystemCall) (more : List SystemCall)
    → (if b
        then went tt (calls ++ (c ∷ []) ++ more)
        else stopped faulted (calls ++ (c ∷ []) ++ more))
      ≡ (if b then went tt (calls ++ (c ∷ more)) else stopped faulted (calls ++ (c ∷ more)))
snoc b calls c more = rw (List.append_assoc calls (c ∷ []) more) refl

pub message_long : (word : List ℕ) → ltb 1024 (length word) ≡ true → message word ≡ none
unfolding message
message_long word e = rw e refl

pub message_short :
    (word : List ℕ) → ltb 1024 (length word) ≡ false → message word ≡ some (mesg word)
unfolding message
message_short word e = rw e refl

pub send_words_lem :
    (kernel : Kernel) (rx : ℤ) (words : List (List ℕ)) (calls : List SystemCall)
    → NeverFails kernel
    → send_words kernel rx words calls ≡ sending rx words calls
unfolding send_words all_short short_words
send_words_lem kernel rx [] calls never = rw (List.append-nil calls) refl
send_words_lem kernel rx (word ∷ words) calls never = elim (Bool-cases (ltb 1024 (length word))) [
  | inl long ↦ rw (send_words, message_long word long, long, List.append-nil calls) refl
  | inr short ↦
      rw (send_words, message_short word short, short)
        (ap (λ t. and_then t (λ _. send_words kernel rx words))
            (attempt_went is_negative kernel (write_to rx (mesg word)) calls
              (never.not_negative calls (write_to rx (mesg word))))
          ∙ send_words_lem kernel rx words (calls ++ (write_to rx (mesg word) ∷ [])) never
          ∙ snoc (all_short words) calls (write_to rx (mesg word)) (sent rx words))
]

-- The calls up to the first word, and the descriptors that they give.
abbrev pub connecting : Kernel → (register pipe box : List ℕ) → List SystemCall
connecting kernel register pipe box =
    let tx = kernel [] (open_fifo register o_wronly) in
    open_fifo register o_wronly
    ∷ mkfifo pipe
    ∷ write_to tx (registration pipe box)
    ∷ close_fd tx
    ∷ []

abbrev pub sending_end : Kernel → (register pipe box : List ℕ) → ℤ
sending_end kernel register pipe box =
    kernel (connecting kernel register pipe box) (open_fifo pipe o_wronly)

abbrev pub connected : Kernel → (register pipe box : List ℕ) → List SystemCall
connected kernel register pipe box =
    connecting kernel register pipe box ++ (open_fifo pipe o_wronly ∷ [])

-- The publisher registers, and then sends one message of 1026 bytes for each word of its input, in
-- their order; it ends with the status 0 when the input ends. A word of more than 1024 bytes is the
-- one thing that stops it, which runs over its buffer behind the messages of the words before. The
-- path and the name of the box are of at most 256 and 32 bytes, and no call of the system fails.
pub publisher_sends :
    (kernel : Kernel) (words : List (List ℕ)) (program register pipe box : List ℕ)
    → NeverFails kernel
    → length pipe ≤ 256
    → length box ≤ 32
    → main kernel words (program ∷ register ∷ pipe ∷ box ∷ []) []
      ≡ let rx = sending_end kernel register pipe box in
        let calls = connected kernel register pipe box ++ sent rx words in
        if all_short words
        then stopped (exited 0) (calls ++ (close_fd rx ∷ []))
        else stopped faulted calls
unfolding main begin publish_words start
publisher_sends kernel words program register pipe box never p q =
    rw (main, le→leb (length pipe) 256 p, le→leb (length box) 32 q)
      (attempt_then is_negative kernel c1 [] _ (never.not_negative [] c1)
        ∙ attempt_then is_negative kernel c2 (c1 ∷ []) _ (never.not_negative (c1 ∷ []) c2)
        ∙ attempt_then is_negative kernel c3 (c1 ∷ c2 ∷ []) _ (never.not_negative (c1 ∷ c2 ∷ []) c3)
        ∙ attempt_then is_negative kernel c5 before _ (never.not_negative before c5)
        ∙ ap (λ t. and_then t last) (send_words_lem kernel rx words (before ++ (c5 ∷ [])) never)
        ∙ and_then-if (all_short words) _ _ faulted last)
  where
    tx : ℤ
    tx = kernel [] (open_fifo register o_wronly)

    rx : ℤ
    rx = sending_end kernel register pipe box

    c1 : SystemCall
    c1 = open_fifo register o_wronly

    c2 : SystemCall
    c2 = mkfifo pipe

    c3 : SystemCall
    c3 = write_to tx (registration pipe box)

    c5 : SystemCall
    c5 = open_fifo pipe o_wronly

    before : List SystemCall
    before = connecting kernel register pipe box

    last : Unit {0} → Program (Unit {0})
    last _ = do _ ← ask kernel (close_fd rx); stop (exited 0)
