-- ===== src/Clients/Manager/Creates.antt =====
-- A run of the manager that creates a box, on what the broker answers.
use so_ii.Prelude.{
  ℕ, zero, suc, ◌+◌, ◌-◌, ◌==◌, ◌≤◌, ◌<◌, ◌≡◌, ◌≢◌, ◌∙◌, refl, sym, ap, arith, true, false, List,
  [], ◌∷◌, ◌++◌, some, ℤ, get_or, length, length-take, length-slice, slice, take, copy_in, ne→eqb,
  if◌then◌else◌,
}
use so_ii.Fs.Strings.{IsString}
use so_ii.Libc.{codes, zeros, char_array, string_at}
use so_ii.Libc.Laws.{string_at-bytes, get_or-slice, copy_in-byte, char_array-byte}
use so_ii.Broker.Sessions.{create_answer}
use so_ii.Clients.System.{
  SystemCall, text, open_fifo, write_to, close_fd, print, o_rdonly, o_wronly, Kernel, stopped,
  exited, is_negative, ◌>>=◌, and_then, NeverFails, attempt_then, went, ask, stop, Program, Step,
}
use so_ii.Clients.Manager.{operation_of, request, success, failure, create_verdict, Entry, ByteRead}
use so_ii.Clients.Manager.Sorting.{Qsort}
use so_ii.Clients.Manager.Main.{
  Inbox, told, is_minus_one, in_array, printed, reply_of, print_verdict, create, serve, main,
}
use so_ii.Clients.Manager.Runs.{reached, executes, opened}
use so_ii.Clients.Answers.{read_byte}

slice_byte : (f : ℕ → ℕ) (n j : ℕ) → j < n → get_or (slice f 0 n) j 0 ≡ f j
slice_byte f n j h = get_or-slice f 0 n j h ∙ ap f {x = 0 + j} {y = j} (omega arith)

-- The answer is the string of its code, its mark and the message.
failed_bytes :
    (s : List ℕ)
    → length s < 1024
    → (j : ℕ) → j ≤ length (b'4' ∷ b'-' ∷ b'1' ∷ s)
    → create_answer true (char_array s) j ≡ get_or (b'4' ∷ b'-' ∷ b'1' ∷ s) j 0
unfolding create_answer copy_in
failed_bytes s h zero p = refl
failed_bytes s h (suc zero) p = refl
failed_bytes s h (suc (suc zero)) p = refl
failed_bytes s h (suc (suc (suc j))) p =
    copy_in-byte (copy_in (copy_in zeros 0 (b'4' ∷ [])) 1 (b'-' ∷ b'1' ∷ [])) 3
      (slice (char_array s) 0 1024) (suc (suc (suc j))) (omega arith)
      (omega (arith, length-slice (char_array s) 0 1024))
    ∙ ap (in_array (slice (char_array s) 0 1024)) {x = suc (suc (suc j)) - 3} {y = j} (omega arith)
    ∙ slice_byte (char_array s) 1024 j (omega arith)
    ∙ char_array-byte s j

made_bytes :
    (s : List ℕ)
    → length s < 1024
    → (j : ℕ) → j ≤ length (b'4' ∷ b'0' ∷ s)
    → create_answer false (char_array s) j ≡ get_or (b'4' ∷ b'0' ∷ s) j 0
unfolding create_answer copy_in
made_bytes s h zero p = refl
made_bytes s h (suc zero) p = refl
made_bytes s h (suc (suc j)) p =
    copy_in-byte (copy_in (copy_in zeros 0 (b'4' ∷ [])) 1 (b'0' ∷ [])) 2
      (slice (char_array s) 0 1024) (suc (suc j)) (omega arith)
      (omega (arith, length-slice (char_array s) 0 1024))
    ∙ ap (in_array (slice (char_array s) 0 1024)) {x = suc (suc j) - 2} {y = j} (omega arith)
    ∙ slice_byte (char_array s) 1024 j (omega arith)
    ∙ char_array-byte s j

not_zero :
    (n : ℕ) (message : List ℕ)
    → n ≢ 0
    → (if n == 0 then success else failure message) ≡ failure message
not_zero n message ne = rw (ne→eqb n 0 ne) refl

found :
    (array : List ℕ) (n : ℕ) (s : List ℕ) (calls : List SystemCall)
    → string_at (in_array array) 0 n ≡ some s
    → printed array n calls ≡ went s calls
unfolding printed
found array n s calls e = rw (printed, e) refl

-- A reply of 1030 bytes that begins with a string of at least three bytes.
module _ (f : ℕ → ℕ) (a b c : ℕ) (rest : List ℕ) (is : IsString (a ∷ b ∷ c ∷ rest))
    (short : length rest < 1024)
    (bytes : (j : ℕ) → j ≤ length (a ∷ b ∷ c ∷ rest) → f j ≡ get_or (a ∷ b ∷ c ∷ rest) j 0) where
  abbrev answer : ℕ → ℕ
  answer = copy_in zeros 0 (take 1032 (slice f 0 1030))

  answer_byte : (j : ℕ) → j ≤ length (a ∷ b ∷ c ∷ rest) → answer j ≡ get_or (a ∷ b ∷ c ∷ rest) j 0
  answer_byte j h =
      read_byte zeros f 1030 1032 j (omega arith)
        (omega (arith, length-take 1032 (slice f 0 1030), length-slice f 0 1030)) (omega arith)
      ∙ bytes j h

  whole : string_at (in_array (slice f 0 1030)) 0 1032 ≡ some (a ∷ b ∷ c ∷ rest)
  whole =
      string_at-bytes (in_array (slice f 0 1030)) 0 1032 (a ∷ b ∷ c ∷ rest) is (omega arith) λ j h.
        ap (in_array (slice f 0 1030)) {x = 0 + j} {y = j} (omega arith)
        ∙ slice_byte f 1030 j (omega arith)
        ∙ bytes j h

  tail_is : string_at (in_array (slice answer 3 1024)) 0 1024 ≡ some rest
  tail_is =
      string_at-bytes (in_array (slice answer 3 1024)) 0 1024 rest (is.1.1.1) (omega arith) λ j h.
        ap (in_array (slice answer 3 1024)) {x = 0 + j} {y = j} (omega arith)
        ∙ get_or-slice answer 3 1024 j (omega arith)
        ∙ ap answer {x = 3 + j} {y = suc (suc (suc j))} (omega arith)
        ∙ answer_byte (suc (suc (suc j))) (omega arith)

  verdict : create_verdict (slice f 0 1030) ≡ failure (slice answer 3 1024)
  unfolding create_verdict
  verdict =
      not_zero (answer 1) (slice answer 3 1024)
        (λ e. is.1.0 (sym (answer_byte 1 (omega arith)) ∙ e))

  prints :
      (kernel : Kernel) (calls : List SystemCall)
      → print_verdict kernel (create_verdict (slice f 0 1030)) calls
        ≡ went tt (calls ++ (print (text (codes "ERROR ") ∷ text rest ∷ []) ∷ []))
  unfolding print_verdict
  prints kernel calls =
      rw (verdict, print_verdict)
        (ap (λ t. and_then t (λ message. told kernel message))
          (found (slice answer 3 1024) 1024 rest calls tail_is))

-- The calls of a creation whose answer says `message`.
abbrev pub created : Kernel → (register pipe name message : List ℕ) → List SystemCall
created kernel register pipe name message =
    let tx = kernel [] (open_fifo register o_wronly) in
    let before = reached register pipe ++ (write_to tx (request 3 pipe name) ∷ []) in
    before
    ++ (open_fifo pipe o_rdonly
        ∷ print (text (codes "ERROR ") ∷ text message ∷ [])
        ∷ close_fd (kernel before (open_fifo pipe o_rdonly))
        ∷ [])

create_lem :
    {kernel : Kernel}
    → NeverFails kernel
    → (register pipe name : List ℕ) (f : ℕ → ℕ) (a b c : ℕ) (rest : List ℕ)
    → IsString (a ∷ b ∷ c ∷ rest)
    → length rest < 1024
    → ((j : ℕ) → j ≤ length (a ∷ b ∷ c ∷ rest) → f j ≡ get_or (a ∷ b ∷ c ∷ rest) j 0)
    → create kernel
        (kernel [] (open_fifo register o_wronly))
        pipe
        name
        (some (slice f 0 1030))
        (reached register pipe)
      ≡ stopped (exited 0) (created kernel register pipe name rest)
unfolding create reply_of
create_lem {kernel} never register pipe name f a b c rest is short bytes =
    attempt_then is_negative kernel c4 before _ (never.not_negative before c4)
    ∙ attempt_then is_minus_one kernel c6 (before ++ (c4 ∷ [])) _
        (opened never (before ++ (c4 ∷ [])) c6)
    ∙ ap (λ t. and_then t k)
        (found (slice f 0 1030) 1032 (a ∷ b ∷ c ∷ rest) after (whole f a b c rest is short bytes))
    ∙ ap (λ t. and_then t last) (prints f a b c rest is short bytes kernel after)
  where
    tx : ℤ
    tx = kernel [] (open_fifo register o_wronly)

    before : List SystemCall
    before = reached register pipe

    c4 : SystemCall
    c4 = write_to tx (request 3 pipe name)

    c6 : SystemCall
    c6 = open_fifo pipe o_rdonly

    after : List SystemCall
    after = before ++ (c4 ∷ c6 ∷ [])

    last : Unit {0} → Program (Unit {0})
    last _ = do _ ← ask kernel (close_fd (kernel (before ++ (c4 ∷ [])) c6)); stop (exited 0)

    k : List ℕ → Program (Unit {0})
    k _ = do u ← print_verdict kernel (create_verdict (slice f 0 1030)); last u

-- A manager that creates a box prints ERROR and ends with the status 0 both where the broker has
-- failed and where it has made the box: in the first case with the message of the broker behind it,
-- in the second with the message but for its first byte. The message is a C string of less than
-- 1023 bytes, not empty in the second case; the path and the name are of at most 256 and 32 bytes,
-- and no call of the system fails.
pub manager_creates :
    (kernel : Kernel) (qsort : Qsort) (old : Entry) (reads : List ByteRead)
    (program register pipe name : List ℕ) (c : ℕ) (message : List ℕ)
    → NeverFails kernel
    → length pipe ≤ 256
    → length name ≤ 32
    → c ≢ 0
    → IsString message
    → length message < 1023
    → let run : (ℕ → ℕ) → Step (Unit {0}) = λ answer.
      main kernel qsort old
        (record { reply = some (slice answer 0 1030); reads = reads })
        (program ∷ register ∷ pipe ∷ codes "create" ∷ name ∷ [])
        [] in
      (run (create_answer true (char_array message))
        ≡ stopped (exited 0) (created kernel register pipe name message))
      × (run (create_answer false (char_array (c ∷ message)))
          ≡ stopped (exited 0) (created kernel register pipe name message))
unfolding operation_of serve
manager_creates kernel qsort old reads program register pipe name c message never p q ne is h = (
  executes kernel qsort old (inbox (create_answer true (char_array message))) program register pipe
        (codes "create") name never p q
      ∙ create_lem never register pipe name (create_answer true (char_array message)) b'4' b'-' b'1'
          message (ground arith, (ground arith, (ground arith, is))) (omega arith)
          (failed_bytes message (omega arith)),
  executes kernel qsort old (inbox (create_answer false (char_array (c ∷ message)))) program
        register pipe (codes "create") name never p q
      ∙ create_lem never register pipe name (create_answer false (char_array (c ∷ message))) b'4'
          b'0' c message (ground arith, (ground arith, (ne, is))) (omega arith)
          (made_bytes (c ∷ message) (omega arith)),
)
  where
    inbox : (ℕ → ℕ) → Inbox
    inbox answer = record { reply = some (slice answer 0 1030); reads = reads }
