-- ===== src/Clients/Registrations.antt =====
-- What the broker makes of the registrations of publishers and subscribers.
use so_ii.Prelude.{
  ℕ, zero, suc, ◌+◌, ◌≤◌, ◌<◌, ◌≡◌, ◌∙◌, inl, inr, refl, sym, ap, arith, false, some, List, [], ◌∷◌,
  length, get_or, pos, copy_in, copy_in_inside, copy_in_outside, slice,
}
use native.Mathlib.Decide.{dec_lt}
use so_ii.Fs.Strings.{IsString}
use so_ii.Fs.Operations.{Pthread}
use so_ii.Libc.{zeros, string_at, atoi, is_digit, signed, digits}
use so_ii.Libc.Laws.{string_in-bytes, atoi-digit, get_or_past}
use so_ii.Broker.{Broker, done, pipe_name_size, box_name_size}
use so_ii.Broker.Requests.{received, decode}
use so_ii.Broker.Sessions.{Client, Image}
use so_ii.Queue.{Queue}
use so_ii.Queue.Fifo.{IsFifo}
use so_ii.Broker.Sessions.Commands.{thread_fun}
use so_ii.Broker.Sessions.Commands.Nothing.{thread-nothing}
use so_ii.Clients.Exchange.{op_is, path_is, name_is}
use so_ii.Clients.Publisher
use so_ii.Clients.Subscriber

-- The bytes of a publisher's registration up to the second bar.
module _ (pipe box : List ℕ) where
  abbrev with_bar : ℕ → ℕ
  with_bar = copy_in (copy_in zeros 0 (b'1' ∷ [])) 1 (b'|' ∷ [])

  abbrev with_pipe : ℕ → ℕ
  with_pipe = copy_in with_bar 2 pipe

  abbrev with_bars : ℕ → ℕ
  with_bars = copy_in with_pipe 258 (b'|' ∷ [])

  early : (j : ℕ) → j < 258 → Publisher.registration_bytes pipe box j ≡ with_pipe j
  unfolding Publisher.registration_bytes
  early j h =
      copy_in_outside with_bars 259 box j (inl (omega arith))
      ∙ copy_in_outside with_pipe 258 (b'|' ∷ []) j (inl (omega arith))

  front : (j : ℕ) → j < 2 → Publisher.registration_bytes pipe box j ≡ with_bar j
  front j h = early j (omega arith) ∙ copy_in_outside with_bar 2 pipe j (inl (omega arith))

  code_byte : Publisher.registration_bytes pipe box 0 ≡ b'1'
  unfolding copy_in
  code_byte = front 0 (omega arith)

  bar_byte : Publisher.registration_bytes pipe box 1 ≡ b'|'
  unfolding copy_in
  bar_byte = front 1 (omega arith)

  with_bar_past : (j : ℕ) → 2 ≤ j → with_bar j ≡ 0
  with_bar_past j h =
      copy_in_outside (copy_in zeros 0 (b'1' ∷ [])) 1 (b'|' ∷ []) j (inr h)
      ∙ copy_in_outside zeros 0 (b'1' ∷ []) j (inr (omega arith))

  pipe_byte : (j : ℕ) → j < 256 → Publisher.registration_bytes pipe box (2 + j) ≡ get_or pipe j 0
  pipe_byte j h = early (2 + j) (omega arith) ∙ elim (dec_lt j (length pipe)) [
    | yes inside ↦ copy_in_inside with_bar 2 pipe j inside
    | no past ↦
        copy_in_outside with_bar 2 pipe (2 + j) (inr (omega arith))
        ∙ with_bar_past (2 + j) (omega arith)
        ∙ sym (get_or_past pipe j (omega arith))
  ]

-- The broker misreads the registration of a publisher: its path is the publisher's behind a bar,
-- and its box has the empty name. The path is of at most 254 bytes, and the memory behind the byte
-- of the code does not go on with a digit.
pub publisher_misread :
    (beyond : List ℕ) (b : Broker) (pipe box : List ℕ)
    → is_digit (get_or beyond 0 0) ≡ false
    → IsString pipe
    → length pipe < 255
    → let after = decode beyond (received (Publisher.registration pipe box) b) in
      (after.op_code ≡ pos 1)
      × (string_at after.client_named_pipe_path 0 pipe_name_size ≡ some (b'|' ∷ pipe))
      × (string_at after.box_name 0 box_name_size ≡ some [])
unfolding Publisher.registration
publisher_misread beyond b pipe box ends pipe_is p = (
  code_is,
  string_in-bytes after'.client_named_pipe_path 256 (b'|' ∷ pipe) (ground arith, pipe_is)
      (omega arith)
      (λ j h. path_is beyond b bytes 291 (omega arith) j (omega arith) ∙ path_byte j h),
  string_in-bytes after'.box_name 32 [] tt (omega arith) (λ j h.
      name_is beyond b bytes 291 (omega arith) (ground (arith, code_is)) j (omega arith) ∙ nul j h),
)
  where
    bytes : ℕ → ℕ
    bytes = Publisher.registration_bytes pipe box

    after' : Broker
    after' = decode beyond (received (slice bytes 0 291) b)

    code_is : after'.op_code ≡ pos 1
    code_is =
        op_is beyond b bytes 291 (omega arith)
        ∙ ap (λ (c : ℕ). atoi (c ∷ beyond)) (code_byte pipe box)
        ∙ atoi-digit b'1' beyond refl ends

    path_byte : (j : ℕ) → j ≤ length (b'|' ∷ pipe) → bytes (1 + j) ≡ get_or (b'|' ∷ pipe) j 0
    path_byte zero h = bar_byte pipe box
    path_byte (suc j) h =
        let e : 1 + suc j ≡ 2 + j = omega arith in ap bytes e ∙ pipe_byte pipe box j (omega arith)

    nul : (j : ℕ) → j ≤ 0 → bytes (257 + j) ≡ get_or [] j 0
    nul j h =
        let e : 257 + j ≡ 2 + 255 = omega arith in
        ap bytes e ∙ pipe_byte pipe box 255 (omega arith) ∙ get_or_past pipe 255 (omega arith)

-- The first byte of a subscriber's registration is no digit.
subscriber_code : (pipe box : List ℕ) → Subscriber.registration_bytes pipe box 0 ≡ 2
unfolding Subscriber.registration_bytes copy_in
subscriber_code pipe box = refl

no_code : (beyond : List ℕ) → atoi (2 ∷ beyond) ≡ pos 0
unfolding atoi signed digits
no_code beyond = refl

-- The broker reads the code 0 from the registration of a subscriber, and where no session is active
-- and the queue has an element, the thread that serves it takes that element and ends: nothing else
-- changes and nothing is sent.
pub subscriber_ignored :
    (pthread : Pthread) (stack : ℕ → ℕ) (image : ℕ → Image) (c : Client) (beyond : List ℕ)
    (b : Broker) (pipe box : List ℕ) (x : ℕ) (xs : List ℕ)
    → b.num_active_sessions ≡ 0
    → IsFifo b.queue (x ∷ xs)
    → let after = decode beyond (received (Subscriber.registration pipe box) b) in
      (after.op_code ≡ pos 0)
      × (q' : Queue) × IsFifo q' xs
      × (thread_fun pthread stack image c after ≡ done tt (record after { queue = q' }))
unfolding Subscriber.registration decode
subscriber_ignored pthread stack image c beyond b pipe box x xs none' v =
    let (q', fifo, run) = thread-nothing pthread stack image c after' x xs code_is none' v in
    (code_is, q', fifo, run)
  where
    bytes : ℕ → ℕ
    bytes = Subscriber.registration_bytes pipe box

    after' : Broker
    after' = decode beyond (received (slice bytes 0 291) b)

    code_is : after'.op_code ≡ pos 0
    code_is =
        op_is beyond b bytes 291 (omega arith)
        ∙ ap (λ (c : ℕ). atoi (c ∷ beyond)) (subscriber_code pipe box)
        ∙ no_code beyond
