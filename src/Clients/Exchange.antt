-- ===== src/Clients/Exchange.antt =====
-- What the broker makes of the clients' requests, and the clients of its answers.
use so_ii.Prelude.{
  ℕ, ◌+◌, ◌≤◌, ◌<◌, ◌≡◌, ◌≢◌, ◌∙◌, inl, ap, arith, false, some, List, [], ◌∷◌, length, get_or, pos,
  eq_ℤ, copy_in, copy_in_outside, slice,
}
use so_ii.Fs.Strings.{IsString}
use so_ii.Libc.{zeros, char_array, string_at, atoi, is_digit}
use so_ii.Libc.Laws.{
  char_array-byte, string_in-bytes, moved_front-byte, atoi-digit, copy_in-byte, moved-byte,
}
use so_ii.Broker.{Broker, pipe_name_size, box_name_size}
use so_ii.Broker.Requests.{received, decode}
use so_ii.Clients.Manager

-- The three fields of a request of at least 289 bytes, byte by byte.
module _ (beyond : List ℕ) (b : Broker) (bytes : ℕ → ℕ) (n : ℕ) (long : 289 ≤ n) where
  abbrev pub after : Broker
  after = decode beyond (received (slice bytes 0 n) b)

  got : (j : ℕ) → j < n → copy_in b.buffer 0 (slice bytes 0 n) j ≡ bytes j
  got j h = let e : 0 + j ≡ j = omega arith in moved_front-byte b.buffer bytes 0 n j h ∙ ap bytes e

  pub op_is : after.op_code ≡ atoi (bytes 0 ∷ beyond)
  unfolding decode
  op_is = ap (λ (c : ℕ). atoi (c ∷ beyond)) (got 0 (omega arith))

  pub path_is : (j : ℕ) → j < 256 → after.client_named_pipe_path j ≡ bytes (1 + j)
  unfolding decode
  path_is j h =
      moved_front-byte b.client_named_pipe_path (received (slice bytes 0 n) b).buffer 1 256 j h
      ∙ got (1 + j) (omega arith)

  pub name_is :
      eq_ℤ after.op_code (pos 7) ≡ false → (j : ℕ) → j < 32 → after.box_name j ≡ bytes (257 + j)
  unfolding decode
  name_is op j h = rw op (
      moved_front-byte b.box_name (received (slice bytes 0 n) b).buffer 257 32 j h
      ∙ got (257 + j) (omega arith))

-- A manager's request, byte by byte.
module _ (op : ℕ) (pipe name : List ℕ) where
  abbrev sent : ℕ → ℕ
  sent = Manager.request_bytes op pipe name

  abbrev with_path : ℕ → ℕ
  with_path = copy_in (copy_in zeros 0 ((b'0' + op) ∷ [])) 1 (slice (char_array pipe) 0 256)

  code_byte : sent 0 ≡ b'0' + op
  unfolding Manager.request_bytes
  code_byte =
      copy_in_outside with_path 257 (slice (char_array name) 0 32) 0 (inl (omega arith))
      ∙ copy_in_outside (copy_in zeros 0 ((b'0' + op) ∷ [])) 1 (slice (char_array pipe) 0 256) 0
          (inl (omega arith))
      ∙ copy_in-byte zeros 0 ((b'0' + op) ∷ []) 0 (omega arith) (omega arith)

  path_byte : (j : ℕ) → j < 256 → sent (1 + j) ≡ get_or pipe j 0
  unfolding Manager.request_bytes
  path_byte j h =
      copy_in_outside with_path 257 (slice (char_array name) 0 32) (1 + j) (inl (omega arith))
      ∙ moved-byte (copy_in zeros 0 ((b'0' + op) ∷ [])) (char_array pipe) 0 1 256 j h
      ∙ ap (char_array pipe) (omega arith)
      ∙ char_array-byte pipe j

  name_byte : (j : ℕ) → j < 32 → sent (257 + j) ≡ get_or name j 0
  unfolding Manager.request_bytes
  name_byte j h =
      moved-byte with_path (char_array name) 0 257 32 j h
      ∙ ap (char_array name) (omega arith)
      ∙ char_array-byte name j

-- The broker reads the request of a manager as it was meant: the code, the path and the name. The
-- operation is one of those that have a name, so its code is one digit and not that of a listing;
-- the path and the name have room for their NUL; and the memory behind the byte of the code does
-- not go on with a digit.
pub manager_request :
    (beyond : List ℕ) (b : Broker) (op : ℕ) (pipe name : List ℕ)
    → op < 10
    → op ≢ 7
    → is_digit (get_or beyond 0 0) ≡ false
    → IsString pipe
    → IsString name
    → length pipe < 256
    → length name < 32
    → let after = decode beyond (received (Manager.request op pipe name) b) in
      (after.op_code ≡ pos op)
      × (string_at after.client_named_pipe_path 0 pipe_name_size ≡ some pipe)
      × (string_at after.box_name 0 box_name_size ≡ some name)
unfolding Manager.request
manager_request beyond b op pipe name small other ends pipe_is name_is' p q = (
  code_is,
  string_in-bytes after'.client_named_pipe_path 256 pipe pipe_is p (λ j h.
      path_is beyond b bytes 290 (omega arith) j (omega arith)
      ∙ path_byte op pipe name j (omega arith)),
  string_in-bytes after'.box_name 32 name name_is' q (λ j h.
      name_is beyond b bytes 290 (omega arith) (ground (arith, code_is)) j (omega arith)
      ∙ name_byte op pipe name j (omega arith)),
)
  where
    bytes : ℕ → ℕ
    bytes = Manager.request_bytes op pipe name

    after' : Broker
    after' = decode beyond (received (slice bytes 0 290) b)

    code_is : after'.op_code ≡ pos op
    code_is =
        op_is beyond b bytes 290 (omega arith)
        ∙ ap (λ (c : ℕ). atoi (c ∷ beyond)) (code_byte op pipe name)
        ∙ atoi-digit (b'0' + op) beyond (ground arith) ends
        ∙ ap pos (omega arith)
