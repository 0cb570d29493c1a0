-- ===== src/Clients/Manager.antt =====
-- manager/manager.c: the arguments, the request, and what the manager makes of the answer.
pub mod Sorting
pub mod Main
pub mod Runs
pub mod Creates
pub mod Order
use so_ii.Prelude.{
  ℕ, zero, suc, ◌+◌, ◌==◌, Option, none, some, List, [], ◌∷◌, ◌++◌, ℤ, pos, eq_ℤ, length, take, leb,
  copy_in, slice, if◌then◌else◌,
}
use so_ii.Libc.{zeros, codes, char_array, atoi, tokens, eq_bytes}

-- How `main` starts: with the usage, an error, undefined behaviour, or an operation.
pub data Start : Type 0 where
  usage exits fault : Start
  ready : (operation : ℕ) (pipe name : List ℕ) → Start

unfoldable pub operation_of : List ℕ → ℕ
operation_of word =
    if eq_bytes word (codes "create")
    then 3
    else if eq_bytes word (codes "remove")
    then 5
    else if eq_bytes word (codes "list")
    then 7
    else 0

-- The arguments from `argv[0]` on. Without an `argv[4]` there is a NULL in its place, of which
-- `strlen` is taken.
pub start : List (List ℕ) → Start
unfolding operation_of
start (program ∷ register ∷ pipe ∷ word ∷ []) = if leb (length pipe) 256 then fault else exits
start (program ∷ register ∷ pipe ∷ word ∷ name ∷ more) =
    if leb (length pipe) 256
    then (if leb (length name) 32 then ready (operation_of word) pipe name else exits)
    else exits
start args = usage

-- The 290 bytes of a request: a digit, 256 bytes of the path and 32 of the name.
unfoldable pub request_bytes : (operation : ℕ) (pipe name : List ℕ) → ℕ → ℕ
request_bytes operation pipe name =
    copy_in (copy_in (copy_in zeros 0 ((b'0' + operation) ∷ [])) 1 (slice (char_array pipe) 0 256))
      257 (slice (char_array name) 0 32)

unfoldable pub request : (operation : ℕ) (pipe name : List ℕ) → List ℕ
unfolding request_bytes
request operation pipe name = slice (request_bytes operation pipe name) 0 290

-- What is printed for an answer.
pub data Verdict : Type 0 where
  success : Verdict
  failure : (message : List ℕ) → Verdict

unfoldable pub create_verdict : (reply : List ℕ) → Verdict
create_verdict reply = if answer 1 == 0 then success else failure (slice answer 3 1024)
  where
    answer : ℕ → ℕ
    answer = copy_in zeros 0 (take 1032 reply)

-- One byte of the answer is read.
unfoldable pub remove_verdict : (reply : List ℕ) → Verdict
remove_verdict reply = if answer 4 == 0 then success else failure (slice answer 5 1024)
  where
    answer : ℕ → ℕ
    answer = copy_in zeros 0 (take 1 reply)

-- One box of a listing.
pub record Entry : Type 0 where
  pub box_name : List ℕ
  pub box_size : ℤ
  pub n_publishers : ℤ
  pub n_subscribers : ℤ

pub data Listing : Type 0 where
  listed : List Entry → Listing
  exits waits : Listing

-- `last` and the entry after the tokens of one message.
unfoldable pub use_tokens : List (List ℕ) → ℤ → ℤ
use_tokens (code ∷ last ∷ more) old = atoi last
use_tokens tokens' old = old

token_at : ℕ → List (List ℕ) → Option (List ℕ)
token_at i [] = none
token_at zero (t ∷ ts) = some t
token_at (suc i) (t ∷ ts) = token_at i ts

number_at : ℕ → List (List ℕ) → ℤ → ℤ
unfolding token_at
number_at i ts old = elim (token_at i ts) [ none ↦ old | some t ↦ atoi t ]

text_at : ℕ → List (List ℕ) → List ℕ → List ℕ
unfolding token_at
text_at i ts old = elim (token_at i ts) [ none ↦ old | some t ↦ t ]

entry_of : List (List ℕ) → Entry → Entry
unfolding number_at text_at
entry_of ts old = record {
  box_name = text_at 2 ts old.box_name;
  box_size = number_at 3 ts old.box_size;
  n_publishers = number_at 4 ts old.n_publishers;
  n_subscribers = number_at 5 ts old.n_subscribers;
}

-- What a `read` of one byte gives.
pub data ByteRead : Type 0 where
  failed ended : ByteRead
  byte : ℕ → ByteRead

-- The string in `answer` while only its first byte has been written.
abbrev pub answer_text : ℕ → List ℕ
answer_text c = if c == 0 then [] else c ∷ []

-- The loop that reads the boxes, with what the entries on the stack hold before.
unfoldable pub read_boxes :
    List ByteRead → (answer : ℕ) → (last : ℤ) → (old : Entry) → List Entry → Listing
unfolding use_tokens entry_of
read_boxes [] answer last old boxes = if eq_ℤ last (pos 0) then listed boxes else waits
read_boxes (r ∷ rs) answer last old boxes =
    let again = λ (c : ℕ).
      read_boxes rs c (use_tokens (tokens b'|' (answer_text c)) last) old
        (boxes ++ (entry_of (tokens b'|' (answer_text c)) old ∷ [])) in
    if eq_ℤ last (pos 0)
    then listed boxes
    else elim r [ failed ↦ Listing.exits | ended ↦ again answer | byte c ↦ again c ]
