-- ===== src/Clients/Subscriber.antt =====
-- subscriber/sub.c: the registration, and what is shown of a message.
pub mod Main
pub mod Shows
use so_ii.Prelude.{
  ℕ, Option, none, some, List, [], ◌∷◌, length, leb, ltb, copy_in, slice, take, if◌then◌else◌,
}
use so_ii.Libc.{zeros, string_at}

-- How `main` starts.
pub data Start : Type 0 where
  usage exits : Start
  ready : (register pipe box : List ℕ) → Start

pub start : List (List ℕ) → Start
start (program ∷ register ∷ pipe ∷ box ∷ []) =
    if leb (length pipe) 256
    then (if leb (length box) 32 then ready register pipe box else exits)
    else exits
start args = usage

-- The 291 bytes of the registration. The code is the number 2.
unfoldable pub registration_bytes : (pipe box : List ℕ) → ℕ → ℕ
registration_bytes pipe box =
    copy_in
      (copy_in (copy_in (copy_in (copy_in zeros 0 (2 ∷ [])) 1 (b'|' ∷ [])) 2 pipe) 258 (b'|' ∷ []))
      259 box

unfoldable pub registration : (pipe box : List ℕ) → List ℕ
unfolding registration_bytes
registration pipe box = slice (registration_bytes pipe box) 0 291

-- The string that is shown after a `read` from a pipe that holds `bytes`: `strcpy` from byte 4 of a
-- buffer of 1025 bytes, which takes as many of them, into an array of 257; `none` where the string does not end in the one or fit the other.
-- `old` is what the buffer holds before.
unfoldable pub shown : (old : ℕ → ℕ) → List ℕ → Option (List ℕ)
shown old bytes = elim (string_at (copy_in old 0 (take 1025 bytes)) 4 1021) [
  | none ↦ none
  | some text ↦ if ltb 256 (length text) then none else some text
]
