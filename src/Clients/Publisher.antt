-- ===== src/Clients/Publisher.antt =====
-- publisher/pub.c: the registration and the messages.
pub mod Main
pub mod Sends
use so_ii.Prelude.{
  ℕ, Option, none, some, List, [], ◌∷◌, length, leb, ltb, copy_in, slice, if◌then◌else◌,
}
use so_ii.Libc.{zeros}

-- How `main` starts.
pub data Start : Type 0 where
  usage exits : Start
  ready : (register pipe box : List ℕ) → Start

pub start : List (List ℕ) → Start
start (program ∷ register ∷ pipe ∷ box ∷ []) =
    if leb (length pipe) 256
    then (if leb (length box) 32 then ready register pipe box else exits)
    else exits
start args = usage

-- The 291 bytes of the registration: the code, the path and the name behind a bar each.
unfoldable pub registration_bytes : (pipe box : List ℕ) → ℕ → ℕ
registration_bytes pipe box =
    copy_in
      (copy_in (copy_in (copy_in (copy_in zeros 0 (b'1' ∷ [])) 1 (b'|' ∷ [])) 2 pipe) 258
        (b'|' ∷ []))
      259 box

unfoldable pub registration : (pipe box : List ℕ) → List ℕ
unfolding registration_bytes
registration pipe box = slice (registration_bytes pipe box) 0 291

unfoldable pub mesg : (word : List ℕ) → List ℕ
mesg word = slice (copy_in (copy_in (copy_in zeros 0 (b'9' ∷ [])) 1 (b'|' ∷ [])) 2 word) 0 1026

-- The 1026 bytes of a message. A word of more than 1024 bytes runs over the array that `scanf`
-- writes to.
pub message : (word : List ℕ) → Option (List ℕ)
message word = if ltb 1024 (length word) then none else some (mesg word)
