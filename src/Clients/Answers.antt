-- ===== src/Clients/Answers.antt =====
-- What the clients make of the broker's answers.
use so_ii.Prelude.{
  ℕ, zero, suc, ◌+◌, ◌<◌, ◌≡◌, ◌≢◌, ◌∙◌, refl, ap, arith, Bool, true, false, List, [], ◌∷◌, length,
  get_or, ℤ, pos, copy_in, slice, take, if◌then◌else◌,
}
use so_ii.Libc.{tokens, pieces, nonempty}
use so_ii.Libc.Laws.{get_or-slice, copy_in-byte}
use so_ii.Broker.Sessions.{create_answer, remove_answer}
use so_ii.Clients.Manager.{
  success, create_verdict, remove_verdict, Entry, Listing, use_tokens, ByteRead, failed, ended,
  byte, read_boxes, answer_text,
}

get_or-take : (n : ℕ) (xs : List ℕ) (j : ℕ) → j < n → get_or (take n xs) j 0 ≡ get_or xs j 0
get_or-take zero xs j h = absurd (omega arith)
get_or-take (suc n) [] j h = refl
get_or-take (suc n) (x ∷ xs) zero h = refl
get_or-take (suc n) (x ∷ xs) (suc j) h = get_or-take n xs j (omega arith)

-- Byte `j` of an answer that a client reads into an array of zeros of `n` bytes.
pub read_byte :
    (f g : ℕ → ℕ) (m n j : ℕ)
    → j < m
    → j < length (take n (slice g 0 m))
    → j < n
    → copy_in f 0 (take n (slice g 0 m)) j ≡ g j
read_byte f g m n j h p q =
    let e : 0 + j ≡ j = omega arith in
    copy_in-byte f 0 (take n (slice g 0 m)) j (omega arith) (omega arith)
    ∙ ap (λ (i : ℕ). get_or (take n (slice g 0 m)) i 0) (omega arith)
    ∙ get_or-take n (slice g 0 m) j q
    ∙ get_or-slice g 0 m j h
    ∙ ap g e

create_never_ok :
    (failed' : Bool) (msg : ℕ → ℕ)
    → create_verdict (slice (create_answer failed' msg) 0 1030) ≢ success
unfolding create_verdict create_answer copy_in
create_never_ok true msg e = cc
create_never_ok false msg e = cc

pub remove_always_ok : (reply : List ℕ) → remove_verdict reply ≡ success
unfolding remove_verdict copy_in
remove_always_ok [] = refl
remove_always_ok (c ∷ reply) = refl

-- The manager reports a failure whatever the broker answers to a creation, also to one that did not
-- fail: the broker marks a success by the character `0`, and the manager looks for the number 0. It
-- reports a success whatever the broker answers to a removal, whose result code it does not read.
pub verdicts_ignore_answers :
    (failed' : Bool) (msg stack : ℕ → ℕ) (return_code : ℤ)
    → (create_verdict (slice (create_answer failed' msg) 0 1030) ≢ success)
      × (remove_verdict (slice (remove_answer stack return_code msg) 0 1029) ≡ success)
verdicts_ignore_answers failed' msg stack return_code = (
  create_never_ok failed' msg,
  remove_always_ok (slice (remove_answer stack return_code msg) 0 1029),
)

-- Whether one of the reads fails.
pub any_failed : List ByteRead → Bool
any_failed [] = false
any_failed (failed ∷ rs) = true
any_failed (ended ∷ rs) = any_failed rs
any_failed (byte c ∷ rs) = any_failed rs

-- One byte has no second token.
last_kept : (c : ℕ) (last : ℤ) → use_tokens (tokens b'|' (answer_text c)) last ≡ last
unfolding use_tokens tokens pieces nonempty
last_kept c last = ground arith

-- The manager's listing never comes to its end, whatever the broker sends: it ends the program if
-- a read fails, and reads on for ever if none does.
pub listing_never_ends :
    (rs : List ByteRead) (answer : ℕ) (old : Entry) (boxes : List Entry)
    → read_boxes rs answer (pos 1) old boxes
      ≡ (if any_failed rs then Listing.exits else Listing.waits)
unfolding read_boxes any_failed
listing_never_ends [] answer old boxes = refl
listing_never_ends (failed ∷ rs) answer old boxes = refl
listing_never_ends (ended ∷ rs) answer old boxes =
    rw (last_kept answer (pos 1)) (listing_never_ends rs answer old _)
listing_never_ends (byte c ∷ rs) answer old boxes =
    rw (last_kept c (pos 1)) (listing_never_ends rs c old _)
