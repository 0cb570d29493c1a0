-- ===== src/Queue/Places.antt =====
-- The two accesses to the ring: inside the buffer they succeed, and the index stays inside.
use so_ii.Prelude.{ℕ, ◌+◌, ◌%◌, ◌^◌, ◌<◌, ◌≡◌, ◌==◌, false, true, arith, ltb, pos, set}
use native.Mathlib.Nat.{mod-lt}
use so_ii.Queue.{Queue, returned, next_index, put, pop}

pub next_index-lt : (q : Queue) (i : ℕ) → 0 < q.pcq_capacity → next_index q i < q.pcq_capacity
unfolding next_index
next_index-lt q i h = mod-lt ((i + 1) % 2 ^ 64) h

module _ (q : Queue) (nonempty : 0 < q.pcq_capacity)
    (buffer : q.pcq_buffer.size ≡ q.pcq_capacity) where
  exists : (q.pcq_capacity == 0) ≡ false
  exists = ground arith

  pub put-ok :
      (elem : ℕ)
      → q.pcq_tail < q.pcq_capacity
      → put elem q
        ≡ returned (pos 0) (record q {
          pcq_buffer = set q.pcq_buffer q.pcq_tail elem;
          pcq_tail = next_index q q.pcq_tail;
        })
  unfolding put
  put-ok elem h =
      let inside : ltb q.pcq_tail q.pcq_buffer.size ≡ true = ground arith in rw (exists, inside)

  pub pop-ok :
      q.pcq_head < q.pcq_capacity
      → pop q
        ≡ returned (q.pcq_buffer.at q.pcq_head) (record q { pcq_head = next_index q q.pcq_head })
  unfolding pop
  pop-ok h =
      let inside : ltb q.pcq_head q.pcq_buffer.size ≡ true = ground arith in rw (exists, inside)
