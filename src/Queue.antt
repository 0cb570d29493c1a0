-- ===== src/Queue.antt =====
-- The queue of producer-consumer/producer-consumer.c, as one thread sees it that no other thread
-- interrupts; Threads has the interleavings. A thread that finds the queue full or empty falls
-- asleep. Elements are pointers, and 0 is NULL.
pub mod Places
pub mod Fifo
pub mod Threads
mod Tests
use so_ii.Prelude.{
  ℕ, ◌+◌, ◌*◌, ◌/◌, ◌%◌, ◌^◌, Array, null, set, Option, none, some, ℤ, pos, minus_one, add_size,
  sub_size, ltb, ◌==◌, Bool, true, false, if◌then◌else◌,
}

pub record Queue : Type 0 where
  pub pcq_buffer : Array ℕ
  pub pcq_capacity : ℕ
  pub pcq_current_size : ℕ
  pub pcq_head : ℕ
  pub pcq_tail : ℕ

-- A call returns, or sleeps on a condition variable, or accesses memory out of bounds.
pub data Outcome (A : Type 0) : Type 0 where
  returned : A → Queue → Outcome A
  asleep : Queue → Outcome A
  fault : Outcome A

-- `memory` is what `malloc` returns.
unfoldable pub pcq_create : Option (ℕ → ℕ) → ℕ → Queue → ℤ × Queue
pcq_create memory capacity q = if capacity == 0 then (minus_one, q) else elim memory [
  | none ↦ (minus_one, record q { pcq_capacity = capacity; pcq_buffer = null 0 })
  | some f ↦ (
    pos 0,
    record q {
      pcq_capacity = capacity;
      pcq_buffer = record { allocated = true; size = capacity * 8 % 2 ^ 64 / 8; at = f };
      pcq_current_size = 0;
      pcq_head = 0;
      pcq_tail = 0;
    },
  )
]

pub pcq_destroy : Queue → ℤ × Queue
pcq_destroy q = (pos 0, record q { pcq_buffer = null 0 })

-- The index that follows `i`.
pub next_index : Queue → ℕ → ℕ
next_index q i = add_size i 1 % q.pcq_capacity

-- What `pcq_enqueue` does under `pcq_tail_lock`.
pub put : ℕ → Queue → Outcome ℤ
unfolding next_index
put elem q =
    if q.pcq_capacity == 0
    then fault
    else if ltb q.pcq_tail q.pcq_buffer.size
    then returned (pos 0) (record q {
      pcq_buffer = set q.pcq_buffer q.pcq_tail elem;
      pcq_tail = next_index q q.pcq_tail;
    })
    else fault

-- What `pcq_dequeue` does under `pcq_head_lock`.
pub pop : Queue → Outcome ℕ
unfolding next_index
pop q =
    if q.pcq_capacity == 0
    then fault
    else if ltb q.pcq_head q.pcq_buffer.size
    then returned (q.pcq_buffer.at q.pcq_head) (record q { pcq_head = next_index q q.pcq_head })
    else fault

pub pcq_enqueue : ℕ → Queue → Outcome ℤ
unfolding put
pcq_enqueue elem q =
    if elem == 0
    then returned minus_one q
    else if q.pcq_current_size == q.pcq_capacity
    then asleep q
    else put elem (record q { pcq_current_size = add_size q.pcq_current_size 1 })

unfoldable pub pcq_dequeue : Queue → Outcome ℕ
unfolding pop
pcq_dequeue q =
    if q.pcq_current_size == 0
    then asleep q
    else pop (record q { pcq_current_size = sub_size q.pcq_current_size 1 })
