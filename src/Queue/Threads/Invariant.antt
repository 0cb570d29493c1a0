-- ===== src/Queue/Threads/Invariant.antt =====
-- What holds of the two threads and the queue between any two moves.
use so_ii.Prelude.{
  ℕ, ◌+◌, ◌^◌, ◌≤◌, ◌<◌, ◌≡◌, ◌≢◌, refl, arith, length, length-append, List, [], ◌∷◌,
}
use so_ii.Queue.{Queue}
use so_ii.Queue.Fifo.{IsFifo}
use so_ii.Queue.Places.{next_index-lt, put-ok, pop-ok}
use so_ii.Queue.Threads.{
  Producer, Consumer, System, Move, enqueue, dequeue, produce, consume, wake_producer,
  wake_consumer, Next, and_next, moved, blocked, signal_popper, signal_pusher, produce_from,
  consume_from, call_enqueue, call_dequeue, step, run, begin,
}

abbrev pub in_store : Producer → ℕ
in_store (Producer.storing e) = 1
in_store p = 0

abbrev pub in_load : Consumer → ℕ
in_load Consumer.loading = 1
in_load c = 0

-- What a thread knows about the size that it has tested, and what a sleeping thread waits for.
abbrev pub ProducerKnows : Queue → Consumer → Producer → Type 0
ProducerKnows q c (Producer.counting e) = q.pcq_current_size < q.pcq_capacity
ProducerKnows q Consumer.loading (Producer.sleeping e) = Unit
ProducerKnows q Consumer.signalling (Producer.sleeping e) = Unit
ProducerKnows q c (Producer.sleeping e) = q.pcq_current_size ≡ q.pcq_capacity
ProducerKnows q c p = Unit

abbrev pub ConsumerKnows : Queue → Producer → Consumer → Type 0
ConsumerKnows q p Consumer.counting = 0 < q.pcq_current_size
ConsumerKnows q (Producer.storing e) Consumer.sleeping = Unit
ConsumerKnows q Producer.signalling Consumer.sleeping = Unit
ConsumerKnows q p Consumer.sleeping = q.pcq_current_size ≡ 0
ConsumerKnows q p c = Unit

pub record Inv (s : System) : Type 0 where
  pub nonempty : 0 < s.queue.pcq_capacity
  pub small : s.queue.pcq_capacity < 2 ^ 60
  pub buffer : s.queue.pcq_buffer.size ≡ s.queue.pcq_capacity
  pub head : s.queue.pcq_head < s.queue.pcq_capacity
  pub tail : s.queue.pcq_tail < s.queue.pcq_capacity
  pub size : s.queue.pcq_current_size ≤ s.queue.pcq_capacity
  pub counted :
      s.queue.pcq_current_size + length s.loaded + in_load s.consumer
      ≡ length s.stored + in_store s.producer
  pub producer_knows : ProducerKnows s.queue s.consumer s.producer
  pub consumer_knows : ConsumerKnows s.queue s.producer s.consumer

-- What a move leads to: a state with the invariant, or nowhere; never to a fault.
abbrev pub Safe : Next → Type 0
Safe (moved t) = Inv t
Safe blocked = Unit
Safe Next.fault = ⊥

-- A section of the inserting thread keeps the invariant and faults nowhere.
produce-Safe : (p : Producer) (s : System) → s.producer ≡ p → Inv s → Safe (produce_from p s)
unfolding produce_from
produce-Safe Producer.idle s e v = tt
produce-Safe (Producer.testing x) s e v = ground arith
produce-Safe (Producer.sleeping x) s e v = tt
produce-Safe (Producer.counting x) s e v = ground arith
produce-Safe (Producer.storing x) s e v = rw (put-ok s.queue v.nonempty v.buffer x v.tail) (
    let next = next_index-lt s.queue s.queue.pcq_tail v.nonempty in
    let longer = length-append s.stored (x ∷ []) in ground arith)
produce-Safe Producer.signalling s e v = ground arith

consume-Safe : (c : Consumer) (s : System) → s.consumer ≡ c → Inv s → Safe (consume_from c s)
unfolding consume_from
consume-Safe Consumer.idle s e v = tt
consume-Safe Consumer.testing s e v = ground arith
consume-Safe Consumer.sleeping s e v = tt
consume-Safe Consumer.counting s e v = ground arith
consume-Safe Consumer.loading s e v = rw (pop-ok s.queue v.nonempty v.buffer v.head) (
    let next = next_index-lt s.queue s.queue.pcq_head v.nonempty in
    let longer = length-append s.loaded (s.queue.pcq_buffer.at s.queue.pcq_head ∷ []) in
    ground arith)
consume-Safe Consumer.signalling s e v = ground arith

call-Safe : (p : Producer) (x : ℕ) (s : System) → s.producer ≡ p → Inv s → Safe (call_enqueue p x s)
unfolding call_enqueue
call-Safe Producer.idle x s e v = ground arith
call-Safe (Producer.testing y) x s e v = tt
call-Safe (Producer.sleeping y) x s e v = tt
call-Safe (Producer.counting y) x s e v = tt
call-Safe (Producer.storing y) x s e v = tt
call-Safe Producer.signalling x s e v = tt

call_dequeue-Safe : (c : Consumer) (s : System) → s.consumer ≡ c → Inv s → Safe (call_dequeue c s)
unfolding call_dequeue
call_dequeue-Safe Consumer.idle s e v = ground arith
call_dequeue-Safe Consumer.testing s e v = tt
call_dequeue-Safe Consumer.sleeping s e v = tt
call_dequeue-Safe Consumer.counting s e v = tt
call_dequeue-Safe Consumer.loading s e v = tt
call_dequeue-Safe Consumer.signalling s e v = tt

wake_producer-Inv :
    (p : Producer) (s : System)
    → s.producer ≡ p
    → Inv s
    → Inv (record s { producer = signal_pusher p })
wake_producer-Inv p s e v = ground arith

wake_consumer-Inv :
    (c : Consumer) (s : System)
    → s.consumer ≡ c
    → Inv s
    → Inv (record s { consumer = signal_popper c })
wake_consumer-Inv c s e v = ground arith

-- Every move from a state with the invariant leads to one, or cannot be made; none faults.
pub step-Safe : (m : Move) (s : System) → Inv s → Safe (step m s)
unfolding step
step-Safe (enqueue x) s v = call-Safe s.producer x s refl v
step-Safe dequeue s v = call_dequeue-Safe s.consumer s refl v
step-Safe produce s v = produce-Safe s.producer s refl v
step-Safe consume s v = consume-Safe s.consumer s refl v
step-Safe wake_producer s v = wake_producer-Inv s.producer s refl v
step-Safe wake_consumer s v = wake_consumer-Inv s.consumer s refl v

and_next-Safe :
    (n : Next) (k : System → Next)
    → Safe n
    → ((t : System) → Inv t → Safe (k t))
    → Safe (and_next n k)
and_next-Safe (moved t) k v w = w t v
and_next-Safe blocked k v w = tt
and_next-Safe Next.fault k v w = v

pub run-Safe : (ms : List Move) (s : System) → Inv s → Safe (run ms s)
unfolding run
run-Safe [] s v = v
run-Safe (m ∷ ms) s v = and_next-Safe (step m s) (run ms) (step-Safe m s v) (run-Safe ms)

pub begin-Inv : {q : Queue} → IsFifo q [] → Inv (begin q)
begin-Inv v = ground arith

-- Two threads that start on an empty queue with memory for its capacity: no schedule makes an
-- access out of bounds.
pub run-ne-fault : (q : Queue) (ms : List Move) → IsFifo q [] → run ms (begin q) ≢ Next.fault
run-ne-fault q ms v e = rw e at (run-Safe ms (begin q) (begin-Inv v))

module _ (q : Queue) (ms : List Move) (t : System) (v : IsFifo q [])
    (e : run ms (begin q) ≡ moved t) where
  pub run-Inv : Inv t
  run-Inv = rw e at (run-Safe ms (begin q) (begin-Inv v))

  -- Two threads that start on an empty queue: wherever a schedule leads, the indices are inside the
  -- ring, and the size is at most the capacity, so that it has not wrapped; it is the number of
  -- elements stored and about to be stored, less those loaded and about to be loaded.
  pub run_bounds :
      (t.queue.pcq_head < t.queue.pcq_buffer.size)
      × (t.queue.pcq_tail < t.queue.pcq_buffer.size)
      × (t.queue.pcq_current_size ≤ t.queue.pcq_capacity)
      × (t.queue.pcq_current_size + length t.loaded + in_load t.consumer
          ≡ length t.stored + in_store t.producer)
  run_bounds = let w = run-Inv in omega arith
