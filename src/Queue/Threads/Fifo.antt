-- ===== src/Queue/Threads/Fifo.antt =====
-- While the schedule is calm, elements leave the queue in the order in which they entered.
use so_ii.Prelude.{
  ℕ, ◌+◌, ◌<◌, ◌≡◌, ◌≢◌, add_size, sub_size, inl, inr, refl, sym, ap, ◌∙◌, arith, length,
  length-append, true, false, List, [], ◌∷◌, ◌++◌, set, Bool-cases, ◌==◌,
}
use mathlib.Core.List.{append_assoc}
use mathlib.Core.Path.{subst}
use so_ii.Queue.{Queue, next_index}
use so_ii.Queue.Places.{put-ok, pop-ok}
use so_ii.Queue.Fifo.{IsFifo, first-element, put-IsFifo, pop-IsFifo}
use so_ii.Queue.Threads.{
  Producer, Consumer, System, Move, enqueue, dequeue, produce, consume, wake_producer,
  wake_consumer, Next, and_next, moved, blocked, is_storing, is_loading, produce_from, consume_from,
  call_enqueue, call_dequeue, after_pop, step, run, begin,
}
use so_ii.Queue.Threads.Invariant.{Inv, Safe, step-Safe, begin-Inv, in_store, in_load}

-- The queue as it is between a store and a load: the ring holds `rest`.
abbrev pub ring_of : Queue → List ℕ → Queue
ring_of q rest = record q { pcq_current_size = length rest }

-- What was stored is what was loaded and then what the ring holds.
abbrev pub InOrder : System → Type 0
InOrder s = (rest : List ℕ) × (s.stored ≡ s.loaded ++ rest) × IsFifo (ring_of s.queue rest) rest

abbrev Kept : Next → Type 0
Kept (moved t) = t.calm ≡ true → InOrder t
Kept blocked = Unit
Kept Next.fault = Unit

module _ {s : System} (v : Inv s) (rest : List ℕ) (order : s.stored ≡ s.loaded ++ rest) where
  counts : s.queue.pcq_current_size + in_load s.consumer ≡ length rest + in_store s.producer
  counts = omega (arith, v.counted, ap length order, length-append s.loaded rest)

  -- The element goes behind the others.
  put-InOrder :
      (x : ℕ)
      → s.producer ≡ Producer.storing x
      → is_loading s.consumer ≡ false
      → IsFifo (ring_of s.queue rest) rest
      → (s.stored ++ (x ∷ []) ≡ s.loaded ++ (rest ++ (x ∷ [])))
        × IsFifo
            (record s.queue {
              pcq_buffer = set s.queue.pcq_buffer s.queue.pcq_tail x;
              pcq_current_size = length (rest ++ (x ∷ []));
              pcq_tail = next_index s.queue s.queue.pcq_tail;
            })
            (rest ++ (x ∷ []))
  unfolding next_index
  put-InOrder x storing calm f =
      let room : length rest < s.queue.pcq_capacity =
        let c = counts in ground (arith, storing, calm) in
      let longer : length rest + 1 ≡ length (rest ++ (x ∷ [])) =
        omega (arith, length-append rest (x ∷ [])) in
      (
        ap (λ (l : List ℕ). l ++ (x ∷ [])) order ∙ append_assoc s.loaded rest (x ∷ []),
        subst
            (λ (k : ℕ).
              IsFifo
                (record s.queue {
                  pcq_buffer = set s.queue.pcq_buffer s.queue.pcq_tail x;
                  pcq_current_size = k;
                  pcq_tail = next_index s.queue s.queue.pcq_tail;
                })
                (rest ++ (x ∷ [])))
            longer (put-IsFifo f x room),
      )

-- The first element leaves.
pop-InOrder :
    {s : System} (v : Inv s)
    → InOrder s
    → s.consumer ≡ Consumer.loading
    → is_storing s.producer ≡ false
    → InOrder (record s {
      queue = record s.queue { pcq_head = next_index s.queue s.queue.pcq_head };
      consumer = Consumer.signalling;
      loaded = s.loaded ++ (s.queue.pcq_buffer.at s.queue.pcq_head ∷ []);
    })
unfolding next_index
pop-InOrder {s} v ([], order, f) loading calm =
    absurd (let c = counts v [] order in ground (arith, loading, calm))
pop-InOrder {s} v (x ∷ rest, order, f) loading calm =
    let here : s.queue.pcq_buffer.at s.queue.pcq_head ≡ x = first-element f in
    (
      rest,
      rw here (order ∙ sym (append_assoc s.loaded (x ∷ []) rest)),
      subst
          (λ (k : ℕ).
            IsFifo
              (record s.queue {
                pcq_current_size = k;
                pcq_head = next_index s.queue s.queue.pcq_head;
              })
              rest)
          (omega arith) (pop-IsFifo f),
    )

produce-Kept :
    (p : Producer) (s : System)
    → s.producer ≡ p
    → Inv s
    → (s.calm ≡ true → InOrder s)
    → Kept (produce_from p s)
unfolding produce_from
produce-Kept Producer.idle s e v o = tt
produce-Kept (Producer.testing x) s e v o = o
produce-Kept (Producer.sleeping x) s e v o = tt
produce-Kept (Producer.counting x) s e v o = o
produce-Kept (Producer.storing x) s e v o = rw (put-ok s.queue v.nonempty v.buffer x v.tail) λ h.
    let (rest, order, f) = o (ground (arith, h)) in
    let (order', f') = put-InOrder v rest order x e (ground (arith, h)) f in
    (rest ++ (x ∷ []), order', f')
produce-Kept Producer.signalling s e v o = o

consume-Kept :
    (c : Consumer) (s : System)
    → s.consumer ≡ c
    → Inv s
    → (s.calm ≡ true → InOrder s)
    → Kept (consume_from c s)
unfolding consume_from
consume-Kept Consumer.idle s e v o = tt
consume-Kept Consumer.testing s e v o = o
consume-Kept Consumer.sleeping s e v o = tt
consume-Kept Consumer.counting s e v o = o
consume-Kept Consumer.loading s e v o =
    rw (pop-ok s.queue v.nonempty v.buffer v.head)
      λ h. pop-InOrder v (o (ground (arith, h))) e (ground (arith, h))
consume-Kept Consumer.signalling s e v o = o

call-Kept :
    (p : Producer) (x : ℕ) (s : System) → (s.calm ≡ true → InOrder s) → Kept (call_enqueue p x s)
unfolding call_enqueue
call-Kept Producer.idle x s o = elim (Bool-cases (x == 0)) [
  | inl null' ↦ rw null' o
  | inr element ↦ rw element o
]
call-Kept (Producer.testing y) x s o = tt
call-Kept (Producer.sleeping y) x s o = tt
call-Kept (Producer.counting y) x s o = tt
call-Kept (Producer.storing y) x s o = tt
call-Kept Producer.signalling x s o = tt

call_dequeue-Kept :
    (c : Consumer) (s : System) → (s.calm ≡ true → InOrder s) → Kept (call_dequeue c s)
unfolding call_dequeue
call_dequeue-Kept Consumer.idle s o = o
call_dequeue-Kept Consumer.testing s o = tt
call_dequeue-Kept Consumer.sleeping s o = tt
call_dequeue-Kept Consumer.counting s o = tt
call_dequeue-Kept Consumer.loading s o = tt
call_dequeue-Kept Consumer.signalling s o = tt

step-Kept : (m : Move) (s : System) → Inv s → (s.calm ≡ true → InOrder s) → Kept (step m s)
unfolding step
step-Kept (enqueue x) s v o = call-Kept s.producer x s o
step-Kept dequeue s v o = call_dequeue-Kept s.consumer s o
step-Kept produce s v o = produce-Kept s.producer s refl v o
step-Kept consume s v o = consume-Kept s.consumer s refl v o
step-Kept wake_producer s v o = o
step-Kept wake_consumer s v o = o

and_next-Kept :
    (n : Next) (k : System → Next)
    → Safe n
    → Kept n
    → ((t : System) → Inv t → (t.calm ≡ true → InOrder t) → Kept (k t))
    → Kept (and_next n k)
and_next-Kept (moved t) k v o w = w t v o
and_next-Kept blocked k v o w = tt
and_next-Kept Next.fault k v o w = tt

run-Kept : (ms : List Move) (s : System) → Inv s → (s.calm ≡ true → InOrder s) → Kept (run ms s)
unfolding run
run-Kept [] s v o = o
run-Kept (m ∷ ms) s v o =
    and_next-Kept (step m s) (run ms) (step-Safe m s v) (step-Kept m s v o) (run-Kept ms)

-- Two threads that start on an empty queue: wherever a calm schedule leads, the elements loaded so
-- far are the first ones stored, in their order, and the ring holds the others.
pub run-InOrder :
    (q : Queue) (ms : List Move) (t : System)
    → IsFifo q []
    → run ms (begin q) ≡ moved t
    → t.calm ≡ true
    → (rest : List ℕ) × (t.stored ≡ t.loaded ++ rest) × IsFifo (ring_of t.queue rest) rest
run-InOrder q ms t v e calm =
    (rw e at (
        run-Kept ms (begin q) (begin-Inv v) (λ _. (
          [],
          refl,
          record {
            nonempty = v.nonempty;
            small = v.small;
            buffer = v.buffer;
            count = refl;
            bounded = v.bounded;
            head = v.head;
            tail = v.tail;
            elements = v.elements;
          },
        ))))
      calm

-- The moves with which an element is loaded that has not been stored.
abbrev pub racing : ℕ → List Move
racing x = enqueue x ∷ produce ∷ produce ∷ dequeue ∷ consume ∷ consume ∷ consume ∷ []

-- On an empty queue, for every element: a schedule leads to a state in which nothing has been
-- stored, and the removing thread has loaded what the buffer held at the head, since the size is
-- counted before the element is stored.
pub loads_before_store :
    (q : Queue) (x : ℕ)
    → IsFifo q []
    → x ≢ 0
    → (t : System) × (run (racing x) (begin q) ≡ moved t)
      × (t.stored ≡ [])
      × (t.loaded ≡ q.pcq_buffer.at q.pcq_head ∷ [])
unfolding run step produce_from consume_from call_enqueue call_dequeue after_pop
loads_before_store q x v element =
    let pointer : (x == 0) ≡ false = ground (arith, element) in
    let room : (q.pcq_current_size == q.pcq_capacity) ≡ false =
      ground (arith, v.count, v.nonempty) in
    let counted : (add_size q.pcq_current_size 1 == 0) ≡ false = ground (arith, v.count) in
    let q' = record q { pcq_current_size = sub_size (add_size q.pcq_current_size 1) 1 } in
    (
      record {
        queue = record q' { pcq_head = next_index q' q'.pcq_head };
        producer = Producer.storing x;
        consumer = Consumer.signalling;
        stored = [];
        loaded = q.pcq_buffer.at q.pcq_head ∷ [];
        calm = false;
      },
      rw (pointer, room, counted, pop-ok q' v.nonempty v.buffer v.head),
      refl,
      refl,
    )
