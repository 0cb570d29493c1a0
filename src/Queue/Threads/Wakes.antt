-- ===== src/Queue/Threads/Wakes.antt =====
-- A thread that sleeps beside what it waits for is woken by the next sections of the other.
use so_ii.Prelude.{ℕ, ◌<◌, ◌≡◌, ◌≢◌, ◌⊎◌, inl, inr, refl, ap, arith, List, [], ◌∷◌}
use native.Mathlib.Decide.{ℕ_discrete}
use so_ii.Queue.{Queue}
use so_ii.Queue.Fifo.{IsFifo}
use so_ii.Queue.Places.{put-ok, pop-ok}
use so_ii.Queue.Threads.{
  Producer, Consumer, System, Move, produce, consume, Next, moved, blocked, after_put, after_pop,
  signal_popper, signal_pusher, produce_from, consume_from, step, run, begin,
}
use so_ii.Queue.Threads.Invariant.{Inv, run-Inv}

-- The moves lead to a state with the property.
abbrev pub Reaches : (System → Type 0) → Next → Type 0
Reaches P (moved u) = P u
Reaches P blocked = ⊥
Reaches P Next.fault = ⊥

-- One or two moves `m` do.
abbrev pub Wakes : Move → System → (System → Type 0) → Type 0
Wakes m s P = Reaches P (run (m ∷ []) s) ⊎ Reaches P (run (m ∷ m ∷ []) s)

woken_consumer :
    (p : Producer) (s : System)
    → s.producer ≡ p
    → s.consumer ≡ Consumer.sleeping
    → 0 < s.queue.pcq_current_size
    → Inv s
    → Wakes produce s (λ u. u.consumer ≡ Consumer.testing)
unfolding run step produce_from after_put
woken_consumer Producer.signalling s e c h v = inl (rw e (ap signal_popper c))
woken_consumer (Producer.storing x) s e c h v =
    inr (rw (e, put-ok s.queue v.nonempty v.buffer x v.tail) (ap signal_popper c))
woken_consumer Producer.idle s e c h v = let k = v.consumer_knows in ground (arith, e, c)
woken_consumer (Producer.testing x) s e c h v = let k = v.consumer_knows in ground (arith, e, c)
woken_consumer (Producer.sleeping x) s e c h v = let k = v.consumer_knows in ground (arith, e, c)
woken_consumer (Producer.counting x) s e c h v = let k = v.consumer_knows in ground (arith, e, c)

woken_producer :
    (c : Consumer) (s : System) (x : ℕ)
    → s.consumer ≡ c
    → s.producer ≡ Producer.sleeping x
    → s.queue.pcq_current_size < s.queue.pcq_capacity
    → Inv s
    → Wakes consume s (λ u. u.producer ≡ Producer.testing x)
unfolding run step consume_from after_pop
woken_producer Consumer.signalling s x e p h v = inl (rw e (ap signal_pusher p))
woken_producer Consumer.loading s x e p h v =
    inr (rw (e, pop-ok s.queue v.nonempty v.buffer v.head) (ap signal_pusher p))
woken_producer Consumer.idle s x e p h v = let k = v.producer_knows in ground (arith, e, p)
woken_producer Consumer.testing s x e p h v = let k = v.producer_knows in ground (arith, e, p)
woken_producer Consumer.sleeping s x e p h v = let k = v.producer_knows in ground (arith, e, p)
woken_producer Consumer.counting s x e p h v = let k = v.producer_knows in ground (arith, e, p)

abbrev pub Sleeps : Producer → Type 0
Sleeps p = (x : ℕ) × (p ≡ Producer.sleeping x)

abbrev pub ConsumerServed : System → Type 0
ConsumerServed s =
    (s.consumer ≢ Consumer.sleeping)
    ⊎ ((¬ Sleeps s.producer)
        × ((s.queue.pcq_current_size ≡ 0) ⊎ Wakes produce s (λ u. u.consumer ≡ Consumer.testing)))

abbrev pub ProducerServed : System → Type 0
ProducerServed s =
    (¬ Sleeps s.producer)
    ⊎ ((s.consumer ≢ Consumer.sleeping)
        × ((s.queue.pcq_current_size ≡ s.queue.pcq_capacity)
            ⊎ ((x : ℕ) × (s.producer ≡ Producer.sleeping x)
                × Wakes consume s (λ u. u.producer ≡ Producer.testing x))))

consumer_served : (c : Consumer) (s : System) → s.consumer ≡ c → Inv s → ConsumerServed s
consumer_served Consumer.sleeping s e v = inr (
  λ (x, p). let k = v.consumer_knows in let k' = v.producer_knows in ground (arith, e, p, v),
  elim (ℕ_discrete s.queue.pcq_current_size 0) [
    | yes empty ↦ inl empty
    | no some' ↦ inr (woken_consumer s.producer s refl e (omega arith) v)
  ],
)
consumer_served Consumer.idle s e v = inl λ e'. cc
consumer_served Consumer.testing s e v = inl λ e'. cc
consumer_served Consumer.counting s e v = inl λ e'. cc
consumer_served Consumer.loading s e v = inl λ e'. cc
consumer_served Consumer.signalling s e v = inl λ e'. cc

producer_served : (p : Producer) (s : System) → s.producer ≡ p → Inv s → ProducerServed s
producer_served (Producer.sleeping x) s e v = inr (
  λ c. let k = v.consumer_knows in let k' = v.producer_knows in ground (arith, e, c, v),
  elim (ℕ_discrete s.queue.pcq_current_size s.queue.pcq_capacity) [
    | yes full ↦ inl full
    | no room ↦ inr (x, e, woken_producer s.consumer s x refl e (omega (arith, v.size)) v)
  ],
)
producer_served Producer.idle s e v = inl λ (x, e'). cc
producer_served (Producer.testing y) s e v = inl λ (x, e'). cc
producer_served (Producer.counting y) s e v = inl λ (x, e'). cc
producer_served (Producer.storing y) s e v = inl λ (x, e'). cc
producer_served Producer.signalling s e v = inl λ (x, e'). cc

-- Two threads that start on an empty queue: wherever a schedule leads, the one that removes is
-- awake, or the other is, and the size is 0 or the next one or two sections of the other wake it.
-- Likewise the one that inserts is awake, or the other is, and the queue is full or the next one or
-- two sections of the other wake it.
pub never_both_sleep :
    (q : Queue) (ms : List Move) (t : System)
    → IsFifo q []
    → run ms (begin q) ≡ moved t
    → ConsumerServed t × ProducerServed t
never_both_sleep q ms t v e =
    let w = run-Inv q ms t v e in
    (consumer_served t.consumer t refl w, producer_served t.producer t refl w)
