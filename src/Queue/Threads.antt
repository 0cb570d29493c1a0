-- ===== src/Queue/Threads.antt =====
-- The queue between a thread that inserts and a thread that removes, as the broker uses it. The
-- code between a lock and its unlock is one move of a thread; the two threads' moves interleave in
-- any order, and a sleeping thread may wake by itself.
pub mod Invariant
pub mod Wakes
pub mod Fifo
mod Tests
use so_ii.Prelude.{
  ℕ, ◌==◌, Bool, true, false, not, ◌&&◌, Option, none, some, List, [], ◌∷◌, ◌++◌, ℤ, add_size,
  sub_size, if◌then◌else◌,
}
use so_ii.Queue
use so_ii.Queue.{Queue, Outcome, returned, asleep, put, pop}

-- Where the inserting thread is in `pcq_enqueue`, and the element that it holds.
pub data Producer : Type 0 where
  idle : Producer
  testing : ℕ → Producer
  sleeping : ℕ → Producer
  counting : ℕ → Producer
  storing : ℕ → Producer
  signalling : Producer

-- Where the removing thread is in `pcq_dequeue`.
pub data Consumer : Type 0 where
  idle : Consumer
  testing : Consumer
  sleeping : Consumer
  counting : Consumer
  loading : Consumer
  signalling : Consumer

-- `stored` and `loaded` are the elements so far, in order. `calm` holds while no element has been
-- loaded with one about to be stored, and none stored with one about to be loaded.
pub record System : Type 0 where
  pub queue : Queue
  pub producer : Producer
  pub consumer : Consumer
  pub stored : List ℕ
  pub loaded : List ℕ
  pub calm : Bool

-- The next move: a call, the next section of a thread, or a wake-up without a signal.
pub data Move : Type 0 where
  enqueue : ℕ → Move
  dequeue : Move
  produce : Move
  consume : Move
  wake_producer : Move
  wake_consumer : Move

-- A move that its thread cannot make is `blocked`; `fault` is an access out of bounds.
pub data Next : Type 0 where
  moved : System → Next
  blocked : Next
  fault : Next

abbrev pub is_storing : Producer → Bool
is_storing (Producer.storing e) = true
is_storing p = false

abbrev pub is_loading : Consumer → Bool
is_loading Consumer.loading = true
is_loading c = false

-- `pthread_cond_signal` on the two condition variables.
abbrev pub signal_popper : Consumer → Consumer
signal_popper Consumer.sleeping = Consumer.testing
signal_popper c = c

abbrev pub signal_pusher : Producer → Producer
signal_pusher (Producer.sleeping e) = Producer.testing e
signal_pusher p = p

after_put : System → Outcome ℤ → ℕ → Next
after_put s (returned z q) e = moved (record s {
  queue = q;
  producer = Producer.signalling;
  stored = s.stored ++ (e ∷ []);
  calm = s.calm && not (is_loading s.consumer);
})
after_put s (asleep q) e = blocked
after_put s Outcome.fault e = fault

-- A section of `pcq_enqueue`.
produce_from : Producer → System → Next
unfolding after_put
produce_from Producer.idle s = blocked
produce_from (Producer.testing e) s = moved (record s {
  producer =
      if s.queue.pcq_current_size == s.queue.pcq_capacity
      then Producer.sleeping e
      else Producer.counting e;
})
produce_from (Producer.sleeping e) s = blocked
produce_from (Producer.counting e) s = moved (record s {
  queue = record s.queue { pcq_current_size = add_size s.queue.pcq_current_size 1 };
  producer = Producer.storing e;
})
produce_from (Producer.storing e) s = after_put s (put e s.queue) e
produce_from Producer.signalling s =
    moved (record s { producer = Producer.idle; consumer = signal_popper s.consumer })

after_pop : System → Outcome ℕ → Next
after_pop s (returned x q) = moved (record s {
  queue = q;
  consumer = Consumer.signalling;
  loaded = s.loaded ++ (x ∷ []);
  calm = s.calm && not (is_storing s.producer);
})
after_pop s (asleep q) = blocked
after_pop s Outcome.fault = fault

-- A section of `pcq_dequeue`.
consume_from : Consumer → System → Next
unfolding after_pop
consume_from Consumer.idle s = blocked
consume_from Consumer.testing s = moved (record s {
  consumer = if s.queue.pcq_current_size == 0 then Consumer.sleeping else Consumer.counting;
})
consume_from Consumer.sleeping s = blocked
consume_from Consumer.counting s = moved (record s {
  queue = record s.queue { pcq_current_size = sub_size s.queue.pcq_current_size 1 };
  consumer = Consumer.loading;
})
consume_from Consumer.loading s = after_pop s (pop s.queue)
consume_from Consumer.signalling s =
    moved (record s { consumer = Consumer.idle; producer = signal_pusher s.producer })

-- A call of `pcq_enqueue`, which refuses NULL, and of `pcq_dequeue`.
call_enqueue : Producer → ℕ → System → Next
call_enqueue Producer.idle e s =
    if e == 0 then moved s else moved (record s { producer = Producer.testing e })
call_enqueue p e s = blocked

call_dequeue : Consumer → System → Next
call_dequeue Consumer.idle s = moved (record s { consumer = Consumer.testing })
call_dequeue c s = blocked

pub step : Move → System → Next
unfolding produce_from consume_from call_enqueue call_dequeue
step (enqueue e) s = call_enqueue s.producer e s
step dequeue s = call_dequeue s.consumer s
step produce s = produce_from s.producer s
step consume s = consume_from s.consumer s
step wake_producer s = moved (record s { producer = signal_pusher s.producer })
step wake_consumer s = moved (record s { consumer = signal_popper s.consumer })

abbrev pub and_next : Next → (System → Next) → Next
and_next (moved s) k = k s
and_next blocked k = blocked
and_next fault k = fault

-- A schedule: the moves one after the other, where each can be made.
pub run : List Move → System → Next
run [] s = moved s
run (m ∷ ms) s = and_next (step m s) (run ms)

-- Two idle threads on a queue.
abbrev pub begin : Queue → System
begin q = record {
  queue = q;
  producer = Producer.idle;
  consumer = Consumer.idle;
  stored = [];
  loaded = [];
  calm = true;
}
