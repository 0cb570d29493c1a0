-- ===== src/Queue/Threads/Tests.antt =====
-- Schedules of the two threads on a queue of one place.
use so_ii.Prelude.{ℕ, ◌+◌, ◌≤◌, ◌<◌, ◌≡◌, ◌≢◌, refl, List, [], ◌∷◌, ◌++◌, arith, length, true}
use so_ii.Queue.{Queue, put, pop, next_index}
use so_ii.Queue.Fifo.{IsFifo}
use so_ii.Queue.Threads.{
  Producer, System, Move, enqueue, dequeue, produce, consume, Next, moved, produce_from,
  consume_from, call_enqueue, call_dequeue, after_put, after_pop, step, run, begin,
}
use so_ii.Queue.Threads.Invariant.{in_store, in_load, run-ne-fault, run_bounds}
use so_ii.Queue.Threads.Wakes.{ConsumerServed, ProducerServed, never_both_sleep}
use so_ii.Queue.Threads.Fifo.{ring_of, run-InOrder, racing, loads_before_store}

abbrev one : Queue
one = record {
  pcq_buffer = record { allocated = true; size = 1; at = λ i. 77 };
  pcq_capacity = 1;
  pcq_current_size = 0;
  pcq_head = 0;
  pcq_tail = 0;
}

one-IsFifo : IsFifo one []
one-IsFifo = record {
  nonempty = omega arith;
  small = omega arith;
  buffer = refl;
  count = refl;
  bounded = omega arith;
  head = omega arith;
  tail = refl;
  elements = λ i h. absurd (omega arith);
}

-- Where a schedule leads.
abbrev landing : Next → System
landing (moved t) = t
landing n = begin one

end_of : List Move → System
end_of ms = landing (run ms (begin one))

abbrev fills : List Move
fills = enqueue 5 ∷ produce ∷ produce ∷ produce ∷ produce ∷ enqueue 6 ∷ produce ∷ []

abbrev passes : List Move
passes =
    enqueue 5 ∷ produce ∷ produce ∷ produce ∷ produce ∷ dequeue ∷ consume ∷ consume ∷ consume ∷ []

abbrev waits : List Move
waits = dequeue ∷ consume ∷ enqueue 5 ∷ produce ∷ produce ∷ []

run-fills : run fills (begin one) ≡ moved (end_of fills)
unfolding end_of run step produce_from call_enqueue put next_index after_put
run-fills = refl

run-passes : run passes (begin one) ≡ moved (end_of passes)
unfolding end_of run step produce_from consume_from call_enqueue call_dequeue put pop next_index
    after_put after_pop
run-passes = refl

run-waits : run waits (begin one) ≡ moved (end_of waits)
unfolding end_of run step produce_from consume_from call_enqueue call_dequeue
run-waits = refl

fills_sleeps : (end_of fills).producer ≡ Producer.sleeping 6
unfolding end_of run step produce_from call_enqueue put next_index after_put
fills_sleeps = refl

passes_calm : (end_of passes).calm ≡ true
unfolding end_of run step produce_from consume_from call_enqueue call_dequeue put pop next_index
    after_put after_pop
passes_calm = refl

run-ne-fault_example : run passes (begin one) ≢ Next.fault
run-ne-fault_example = run-ne-fault one passes one-IsFifo

run_bounds_example :
    ((end_of passes).queue.pcq_head < (end_of passes).queue.pcq_buffer.size)
    × ((end_of passes).queue.pcq_tail < (end_of passes).queue.pcq_buffer.size)
    × ((end_of passes).queue.pcq_current_size ≤ (end_of passes).queue.pcq_capacity)
    × ((end_of passes).queue.pcq_current_size
          + length ((end_of passes).loaded)
          + in_load ((end_of passes).consumer)
        ≡ length ((end_of passes).stored) + in_store ((end_of passes).producer))
run_bounds_example = run_bounds one passes (end_of passes) one-IsFifo run-passes

never_both_sleep_example : ConsumerServed (end_of waits) × ProducerServed (end_of waits)
never_both_sleep_example = never_both_sleep one waits (end_of waits) one-IsFifo run-waits

run-InOrder_example :
    (rest : List ℕ) × ((end_of passes).stored ≡ (end_of passes).loaded ++ rest)
    × IsFifo (ring_of ((end_of passes).queue) rest) rest
run-InOrder_example = run-InOrder one passes (end_of passes) one-IsFifo run-passes passes_calm

loads_before_store_example :
    (t : System) × (run (racing 5) (begin one) ≡ moved t) × (t.stored ≡ []) × (t.loaded ≡ 77 ∷ [])
loads_before_store_example = loads_before_store one 5 one-IsFifo (ground arith)
