-- ===== src/Queue/Tests.antt =====
-- Runs of the queue on a ring of three places, two of them in use, the second one past the end.
use so_ii.Prelude.{
  ℕ, zero, suc, ◌<◌, ◌≡◌, ◌≢◌, ◌⊎◌, refl, List, [], ◌∷◌, arith, pos, minus_one, get_or, length,
  true, if◌then◌else◌, ◌==◌,
}
use so_ii.Queue.{Queue, returned, asleep, pcq_enqueue, pcq_dequeue}
use so_ii.Queue.Fifo.{IsFifo, place, pcq_enqueue_lem, pcq_dequeue_lem}

abbrev two : Queue
two = record {
  pcq_buffer = record { allocated = true; size = 3; at = λ i. if i == 2 then 5 else 7 };
  pcq_capacity = 3;
  pcq_current_size = 2;
  pcq_head = 2;
  pcq_tail = 1;
}

abbrev five_seven : List ℕ
five_seven = 5 ∷ 7 ∷ []

two-element : (i : ℕ) → i < 2 → two.pcq_buffer.at (place 2 i 3) ≡ get_or five_seven i 0
two-element zero h = refl
two-element (suc zero) h = refl
two-element (suc (suc i)) h = absurd (omega arith)

two-IsFifo : IsFifo two five_seven
two-IsFifo = record {
  nonempty = omega arith;
  small = omega arith;
  buffer = refl;
  count = refl;
  bounded = omega arith;
  head = omega arith;
  tail = refl;
  elements = two-element;
}

abbrev nine : ℕ
nine = 9

pcq_enqueue_lem_example :
    ((nine ≡ 0) × (pcq_enqueue nine two ≡ returned minus_one two))
    ⊎ ((nine ≢ 0) × (length five_seven ≡ 3) × (pcq_enqueue nine two ≡ asleep two))
    ⊎ ((nine ≢ 0)
        × (q' : Queue) × (pcq_enqueue nine two ≡ returned (pos 0) q')
        × IsFifo q' (5 ∷ 7 ∷ nine ∷ [])
        × (length five_seven < 3))
pcq_enqueue_lem_example = pcq_enqueue_lem nine two-IsFifo

pcq_dequeue_lem_example :
    ((five_seven ≡ []) × (pcq_dequeue two ≡ asleep two))
    ⊎ ((x : ℕ) × (rest : List ℕ) × (q' : Queue) × (five_seven ≡ x ∷ rest)
        × (pcq_dequeue two ≡ returned x q')
        × IsFifo q' rest)
pcq_dequeue_lem_example = pcq_dequeue_lem two-IsFifo
