-- ===== src/Broker/Sessions/Commands/Nothing.antt =====
-- A thread that finds a code without a case.
use so_ii.Prelude.{ℕ, ◌≡◌, ◌∙◌, refl, ap, List, ◌∷◌, ℤ, pos, inl, inr}
use so_ii.Fs.Operations.{Pthread}
use so_ii.Queue.{Queue, returned, pcq_dequeue}
use so_ii.Queue.Fifo.{IsFifo, pcq_dequeue_lem}
use so_ii.Broker.{Broker, done, and_then}
use so_ii.Broker.Sessions.{Client, Image, check_sessions}
use so_ii.Broker.Sessions.Commands

-- The removal of the first element, as the thread makes it.
dequeued :
    {q : Queue} {x : ℕ} {xs : List ℕ}
    → IsFifo q (x ∷ xs)
    → (q' : Queue) × (pcq_dequeue q ≡ returned x q') × IsFifo q' xs
dequeued {xs = xs} v = elim (pcq_dequeue_lem v) [
  | inl (e, _) ↦ cc
  | inr (y, rest, q', e, run, fifo) ↦
      let same : xs ≡ rest = cc (e) in (q', cc (e, run), rw same fifo)
]

nothing_else :
    (pthread : Pthread) (stack : ℕ → ℕ) (image : ℕ → Image) (c : Client) (b : Broker)
    → Commands.dispatch pthread stack image c (pos 0) b ≡ done tt b
unfolding Commands.dispatch
nothing_else pthread stack image c b = refl

module _ (pthread : Pthread) (stack : ℕ → ℕ) (image : ℕ → Image) (c : Client) where
  dispatch-nothing :
      (op : ℤ) (b : Broker) → op ≡ pos 0 → Commands.dispatch pthread stack image c op b ≡ done tt b
  dispatch-nothing op b zero' =
      ap (λ op. Commands.dispatch pthread stack image c op b) zero'
      ∙ nothing_else pthread stack image c b

  session-nothing :
      (b : Broker)
      → b.op_code ≡ pos 0
      → b.num_active_sessions ≡ 0
      → Commands.session pthread stack image c b ≡ done tt b
  unfolding Commands.session
  session-nothing b zero' none' =
      ap
        (λ n.
          and_then (check_sessions n 0 b)
            (λ _ b'. Commands.dispatch pthread stack image c b'.op_code b'))
        none'
      ∙ dispatch-nothing b.op_code b zero'

  -- With the code 0 and no session, the thread takes its element from the queue and ends.
  pub thread-nothing :
      (b : Broker) (x : ℕ) (xs : List ℕ)
      → b.op_code ≡ pos 0
      → b.num_active_sessions ≡ 0
      → IsFifo b.queue (x ∷ xs)
      → (q' : Queue) × IsFifo q' xs
        × (Commands.thread_fun pthread stack image c b ≡ done tt (record b { queue = q' }))
  unfolding Commands.thread_fun Commands.of_dequeue
  thread-nothing b x xs zero' none' v =
      let (q', run, fifo) = dequeued v in
      (
        q',
        fifo,
        ap (λ o. Commands.of_dequeue pthread (Commands.session pthread stack image c) o b) run
            ∙ session-nothing (record b { queue = q' }) zero' none',
      )
