-- ===== src/Broker/Sessions/Commands/Subscriber.antt =====
-- A subscriber's handle stands at the end of its box, so that nothing of the box is read.
use so_ii.Prelude.{
  ℕ, ◌≡◌, ◌∙◌, refl, ap, arith, Bool, true, false, List, [], ◌∷◌, pos, copy_in, copy_in_outside,
  inl, inr,
}
use so_ii.Fs.State.{State}
use so_ii.Fs.Invariant.{IsValid}
use so_ii.Fs.Operations.{Pthread, is_nonneg, tfs_close, Reply}
use so_ii.Fs.Operations.Lock.{NeverFails}
use so_ii.Fs.Operations.Calls.{tfs_close_lem}
use so_ii.Libc.{zeros}
use so_ii.Broker.{◌>>=◌, ◌>>◌, call, assign, Broker, Thread, c_string, box_name_size, max_msg_size}
use so_ii.Broker.Keeps
use so_ii.Broker.Keeps.{Keeps, keeps, exited, waiting, faulty}
use so_ii.Broker.Sessions.{Client, format_msg, fewer_sessions}
use so_ii.Broker.Sessions.Safe.{
  Safe, require-Safe, choose-Safe, open_pipe-Safe, subscribe-Safe, new_box-Safe,
}
use so_ii.Broker.Sessions.Commands
use so_ii.Broker.Sessions.Commands.AtEnd.{AtEnd, append_lem, read_end_lem}

-- `msg` is as it was.
abbrev pub Same : (r : ℕ) → (ℕ → ℕ) → State → (ℕ → ℕ) → Type 0
Same r old s msg = IsValid r s × ((x : ℕ) → msg x ≡ old x)

abbrev SameAtEnd : (r h : ℕ) → (ℕ → ℕ) → State → (ℕ → ℕ) → Type 0
SameAtEnd r h old s msg = AtEnd r h s × ((x : ℕ) → msg x ≡ old x)

module _ (pthread : Pthread) (never : NeverFails pthread) (r : ℕ) (old : ℕ → ℕ) where
  read_msg-Safe : (h : ℕ) → Safe (SameAtEnd r h old) (Commands.read_msg pthread (pos h))
  unfolding Commands.read_msg
  read_msg-Safe h b p =
      Keeps.bind (Keeps.call-Keeps _ b (read_end_lem pthread never r b.fs h max_msg_size p.0))
        λ reply b1 q. require-Safe (SameAtEnd r h old) (is_nonneg reply.0) _ (
          q.0.1,
          λ x.
              ap (λ (reply : Reply). copy_in b1.msg 0 reply.1 x) q.0.0
              ∙ copy_in_outside b1.msg 0 [] x (inr (omega arith))
              ∙ ap (λ (f : ℕ → ℕ). f x) q.1
              ∙ p.1 x,
        )

  deliver-Safe :
      (h : ℕ) (ws : List Bool) (buf : ℕ → ℕ)
      → Safe (SameAtEnd r h old) (Commands.deliver pthread (pos h) ws buf)
  unfolding Commands.deliver
  deliver-Safe h [] buf b p = waiting
  deliver-Safe h (false ∷ ws) buf b p = keeps p
  deliver-Safe h (true ∷ ws) buf b p = Keeps.bind (read_msg-Safe h _ p) λ _ b1 p1.
      Keeps.bind (Keeps.c_string-Keeps (SameAtEnd r h old) (λ b. b.msg) max_msg_size b1 p1)
        λ text b2 p2. deliver-Safe h ws _ b2 p2.1

  -- What a subscriber's command does once it has its handle.
  served : ℕ → Client → Thread (Unit {0})
  unfolding Commands.deliver Commands.read_msg
  served h c = do
    Commands.read_msg pthread (pos h)
    text ← c_string (λ b. b.msg) max_msg_size
    Commands.deliver pthread (pos h) c.writes (format_msg zeros text)
    call (tfs_close pthread (pos h))
    assign fewer_sessions

  served-Safe :
      (h : ℕ) (c : Client) (b : Broker)
      → SameAtEnd r h old b.fs b.msg
      → Keeps (Keeps.Fs (Same r old)) (served h c b)
  unfolding served
  served-Safe h c b p = Keeps.bind (read_msg-Safe h b p) λ _ b6 p6.
      Keeps.bind (Keeps.c_string-Keeps (SameAtEnd r h old) (λ b. b.msg) max_msg_size b6 p6)
        λ text b7 p7. Keeps.bind (deliver-Safe h c.writes _ b7 p7.1) λ _ b8 p8.
          Keeps.bind (Keeps.call-Keeps _ b8 (tfs_close_lem b8.fs pthread (pos h) never p8.0.valid))
            λ _ b9 o. keeps (o.0.0, λ x. ap (λ (f : ℕ → ℕ). f x) o.1 ∙ p8.1 x)

  pub subscriber_lem : (c : Client) → Safe (Same r old) (Commands.subscriber pthread c)
  unfolding Commands.subscriber served
  subscriber_lem c b p = Keeps.bind (open_pipe-Safe (Same r old) c b p) λ _ b1 p1.
      Keeps.bind (subscribe-Safe (Same r old) b1.num_active_box 0 _ p1) λ _ b2 p2.
        Keeps.bind
          (choose-Safe (Same r old) b2.tester (λ _ p. keeps p) (new_box-Safe (Same r old)) b2 p2)
          λ _ b3 p3.
            Keeps.bind (Keeps.c_string-Keeps (Same r old) (λ b. b.box_name) box_name_size b3 p3)
              λ name b4 p4.
                Keeps.bind
                  (Keeps.call-Keeps _ b4 (append_lem pthread never r b4.fs name p4.1.0 p4.0))
                  λ z b5 o. elim o.0.1 [
                    | inl e ↦ rw e exited
                    | inr (h, e, end) ↦
                        rw e (served-Safe h c b5 (end, λ x. ap (λ (f : ℕ → ℕ). f x) o.1 ∙ p4.1.1 x))
                  ]

-- The session of a subscriber reads nothing of its box: in every state that it ends in, `msg`, from
-- which the messages are formed, holds what it held before, and the file system is valid, where it
-- was and the pthread calls never return -1.
pub subscriber_reads_nothing :
    {r : ℕ} (pthread : Pthread) (c : Client) (b : Broker)
    → NeverFails pthread
    → IsValid r b.fs
    → Keeps
        (λ _ b'. IsValid r b'.fs × ((x : ℕ) → b'.msg x ≡ b.msg x))
        (Commands.subscriber pthread c b)
subscriber_reads_nothing {r} pthread c b never v =
    subscriber_lem pthread never r b.msg c b (v, λ x. refl)
