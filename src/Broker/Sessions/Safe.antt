-- ===== src/Broker/Sessions/Safe.antt =====
-- The steps of a command keep what is said of the file system and of `msg`.
use so_ii.Prelude.{
  ℕ, zero, suc, ◌+◌, Bool, true, false, ◌&&◌, ◌==◌, List, [], ◌∷◌, Option, none, some,
  if◌then◌else◌, Bool-cases, inl, inr, leb, ◌*◌,
}
use so_ii.Fs.State.{State}
use so_ii.Broker.{Broker, Thread, require, pipe_name_size}
use so_ii.Broker.Keeps
use so_ii.Broker.Keeps.{Keeps, keeps, exited, waiting, faulty}
use so_ii.Broker.Sessions.{
  Client, write_all, check_sessions, check_boxes, publish, forget, open_pipe, has_session,
  subscribe, new_box,
}

module _ (P : State → (ℕ → ℕ) → Type 0) where
  abbrev pub Safe : {A : Type 0} → Thread A → Type 0
  Safe {A} m = (b : Broker) → P b.fs b.msg → Keeps (Keeps.Fs P) (m b)

  pub require-Safe : (t : Bool) → Safe (require t)
  require-Safe true b p = keeps p
  require-Safe false b p = exited

  pub choose-Safe :
      {A : Type 0} (t : Bool) {m k : Thread A} → Safe m → Safe k → Safe (if t then m else k)
  choose-Safe true m-Safe k-Safe = m-Safe
  choose-Safe false m-Safe k-Safe = k-Safe

  pub open_pipe-Safe : (c : Client) → Safe (open_pipe c)
  unfolding open_pipe
  open_pipe-Safe c b p =
      Keeps.bind (Keeps.c_string-Keeps P (λ b. b.client_named_pipe_path) pipe_name_size b p)
        λ s b' q. require-Safe c.opens b' q.1

  pub check_boxes-Safe : (rounds i : ℕ) → Safe (check_boxes rounds i)
  unfolding check_boxes
  check_boxes-Safe zero i b p = keeps p
  check_boxes-Safe (suc rounds) i b p = Keeps.bind (Keeps.has_name-Keeps P i b p) λ same b' q.
      choose-Safe (same && (b'.active_box i).pub_activity == 1) (λ _ _. exited)
        (check_boxes-Safe rounds (i + 1)) b' q

  pub publish-Safe : (reads : List (Option (List ℕ))) → Safe (publish reads)
  unfolding publish
  publish-Safe [] b p = waiting
  publish-Safe (none ∷ rs) b p = exited
  publish-Safe (some [] ∷ rs) b p = keeps p
  publish-Safe (some (c ∷ bytes) ∷ rs) b p = publish-Safe rs _ p

  pub forget-Safe : (rounds i : ℕ) → Safe (forget rounds i)
  unfolding forget
  forget-Safe zero i b p = keeps p
  forget-Safe (suc rounds) i b p = Keeps.bind (Keeps.has_name-Keeps P i b p) λ same b' q.
      choose-Safe same (λ b p. Keeps.bind (Keeps.set_box-Keeps P i _ b p) λ _ b' q. keeps q)
        (forget-Safe rounds (i + 1)) b' q

  pub write_all-Safe : (ws : List Bool) (buf : ℕ → ℕ) (n : ℕ) → Safe (write_all ws buf n)
  unfolding write_all
  write_all-Safe [] buf n b p = waiting
  write_all-Safe (false ∷ ws) buf n b p = exited
  write_all-Safe (true ∷ ws) buf n b p = keeps p

  pub subscribe-Safe : (rounds i : ℕ) → Safe (subscribe rounds i)
  unfolding subscribe
  subscribe-Safe zero i b p = keeps p
  subscribe-Safe (suc rounds) i b p = Keeps.bind (Keeps.has_name-Keeps P i b p) λ same b' q.
      choose-Safe same (λ b p. Keeps.bind (Keeps.set_box-Keeps P i _ b p) λ _ b' q. keeps q)
        (subscribe-Safe rounds (i + 1)) b' q

  pub new_box-Safe : Safe new_box
  unfolding new_box
  new_box-Safe b p = Keeps.bind (Keeps.set_box-Keeps P b.num_active_box _ b p) λ _ b' q. keeps q

  has_session-Safe : (path : List ℕ) (i : ℕ) → Safe (has_session path i)
  unfolding has_session
  has_session-Safe path i b p = elim (Bool-cases (leb (i * 256 + 256) b.active_sessions.size)) [
    | inl inside ↦ rw inside (keeps p)
    | inr outside ↦ rw outside faulty
  ]

  pub check_sessions-Safe : (rounds i : ℕ) → Safe (check_sessions rounds i)
  unfolding check_sessions
  check_sessions-Safe zero i b p = keeps p
  check_sessions-Safe (suc rounds) i b p =
      Keeps.bind (Keeps.c_string-Keeps P (λ b. b.client_named_pipe_path) pipe_name_size b p)
        λ path b1 q.
          Keeps.bind (has_session-Safe path i b1 q.1) λ same b2 q'.
            choose-Safe same (λ _ _. exited) (check_sessions-Safe rounds (i + 1)) b2 q'
