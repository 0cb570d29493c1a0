-- ===== src/Broker/Sessions/Commands/Remover.antt =====
-- What the session of a manager that removes a box does.
use so_ii.Prelude.{
  ℕ, zero, suc, ◌-◌, ◌<◌, ◌≡◌, ◌∙◌, refl, arith, Bool, true, List, [], ◌∷◌, ◌++◌, some, ℤ, pos,
  slice,
}
use so_ii.Fs.State.{State, ok}
use so_ii.Fs.Operations.{Pthread, tfs_unlink, tfs_close}
use so_ii.Libc.{string_at}
use so_ii.Broker.{Broker, shared, done, set_box, box_name_size, pipe_name_size}
use so_ii.Broker.Keeps.{Ends, ends, weaken, run_on, call-done}
use so_ii.Broker.Sessions.{Client, open_pipe, write_all, forget, remove_answer, more_sessions, send}
use so_ii.Broker.Sessions.Commands
use so_ii.Broker.Sessions.Commands.Publisher.{c_string-done, has_name-done}

open_pipe-done :
    (c : Client) (b : Broker) (path : List ℕ)
    → string_at b.client_named_pipe_path 0 pipe_name_size ≡ some path
    → c.opens ≡ true
    → open_pipe c b ≡ done tt b
unfolding open_pipe
open_pipe-done c b path has_path opens =
    rw (c_string-done (λ b. b.client_named_pipe_path) pipe_name_size b path has_path, opens) refl

write_all-done :
    (c : Client) (ws : List Bool) (buf : ℕ → ℕ) (n : ℕ) (b : Broker)
    → c.writes ≡ true ∷ ws
    → write_all c.writes buf n b ≡ done tt (send buf n b)
unfolding write_all
write_all-done c ws buf n b writes = rw writes refl

-- `b'` is `b` with one box less, if there was one.
abbrev Forgets : Broker → Broker → Type 0
Forgets b b' =
    (b'.fs ≡ b.fs)
    × (b'.num_active_sessions ≡ b.num_active_sessions)
    × (b'.num_active_box ≡ b.num_active_box - 1)
    × (b'.sent ≡ b.sent)

forget_first :
    (rounds : ℕ) (b : Broker) (name : List ℕ)
    → b.num_active_box ≡ rounds
    → string_at b.box_name 0 box_name_size ≡ some name
    → (0 < rounds → (b.active_box 0).name ≡ shared)
    → Ends (λ _ b'. Forgets b b') (forget rounds 0 b)
unfolding forget set_box
forget_first zero b name count named first = ends (refl, refl, omega arith, refl)
forget_first (suc rounds) b name count named first =
    run_on _ (has_name-done b name named 0 (omega arith) (first (omega arith)))
      (ends (refl, refl, refl, refl))

-- The session of a manager that removes a box comes to its end where `tfs_unlink` succeeds. It
-- sends one answer, leaves the number of sessions as it was and counts one box less, if there was
-- one; and it closes the handle 0, whosever it is, since it takes the result of `tfs_unlink` for a
-- handle. The path and the box name are strings, the pipe opens, the write succeeds, and the first
-- box, if there is one, has a name.
pub remover_closes_zero :
    (pthread : Pthread) (stack : ℕ → ℕ) (c : Client) (ws : List Bool) (b : Broker)
    (path name : List ℕ) (s1 s2 : State) (z : ℤ)
    → string_at b.client_named_pipe_path 0 pipe_name_size ≡ some path
    → string_at b.box_name 0 box_name_size ≡ some name
    → c.opens ≡ true
    → c.writes ≡ true ∷ ws
    → (0 < b.num_active_box → (b.active_box 0).name ≡ shared)
    → tfs_unlink pthread (some name) b.fs ≡ ok (pos 0) s1
    → tfs_close pthread (pos 0) s1 ≡ ok z s2
    → Ends
        (λ _ b'.
          (b'.fs ≡ s2)
          × (b'.num_active_sessions ≡ b.num_active_sessions)
          × (b'.num_active_box ≡ b.num_active_box - 1)
          × (b'.sent ≡ b.sent ++ (slice (remove_answer stack (pos 0) b.msg) 0 1029 ∷ [])))
        (Commands.remover pthread stack c b)
unfolding Commands.remover
remover_closes_zero pthread stack c ws b path name s1 s2 z has_path named opens writes first
      unlinked closed =
    run_on _ (open_pipe-done c b path has_path opens) (
      run_on _ (c_string-done (λ b. b.box_name) box_name_size (more_sessions b) name named) (
        run_on _ (call-done (tfs_unlink pthread (some name)) (more_sessions b) (pos 0) s1 unlinked)
          (run_on _ (write_all-done c ws _ 1029 _ writes) (
            run_on _ (call-done (tfs_close pthread (pos 0)) _ z s2 closed) (
              weaken (forget_first b.num_active_box _ name refl named first)
                λ _ b' (fs, sessions, boxes, sent). (fs, sessions ∙ omega arith, boxes, sent))))))
