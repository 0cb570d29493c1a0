-- ===== src/Broker/Sessions/Commands/Publisher.antt =====
-- What a publisher's and a creating manager's session do to the box.
use so_ii.Prelude.{
  ℕ, zero, suc, ◌+◌, ◌<◌, ◌≤◌, ◌≡◌, ◌≢◌, refl, arith, true, List, [], ◌∷◌, Option, some, pos,
  update, lt→ltb, ne→eqb,
}
use so_ii.Fs.State.{State, ok}
use so_ii.Fs.Operations.{Pthread, tfs_open}
use so_ii.Libc.{string_at}
use so_ii.Broker.{
  Broker, shared, done, c_string, has_name, set_box, box_name_size, pipe_name_size, of_run,
}
use so_ii.Broker.Sessions.{Client, check_boxes, publish, open_pipe}
use so_ii.Broker.Sessions.Commands

-- What the reads of a publisher's pipe give that sends `messages`, none of them empty, and then
-- closes it.
abbrev pub sending : List (ℕ × List ℕ) → List (Option (List ℕ)) → List (Option (List ℕ))
sending [] more = some [] ∷ more
sending ((c, bytes) ∷ messages) more = some (c ∷ bytes) ∷ sending messages more

-- The box `i` has a name and no publisher.
abbrev pub IsIdle : Broker → ℕ → Type 0
IsIdle b i = ((b.active_box i).name ≡ shared) × ((b.active_box i).pub_activity ≢ 1)

pub c_string-done :
    (f : Broker → ℕ → ℕ) (n : ℕ) (b : Broker) (s : List ℕ)
    → string_at (f b) 0 n ≡ some s
    → c_string f n b ≡ done s b
c_string-done f n b s e = rw (c_string, e) refl

module _ (b : Broker) (name : List ℕ)
    (named : string_at b.box_name 0 box_name_size ≡ some name) where
  pub has_name-done :
      (i : ℕ) → i < pipe_name_size → (b.active_box i).name ≡ shared → has_name i b ≡ done true b
  unfolding has_name
  has_name-done i small own =
      rw
        (
          c_string-done (λ b. b.box_name) box_name_size b name named,
          lt→ltb i pipe_name_size small,
          own,
        )
        refl

  check_boxes-done :
      (rounds i : ℕ)
      → i + rounds ≤ pipe_name_size
      → ((k : ℕ) → k < i + rounds → IsIdle b k)
      → check_boxes rounds i b ≡ done tt b
  unfolding check_boxes
  check_boxes-done zero i small idle = refl
  check_boxes-done (suc rounds) i small idle =
      rw
        (
          has_name-done i (omega arith) (idle i (omega arith)).0,
          ne→eqb (b.active_box i).pub_activity 1 (idle i (omega arith)).1,
        )
        (check_boxes-done rounds (i + 1) (omega arith) λ k h. idle k (omega arith))

-- The loop over the messages ends, and leaves all but the buffer as it was.
publish-done :
    (messages : List (ℕ × List ℕ)) (more : List (Option (List ℕ))) (b : Broker)
    → (buffer' : ℕ → ℕ) × (publish (sending messages more) b
        ≡ done tt (record b { buffer = buffer' }))
unfolding publish
publish-done [] more b = (b.buffer, refl)
publish-done ((c, bytes) ∷ messages) more b = publish-done messages more _

-- The session of a publisher that sends messages and closes its pipe comes to its end, and has
-- stored none of them: the file system is as `tfs_open` left it, the handle still open. The session
-- is still counted, and one box more than before. This is where the path and the box name are
-- strings, the pipe opens, each box has a name and no publisher, there is room for one more, and
-- `tfs_open` gives a handle.
pub publisher_stores_nothing :
    (pthread : Pthread) (c : Client) (b : Broker) (path name : List ℕ) (h : ℕ) (s : State)
    (messages : List (ℕ × List ℕ)) (more : List (Option (List ℕ)))
    → string_at b.client_named_pipe_path 0 pipe_name_size ≡ some path
    → string_at b.box_name 0 box_name_size ≡ some name
    → c.opens ≡ true
    → c.reads ≡ sending messages more
    → ((k : ℕ) → k < b.num_active_box → IsIdle b k)
    → b.num_active_box < pipe_name_size
    → tfs_open pthread (some name) 4 b.fs ≡ ok (pos h) s
    → (b' : Broker) × (Commands.publisher pthread c b ≡ done tt b')
      × (b'.fs ≡ s)
      × (b'.num_active_sessions ≡ b.num_active_sessions + 1)
      × (b'.num_active_box ≡ b.num_active_box + 1)
      × (b'.sent ≡ b.sent)
unfolding Commands.publisher open_pipe set_box of_run
publisher_stores_nothing pthread c b path name h s messages more has_path named opens reads idle
      room handle =
    let (buffer', end) = publish-done messages more (registered (record b { fs = s })) in
    (
      record (registered (record b { fs = s })) { buffer = buffer' },
      rw
          (
            check_boxes-done b name named b.num_active_box 0 (omega arith)
                (λ k p. idle k (omega arith)),
            c_string-done (λ b. b.client_named_pipe_path) pipe_name_size b path has_path,
            opens,
            lt→ltb b.num_active_box pipe_name_size room,
            c_string-done (λ b. b.box_name) box_name_size (registered b) name named,
            handle,
            reads,
          )
          end,
      refl,
      refl,
      refl,
      refl,
    )
  where
    registered : Broker → Broker
    registered b = record b {
      num_active_sessions = b.num_active_sessions + 1;
      active_box =
          update b.active_box b.num_active_box
            (record (b.active_box b.num_active_box) { name = shared; pub_activity = 1 });
      num_active_box = b.num_active_box + 1;
    }
