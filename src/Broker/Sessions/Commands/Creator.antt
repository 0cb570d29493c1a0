-- ===== src/Broker/Sessions/Commands/Creator.antt =====
-- What the creation of a box comes to, after any sessions.
use so_ii.Prelude.{ℕ, ◌≡◌, refl, true, List, [], ◌∷◌, some, pos, inl}
use so_ii.Fs.State.{State, ok}
use so_ii.Fs.Operations.{Pthread, tfs_open}
use so_ii.Libc.{string_at}
use so_ii.Broker.{
  Broker, nowhere, Thread, done, fault, assign, pure, ◌>>◌, box_name_size, pipe_name_size, of_run,
}
use so_ii.Broker.Keeps
use so_ii.Broker.Keeps.{Keeps, keeps}
use so_ii.Broker.Requests.{received, decode}
use so_ii.Broker.Sessions.{Client, Image, open_pipe, more_sessions}
use so_ii.Broker.Sessions.Commands
use so_ii.Broker.Sessions.Steps.{Unset, Steady, copy_name-fault}
use so_ii.Broker.Sessions.Commands.Names.{session-Steady}
use so_ii.Broker.Sessions.Commands.Publisher.{c_string-done}

-- A request that comes, and what its session finds.
pub record Visit : Type 0 where
  pub bytes : List ℕ
  pub beyond : List ℕ
  pub stack : ℕ → ℕ
  pub image : ℕ → Image
  pub client : Client

-- Requests that are read and served one after the other.
unfoldable pub serve_all : Pthread → List Visit → Thread (Unit {0})
serve_all pthread [] = pure tt
serve_all pthread (v ∷ visits) = do
  assign λ b. decode v.beyond (received v.bytes b)
  Commands.session pthread v.stack v.image v.client
  serve_all pthread visits

serve_all-Steady : (pthread : Pthread) (visits : List Visit) → Steady (serve_all pthread visits)
unfolding serve_all decode
serve_all-Steady pthread [] b u = keeps u
serve_all-Steady pthread (v ∷ visits) b u =
    Keeps.bind (session-Steady pthread v.stack v.image v.client _ u)
      λ _ b' w. serve_all-Steady pthread visits b' w

held : {A : Type 0} {P : A → Broker → Type 0} {a : A} {b : Broker} → Keeps P (done a b) → P a b
held (keeps p) = p

-- From globals in which every name is NULL, as a program starts with, and after any requests have
-- been served: the session of a manager that creates a box runs into undefined behaviour as soon as
-- `tfs_open` gives a handle, where the path and the name of the box are strings and the pipe opens.
-- No session before it has given the box an array for its name.
pub creator_faults :
    (pthread : Pthread) (visits : List Visit) (b0 b : Broker) (c : Client) (path name : List ℕ)
    (h : ℕ) (s : State)
    → ((i : ℕ) → (b0.active_box i).name ≡ nowhere)
    → serve_all pthread visits b0 ≡ done tt b
    → string_at b.client_named_pipe_path 0 pipe_name_size ≡ some path
    → string_at b.box_name 0 box_name_size ≡ some name
    → c.opens ≡ true
    → tfs_open pthread (some name) 1 b.fs ≡ ok (pos h) s
    → Commands.creator pthread c b ≡ fault
unfolding Commands.creator Commands.opened_box open_pipe of_run
creator_faults pthread visits b0 b c path name h s null served has_path named opens handle =
    let u : Unset b =
      held {P = λ (_ : Unit {0}) (b' : Broker). Unset b'} {a = tt}
        (rw (served) at (serve_all-Steady pthread visits b0 (λ i. inl (null i)))) in
    rw
      (
        c_string-done (λ b. b.client_named_pipe_path) pipe_name_size b path has_path,
        opens,
        c_string-done (λ b. b.box_name) box_name_size (more_sessions b) name named,
        handle,
        copy_name-fault b.num_active_box (record (more_sessions b) { fs = s }) (u b.num_active_box),
      )
      refl
