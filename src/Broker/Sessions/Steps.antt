-- ===== src/Broker/Sessions/Steps.antt =====
-- No step of a session gives a box an array of its own for its name.
use so_ii.Prelude.{
  ℕ, zero, suc, ◌+◌, ◌≡◌, ◌⊎◌, refl, sym, Bool, true, false, ◌&&◌, ◌==◌, List, [], ◌∷◌, Option,
  none, some, if◌then◌else◌, Bool-cases, inl, inr, ltb, leb, ◌*◌, update, update_self, update_ne,
}
use native.Mathlib.Decide.{ℕ_discrete}
use so_ii.Fs.State.{Run, Cmd}
use so_ii.Fs.Strings.{strcmp_eq}
use so_ii.Libc.{string_at}
use so_ii.Broker.{
  Broker, Box, Pointer, nowhere, shared, elsewhere, Thread, Outcome, fault, done, require, call,
  of_run, c_string, has_name, same_name, set_box, pipe_name_size, box_name_size,
}
use so_ii.Broker.Keeps
use so_ii.Broker.Keeps.{Keeps, keeps, exited, waiting, faulty}
use so_ii.Broker.Sessions.{
  Client, write_all, check_sessions, check_boxes, publish, forget, open_pipe, copy_name, copy_to,
  has_session, subscribe, new_box,
}

-- The name of a box is NULL, or the global `box_name`.
abbrev pub IsUnset : Pointer → Type 0
IsUnset p = (p ≡ nowhere) ⊎ (p ≡ shared)

abbrev pub Unset : Broker → Type 0
Unset b = (i : ℕ) → IsUnset (b.active_box i).name

-- Such a name cannot be written to.
pub copy_name-fault :
    (i : ℕ) (b : Broker) → IsUnset (b.active_box i).name → copy_name i b ≡ Outcome.fault
unfolding copy_name copy_to
copy_name-fault i b unset = elim (Bool-cases (ltb i pipe_name_size)) [
  | inr outside ↦ rw outside refl
  | inl inside ↦ elim unset [ inl null ↦ rw (inside, null) refl | inr own ↦ rw (inside, own) refl ]
]

-- The names stay unset.
abbrev pub Steady : {A : Type 0} → Thread A → Type 0
Steady m = (b : Broker) → Unset b → Keeps (λ _ b'. Unset b') (m b)

pub choose-Steady :
    {A : Type 0} (t : Bool) {m k : Thread A} → Steady m → Steady k → Steady (if t then m else k)
choose-Steady true first second = first
choose-Steady false first second = second

pub require-Steady : (t : Bool) → Steady (require t)
require-Steady true b u = keeps u
require-Steady false b u = exited

pub c_string-Steady : (f : Broker → ℕ → ℕ) (n : ℕ) → Steady (c_string f n)
c_string-Steady f n b u = string_or_not (string_at (f b) 0 n)
  where
    string_or_not :
        (o : Option (List ℕ))
        → Keeps (λ _ b'. Unset b') (elim o [ none ↦ fault | some s ↦ done s b ])
    string_or_not none = faulty
    string_or_not (some s) = keeps u

pub of_run-Steady :
    {A : Type 0} (r : Run A) (b : Broker) → Unset b → Keeps (λ _ b'. Unset b') (of_run r b)
unfolding of_run
of_run-Steady (Run.ok a s) b u = keeps u
of_run-Steady Run.panic b u = exited
of_run-Steady Run.fault b u = faulty

pub call-Steady : {A : Type 0} (c : Cmd A) → Steady (call c)
unfolding call of_run
call-Steady c b u = of_run-Steady (c b.fs) b u

pub same_name-Steady : (p : Pointer) (name : List ℕ) → Steady (same_name p name)
unfolding same_name
same_name-Steady nowhere name b u = faulty
same_name-Steady shared name b u = keeps u
same_name-Steady (elsewhere a) name b u = ended (string_at a.at 0 a.size)
  where
    ended :
        (o : Option (List ℕ))
        → Keeps
            (λ _ b'. Unset b')
            (elim o [ none ↦ fault | some s ↦ done (strcmp_eq a.at 0 name) b ])
    ended none = faulty
    ended (some s) = keeps u

pub has_name-Steady : (i : ℕ) → Steady (has_name i)
unfolding has_name
has_name-Steady i b u =
    Keeps.bind (c_string-Steady (λ b. b.box_name) box_name_size b u) λ name b' w.
      elim (Bool-cases (ltb i pipe_name_size)) [
        | inl inside ↦ rw inside (same_name-Steady (b'.active_box i).name name b' w)
        | inr outside ↦ rw outside faulty
      ]

updated-Unset :
    (i : ℕ) (f : Box → Box)
    → ((x : Box) → IsUnset x.name → IsUnset (f x).name)
    → (b : Broker) → Unset b
    → Unset (record b { active_box = update b.active_box i (f (b.active_box i)) })
updated-Unset i f same b u k = elim (ℕ_discrete i k) [
  | yes here ↦
      rw (sym here, update_self b.active_box i (f (b.active_box i))) (same (b.active_box i) (u i))
  | no other ↦ rw (update_ne b.active_box i (f (b.active_box i)) k other) (u k)
]

-- A box is assigned, with a name that is unset if it was.
pub set_box-Steady :
    (i : ℕ) (f : Box → Box)
    → ((x : Box) → IsUnset x.name → IsUnset (f x).name)
    → Steady (set_box i f)
unfolding set_box
set_box-Steady i f same b u = elim (Bool-cases (ltb i pipe_name_size)) [
  | inr outside ↦ rw outside faulty
  | inl inside ↦ rw inside (keeps (updated-Unset i f same b u))
]

pub open_pipe-Steady : (c : Client) → Steady (open_pipe c)
unfolding open_pipe
open_pipe-Steady c b u =
    Keeps.bind (c_string-Steady (λ b. b.client_named_pipe_path) pipe_name_size b u)
      λ _ b' w. require-Steady c.opens b' w

pub check_boxes-Steady : (rounds i : ℕ) → Steady (check_boxes rounds i)
unfolding check_boxes
check_boxes-Steady zero i b u = keeps u
check_boxes-Steady (suc rounds) i b u = Keeps.bind (has_name-Steady i b u) λ same b' w.
    choose-Steady (same && (b'.active_box i).pub_activity == 1) (λ _ _. exited)
      (check_boxes-Steady rounds (i + 1)) b' w

pub publish-Steady : (reads : List (Option (List ℕ))) → Steady (publish reads)
unfolding publish
publish-Steady [] b u = waiting
publish-Steady (none ∷ rs) b u = exited
publish-Steady (some [] ∷ rs) b u = keeps u
publish-Steady (some (c ∷ bytes) ∷ rs) b u = publish-Steady rs _ u

pub forget-Steady : (rounds i : ℕ) → Steady (forget rounds i)
unfolding forget
forget-Steady zero i b u = keeps u
forget-Steady (suc rounds) i b u = Keeps.bind (has_name-Steady i b u) λ same b' w.
    choose-Steady same
      (λ b u. Keeps.bind (set_box-Steady i _ (λ x _. inl refl) b u) λ _ b' w. keeps w)
      (forget-Steady rounds (i + 1)) b' w

pub subscribe-Steady : (rounds i : ℕ) → Steady (subscribe rounds i)
unfolding subscribe
subscribe-Steady zero i b u = keeps u
subscribe-Steady (suc rounds) i b u = Keeps.bind (has_name-Steady i b u) λ same b' w.
    choose-Steady same (λ b u. Keeps.bind (set_box-Steady i _ (λ x h. h) b u) λ _ b' w. keeps w)
      (subscribe-Steady rounds (i + 1)) b' w

pub new_box-Steady : Steady new_box
unfolding new_box
new_box-Steady b u =
    Keeps.bind (set_box-Steady b.num_active_box _ (λ x _. inr refl) b u) λ _ b' w. keeps w

pub write_all-Steady : (ws : List Bool) (buf : ℕ → ℕ) (n : ℕ) → Steady (write_all ws buf n)
unfolding write_all
write_all-Steady [] buf n b u = waiting
write_all-Steady (false ∷ ws) buf n b u = exited
write_all-Steady (true ∷ ws) buf n b u = keeps u

pub has_session-Steady : (path : List ℕ) (i : ℕ) → Steady (has_session path i)
unfolding has_session
has_session-Steady path i b u = elim (Bool-cases (leb (i * 256 + 256) b.active_sessions.size)) [
  | inl inside ↦ rw inside (keeps u)
  | inr outside ↦ rw outside faulty
]

pub check_sessions-Steady : (rounds i : ℕ) → Steady (check_sessions rounds i)
unfolding check_sessions
check_sessions-Steady zero i b u = keeps u
check_sessions-Steady (suc rounds) i b u =
    Keeps.bind (c_string-Steady (λ b. b.client_named_pipe_path) pipe_name_size b u) λ path b1 w.
      Keeps.bind (has_session-Steady path i b1 w) λ same b2 w'.
        choose-Steady same (λ _ _. exited) (check_sessions-Steady rounds (i + 1)) b2 w'
