-- ===== src/Fs/History/Tests.antt =====
-- A run of calls on the small disk.
use so_ii.Prelude.{ℕ, ℤ, ◌≡◌, inl, inr, false, refl, List, [], ◌∷◌, arith, pos, some, negsuc}
use so_ii.Fs.State.{State, ok, lock}
use so_ii.Fs.Returns.{Returns, returns}
use so_ii.Fs.Returns
use so_ii.Fs.Tables.Files.{IsOpen}
use so_ii.Fs.Operations.Close.{Closes}
use so_ii.Fs.Invariant.Handles.{closed}
use so_ii.Fs.Operations.Calls.{tfs_close_lem}
use so_ii.Fs.Operations.{Pthread, Path?, Reply, truncates}
use so_ii.Fs.Operations.Open.{IsPath}
use so_ii.Fs.Operations.Lock.{NeverFails, called}
use so_ii.Fs.Example.{one_file, name_a, one_file-IsValid}
use so_ii.Fs.Contents.{InUse}
use so_ii.Fs.History.Spec.{AllFollow}
use so_ii.Fs.History.{
  FileCall, open_file, close, read, write, perform, perform_all, AllSpare, unlink, HandlesInside,
  IsCalm,
}
use so_ii.Fs.History.Calls.{perform_all-AllFollow}

abbrev quiet : Pthread
quiet calls call = pos 0

quiet-NeverFails : NeverFails quiet
quiet-NeverFails calls call e = cc

file_a-InUse : InUse one_file 1
file_a-InUse = (omega arith, omega arith, refl)

-- The one open handle stands at the start of the file.
handles-HandlesInside : HandlesInside one_file
handles-HandlesInside h o = (1, (refl, file_a-InUse, omega arith))

-- Handle 0 is closed and "/a" removed, then "/b" is made with TFS_O_CREAT, written, closed and read.
abbrev path_a : Path?
path_a = some (b'/' ∷ name_a)

abbrev path_b : Path?
path_b = some (b'/' ∷ b'b' ∷ [])

abbrev later : List FileCall
later =
    open_file path_b 1
    ∷ write (pos 0) (b'x' ∷ b'y' ∷ [])
    ∷ close (negsuc 6)
    ∷ open_file path_b 4
    ∷ read (pos 0) 5
    ∷ []

abbrev calls : List FileCall
calls = close (pos 0) ∷ unlink path_a ∷ later

path_b-IsPath : IsPath path_b
path_b-IsPath = (ground arith, (ground arith, tt))

plain : (truncates 1 ≡ false) × (truncates 4 ≡ false)
plain = (refl, refl)

later-AllSpare : (s : State) → AllSpare quiet 0 s later
later-AllSpare s = (
  (path_b-IsPath, λ e. cc (e, plain.0)),
  λ _ _ _. (
    omega arith,
    λ _ _ _. (tt, λ _ _ _. ((path_b-IsPath, λ e. cc (e, plain.1)), λ _ _ _. (tt, λ _ _ _. tt))),
  ),
)

-- No handle is open once handle 0 has been closed.
closed-none_open :
    (z : ℤ) (s : State) → Closes (called one_file lock) (pos 0) z s → (h : ℕ) → ¬ IsOpen s h
closed-none_open z s (inr (shut, e, same)) h o =
    shut 0 refl (record { small = omega arith; is_taken = refl })
closed-none_open z s (inl (k, e, o, f, same)) h o' =
    let o1 : IsOpen (closed (called one_file lock) k) h = rw same at o' in
    ground (arith, e, o1.small, o1.is_taken)

close-none_open : Returns (λ _ s. (h : ℕ) → ¬ IsOpen s h) (perform quiet (close (pos 0)) one_file)
unfolding perform
close-none_open =
    Returns.bind (tfs_close_lem one_file quiet (pos 0) quiet-NeverFails one_file-IsValid)
      λ z s (w, (t, o, e), _). returns (
        rw e λ h open'.
          closed-none_open z t o h (record { small = open'.small; is_taken = open'.is_taken }))

-- What holds where a run ends holds of its state.
held : {A : Type 0} {P : A → State → Type 0} {a : A} {s : State} → Returns P (ok a s) → P a s
held (returns p) = p

calls-AllSpare : AllSpare quiet 0 one_file calls
calls-AllSpare = (
  tt,
  λ reply s e.
      let none_open : (h : ℕ) → ¬ IsOpen s h =
        held {P = λ (_ : Reply) (s : State). (h : ℕ) → ¬ IsOpen s h} {a = reply}
          (rw (e) at close-none_open) in
      (
        ((ground arith, (ground arith, tt)), λ n l h o. absurd (none_open h o)),
        λ reply' s' e'. later-AllSpare s',
      ),
)

perform_all-AllFollow_example :
    Returns
      (λ replies s'. IsCalm 0 s' × AllFollow 0 one_file calls replies s')
      (perform_all quiet calls one_file)
perform_all-AllFollow_example =
    perform_all-AllFollow quiet calls one_file quiet-NeverFails calls-AllSpare
      (one_file-IsValid, handles-HandlesInside)
