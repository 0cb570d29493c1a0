-- ===== src/Broker/Tests.antt =====
-- Runs of the broker on a small disk, with the one box "/a".
use so_ii.Prelude.{
  slice, ℕ, ◌≡◌, refl, arith, true, false, some, none, List, [], ◌∷◌, ℤ, pos, null, inl, inr,
}
use so_ii.Fs.State.{State, Run, ok, lock, taken}
use so_ii.Fs.Strings.{IsString}
use so_ii.Fs.Returns.{Returns, returns}
use so_ii.Fs.Invariant.{IsValid, Linked}
use so_ii.Fs.Example.{one_file, one_file-IsValid, entry_a, name_a}
use so_ii.Fs.Init.{Mallocs, no_inode, no_open_file, tfs_init, tfs_default_params, start}
use so_ii.Fs.Init.Starts.{AreSizes, memory, tfs_init_lem}
use so_ii.Fs.Operations.{
  Pthread, tfs_open, tfs_unlink, tfs_close, truncates, valid_pathname, skip_slash,
}
use so_ii.Fs.Operations.Lock.{NeverFails, called}
use so_ii.Fs.Tables.Search.{AllTaken}
use so_ii.Fs.Operations.Open.{OpenOutcome}
use so_ii.Fs.Operations.Open
use so_ii.Fs.Operations.Calls.{tfs_open_lem, tfs_unlink_lem, tfs_close_lem}
use so_ii.Libc.{codes, zeros, char_array, string_at}
use so_ii.Libc.Laws.{atoi-digit, string_in-bytes, char_array-byte}
use so_ii.Queue.{Queue}
use so_ii.Broker.{Broker, nowhere, done, fault, waits, pipe_name_size, box_name_size}
use so_ii.Fs.Operations.Unlink.{UnlinkOutcome}
use so_ii.Fs.Operations.Unlink
use so_ii.Broker.Keeps.{Keeps, Ends}
use so_ii.Broker.Sessions.Commands.Remover.{remover_closes_zero}
use so_ii.Broker.Sessions.{Client, Image, remove_answer}
use so_ii.Broker.Sessions.Commands
use so_ii.Broker.Sessions.Commands.Subscriber.{subscriber_reads_nothing}
use so_ii.Broker.Sessions.Commands.Publisher.{sending, publisher_stores_nothing}
use so_ii.Broker.Sessions.Commands.Creator.{serve_all, creator_faults}
use so_ii.Broker.Main.{Startup, joined, main, main_never_serves}

abbrev quiet : Pthread
quiet calls call = pos 0

quiet-NeverFails : NeverFails quiet
quiet-NeverFails calls call e = cc

abbrev path : List ℕ
path = codes "p1"

abbrev box_a : List ℕ
box_a = codes "/a"

box_a-IsString : IsString box_a
box_a-IsString = ground arith

-- A broker that has read a request for "/a" with the code `op`.
abbrev asked : ℤ → Broker
asked op = record {
  buffer = zeros;
  op_code = op;
  client_named_pipe_path = char_array path;
  box_name = char_array box_a;
  msg = zeros;
  tester = false;
  num_active_sessions = 0;
  active_sessions = null 0;
  active_box = λ i. record { name = nowhere; num_active_subs = 0; pub_activity = 0; size = 0 };
  num_active_box = 0;
  fs = one_file;
  queue = record {
    pcq_buffer = null 0;
    pcq_capacity = 0;
    pcq_current_size = 0;
    pcq_head = 0;
    pcq_tail = 0;
  };
  sent = [];
}

has_path : string_at (asked (pos 1)).client_named_pipe_path 0 pipe_name_size ≡ some path
has_path =
    string_in-bytes (char_array path) 256 path (ground arith) (omega arith)
      λ j h. char_array-byte path j

has_box : string_at (asked (pos 1)).box_name 0 box_name_size ≡ some box_a
has_box =
    string_in-bytes (char_array box_a) 32 box_a box_a-IsString (omega arith)
      λ j h. char_array-byte box_a j

name_a-Linked : Linked 0 one_file name_a 1
name_a-Linked = (0, omega arith, entry_a)

result :
    {A : Type 0} {P : A → State → Type 0} {run : Run A}
    → Returns P run
    → (a : A) × (s : State) × (run ≡ ok a s) × P a s
result (returns p) = (_, _, refl, p)

full_not :
    (s : State)
    → s ≡ called one_file lock
    → ¬ AllTaken s.free_open_file_entries.at 0 s.fs_params.max_open_files_count
full_not s e full = let same = rw (e) at full in let all = same 1 (omega arith) (omega arith) in cc

-- The box can be opened, for there is a free handle.
module _ (mode : ℕ) (keeps_it : truncates mode ≡ false) where
  handle_of :
      (z : ℤ) (t : State)
      → OpenOutcome 0 (called one_file lock) (some box_a) mode z t
      → (h : ℕ) × (z ≡ pos h)
  unfolding valid_pathname skip_slash
  handle_of z t (Open.rejected bad fails same) = absurd (ground arith)
  handle_of z t (Open.reopened n good' l (s1, same, inl (h, e, first, opened'))) = (h, e)
  handle_of z t (Open.reopened n good' l (s1, same, inr (e, full, same'))) =
      let here : s1 ≡ called one_file lock = rw (keeps_it) at same in absurd (full_not s1 here full)
  handle_of z t (Open.made good' new creates outcome) = absurd (new 1 name_a-Linked)
  handle_of z t (Open.missing good' new creates fails same) = absurd (new 1 name_a-Linked)

  opens_a : (h : ℕ) × (s : State) × (tfs_open quiet (some box_a) mode one_file ≡ ok (pos h) s)
  opens_a =
      let (z, s, run, p) = result (
        tfs_open_lem one_file quiet (some box_a) mode quiet-NeverFails one_file-IsValid
          box_a-IsString) in
      let (h, e) = handle_of z p.1.0 p.1.1 in (h, s, rw e at run)

abbrev client : Client
client = record {
  opens = true;
  reads = sending ((b'h', codes "i") ∷ []) [];
  writes = true ∷ true ∷ false ∷ [];
}

abbrev image : ℕ → Image
image i = record { name = []; size = []; pub_activity = []; num_active_subs = [] }

publisher_stores_nothing_example :
    (b' : Broker) × (Commands.publisher quiet client (asked (pos 1)) ≡ done tt b')
    × (b'.fs ≡ (opens_a 4 refl).1)
    × (b'.num_active_sessions ≡ 1)
    × (b'.num_active_box ≡ 1)
    × (b'.sent ≡ [])
publisher_stores_nothing_example =
    publisher_stores_nothing quiet client (asked (pos 1)) path box_a (opens_a 4 refl).0
      (opens_a 4 refl).1 ((b'h', codes "i") ∷ []) [] has_path has_box refl refl
      (λ k p. absurd (omega arith)) (omega arith) (opens_a 4 refl).2

-- The first request of all.
none_served : serve_all quiet [] (asked (pos 3)) ≡ done tt (asked (pos 3))
unfolding serve_all
none_served = refl

creator_faults_example : Commands.creator quiet client (asked (pos 3)) ≡ fault
creator_faults_example =
    creator_faults quiet [] (asked (pos 3)) (asked (pos 3)) client path box_a (opens_a 1 refl).0
      (opens_a 1 refl).1 (λ i. refl) none_served has_path has_box refl (opens_a 1 refl).2

subscriber_reads_nothing_example :
    Keeps
      (λ _ b'. IsValid 0 b'.fs × ((x : ℕ) → b'.msg x ≡ 0))
      (Commands.subscriber quiet client (asked (pos 2)))
subscriber_reads_nothing_example =
    subscriber_reads_nothing quiet client (asked (pos 2)) quiet-NeverFails one_file-IsValid

-- A broker that starts, on a disk of zeros.
abbrev blank : Mallocs
blank = memory (λ n. no_inode) (λ n. taken) (λ x. 0) (λ n. taken) (λ h. no_open_file) (λ h. taken)

sizes-AreSizes : AreSizes tfs_default_params
unfolding tfs_default_params
sizes-AreSizes = omega arith

inits : (z : ℤ) × (s : State) × (tfs_init blank none start ≡ ok z s)
unfolding tfs_init
inits =
    let (z, s, run, _) = result (
      tfs_init_lem tfs_default_params sizes-AreSizes (λ n. no_inode) (λ n. taken) (λ x. 0)
        (λ n. taken) (λ h. no_open_file) (λ h. taken) λ e p. refl) in
    (z, s, run)

abbrev unset : Queue
unset = record {
  pcq_buffer = null 0;
  pcq_capacity = 0;
  pcq_current_size = 0;
  pcq_head = 0;
  pcq_tail = 0;
}

abbrev startup : Startup
startup = record {
  sessions = some zeros;
  makes_pipe = true;
  mallocs = blank;
  queue = some unset;
  buffer = some zeros;
}

abbrev started : Broker
started = record (asked (pos 0)) { fs = start }

main_never_serves_example :
    main quiet zeros image 4096 [] startup
      (joined client ∷ [])
      (codes "mbroker" ∷ codes "reg" ∷ codes "9" ∷ [])
      started
    ≡ waits
main_never_serves_example =
    main_never_serves quiet zeros image 4096 [] startup client [] (codes "mbroker") (codes "reg")
      (codes "9") 8 started (inits.0) (inits.1) unset zeros (atoi-digit b'9' [] refl refl) refl
      inits.2 refl refl

-- The box can be removed, and the handle 0 is open.
removes : (z : ℤ) (t : State) → UnlinkOutcome 0 (called one_file lock) (some box_a) z t → z ≡ pos 0
unfolding valid_pathname skip_slash
removes z t (Unlink.rejected bad fails same) = absurd (ground arith)
removes z t (Unlink.missing good' new fails same) = absurd (new 1 name_a-Linked)
removes z t (Unlink.removed n good' l (fb, g, e, freed, same, bytes, only)) = e

unlinks_a :
    (s1 s2 : State) × (z : ℤ) × (tfs_unlink quiet (some box_a) one_file ≡ ok (pos 0) s1)
    × (tfs_close quiet (pos 0) s1 ≡ ok z s2)
unlinks_a =
    let (z, s1, run, p) = result (
      tfs_unlink_lem one_file quiet (some box_a) quiet-NeverFails one_file-IsValid
        box_a-IsString) in
    let e = removes z p.1.0 p.1.1 in
    let (z', s2, run', p') = result (tfs_close_lem s1 quiet (pos 0) quiet-NeverFails p.0) in
    (s1, s2, z', rw e at run, run')

remover_closes_zero_example :
    Ends
      (λ _ b'.
        (b'.fs ≡ unlinks_a.1)
        × (b'.num_active_sessions ≡ 0)
        × (b'.num_active_box ≡ 0)
        × (b'.sent ≡ slice (remove_answer zeros (pos 0) zeros) 0 1029 ∷ []))
      (Commands.remover quiet zeros client (asked (pos 5)))
remover_closes_zero_example =
    remover_closes_zero quiet zeros client (true ∷ false ∷ []) (asked (pos 5)) path box_a
      (unlinks_a.0) (unlinks_a.1) (unlinks_a.2) has_path has_box refl refl
      (λ p. absurd (omega arith)) (unlinks_a.3) (unlinks_a.4)
