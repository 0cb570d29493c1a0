-- ===== src/Clients/Tests.antt =====
-- Runs of the requests and the answers on concrete bytes.
use so_ii.Prelude.{ℕ, ◌≡◌, refl, arith, true, false, some, List, [], ◌∷◌, pos, null}
use so_ii.Fs.Init.{start}
use so_ii.Libc.{codes, zeros, string_at}
use so_ii.Broker.{Broker, nowhere, done, pipe_name_size, box_name_size}
use so_ii.Broker.Requests.{received, decode}
use so_ii.Broker.Sessions.{Client, Image}
use so_ii.Queue.{Queue}
use so_ii.Queue.Fifo.{IsFifo}
use so_ii.Broker.Sessions.Commands.{thread_fun}
use so_ii.Clients.Manager
use so_ii.Clients.Manager.{
  create_verdict, remove_verdict, success, byte, Entry, Listing, read_boxes,
}
use so_ii.Clients.Publisher
use so_ii.Clients.Subscriber
use so_ii.Clients.Subscriber.{shown}
use so_ii.Clients.Exchange.{manager_request}
use so_ii.Clients.Registrations.{publisher_misread, subscriber_ignored}

abbrev pipe : List ℕ
pipe = codes "p1"

abbrev box : List ℕ
box = codes "news"

abbrev idle : Broker
idle = record {
  buffer = zeros;
  op_code = pos 0;
  client_named_pipe_path = zeros;
  box_name = zeros;
  msg = zeros;
  tester = false;
  num_active_sessions = 0;
  active_sessions = null 0;
  active_box = λ i. record { name = nowhere; num_active_subs = 0; pub_activity = 0; size = 0 };
  num_active_box = 0;
  fs = start;
  queue = record {
    pcq_buffer = null 0;
    pcq_capacity = 0;
    pcq_current_size = 0;
    pcq_head = 0;
    pcq_tail = 0;
  };
  sent = [];
}

manager_request_example :
    let after = decode [] (received (Manager.request 3 pipe box) idle) in
    (after.op_code ≡ pos 3)
    × (string_at after.client_named_pipe_path 0 pipe_name_size ≡ some pipe)
    × (string_at after.box_name 0 box_name_size ≡ some box)
manager_request_example =
    manager_request [] idle 3 pipe box (omega arith) (λ e. omega arith) refl (ground arith)
      (ground arith) (omega arith) (omega arith)

publisher_misread_example :
    let after = decode [] (received (Publisher.registration pipe box) idle) in
    (after.op_code ≡ pos 1)
    × (string_at after.client_named_pipe_path 0 pipe_name_size ≡ some (b'|' ∷ pipe))
    × (string_at after.box_name 0 box_name_size ≡ some [])
publisher_misread_example = publisher_misread [] idle pipe box refl (ground arith) (omega arith)

abbrev client : Client
client = record { opens = true; reads = []; writes = true ∷ [] }

abbrev image : ℕ → Image
image i = record { name = []; size = []; pub_activity = []; num_active_subs = [] }

-- A queue of one element.
abbrev one : Queue
one = record {
  pcq_buffer = record { allocated = true; size = 1; at = λ i. 7 };
  pcq_capacity = 1;
  pcq_current_size = 1;
  pcq_head = 0;
  pcq_tail = 0;
}

one-IsFifo : IsFifo one (7 ∷ [])
one-IsFifo = record {
  nonempty = omega arith;
  small = omega arith;
  buffer = refl;
  count = refl;
  bounded = omega arith;
  head = omega arith;
  tail = refl;
  elements = λ i h. ground arith;
}

abbrev waiting : Broker
waiting = record idle { queue = one }

subscriber_ignored_example :
    let after = decode [] (received (Subscriber.registration pipe box) waiting) in
    (after.op_code ≡ pos 0)
    × (q' : Queue) × IsFifo q' []
    × (thread_fun (λ calls call. pos 0) zeros image client after
        ≡ done tt (record after { queue = q' }))
subscriber_ignored_example =
    subscriber_ignored (λ calls call. pos 0) zeros image client [] waiting pipe box 7 [] refl
      one-IsFifo
