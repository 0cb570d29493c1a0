-- ===== src/Clients/Statuses.antt =====
-- With which status the publisher and the subscriber end.
use so_ii.Prelude.{Bool, true, false, List, [], ◌∷◌}
use so_ii.Clients.Publisher
use so_ii.Clients.Publisher.Main as PubMain
use so_ii.Clients.Subscriber
use so_ii.Clients.Subscriber.Main as SubMain
use so_ii.Clients.Subscriber.Main.{Event, arrived, failed, interrupted}

-- Whether a read fails before the signal.
pub read_fails : List Event → Bool
read_fails [] = false
read_fails (arrived bytes ∷ events) = read_fails events
read_fails (failed ∷ events) = true
read_fails (interrupted ∷ events) = false
