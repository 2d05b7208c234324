-- ===== src/Examples/OfCc.antt =====
-- The cc mode of internal/adapter at concrete inputs.
use peerbus.Prelude.{List, [], ◌∷◌}
use peerbus.Adapter.Cc.Pushes.{Event, arrives, initializes, registers}
use peerbus.Fixtures.{deliver_hello}

-- A registration before the host is ready, the same delivery twice, and a registration after it.
events : List Event
events = registers ∷ arrives deliver_hello ∷ initializes ∷ registers ∷ arrives deliver_hello ∷ []
