-- ===== src/Broker/History.antt =====
-- internal/broker: histories of the broker. Its connections are served in any interleaving of whole
-- handlers, with any failures of the database and of the network.
use peerbus.Prelude.{ℕ, Text, true, List, [], ◌∷◌}
use peerbus.Wire.Control.{Frame}
use peerbus.Store.{open_empty}
use peerbus.Store.Schema.{Tables, Message}
use peerbus.Store.Changes.{audit-Change}
use peerbus.Store.Invariant.{IsWellformed, Change-IsWellformed, no_rows-IsWellformed}
use peerbus.Store.Durable.{Carries, Carries-refl, Carries-Change}
use peerbus.Audit.Chain.{IsChain, append-IsChain, append-queue}
use peerbus.Broker.Auth.{Authenticator}
use peerbus.Broker.State.{World, Server, new_conn}
use peerbus.Broker.Router.{route_frame}
use peerbus.Broker.Server.{Read, handshake, hang_up}
use peerbus.Broker.Keeps.{IsKept, handshake-keeps, route_frame-keeps, hang_up-keeps}

-- One handler that runs for the connection `c`.
pub data Event : Type 0 where
  handshakes : (c : ℕ) → Read → Event
  routes : (c : ℕ) → Frame → Event
  hangs_up : (c : ℕ) → Text → Event

pub step : World → Event → Server → Server
step w (handshakes c r) s = (handshake w c r s).1
step w (routes c f) s = route_frame w c f s
step w (hangs_up c n) s = hang_up w c n s

pub run : World → List Event → Server → Server
unfolding step
run w [] s = s
run w (e ∷ es) s = run w es (step w e s)

-- A broker on a new database, before its first connection.
abbrev pub start : Authenticator → Server
start a = record {
  auth = a;
  registry = [];
  store = open_empty;
  audited = true;
  conns = λ c. new_conn;
  writes = 0;
}

module _ (w : World) where
  run-keeps :
      (P : Tables → Type 0)
      → IsKept w P
      → (es : List Event) (s : Server) → P s.store.tables
      → P (run w es s).store.tables
  unfolding run
  run-keeps P k [] s p = p
  run-keeps P k (handshakes c r ∷ es) s p =
      run-keeps P k es (handshake w c r s).1 (handshake-keeps w P k c r s p)
  run-keeps P k (routes c f ∷ es) s p =
      run-keeps P k es (route_frame w c f s) (route_frame-keeps w P k c f s p)
  run-keeps P k (hangs_up c n ∷ es) s p =
      run-keeps P k es (hang_up w c n s) (hang_up-keeps w P k c n s p)

  pub IsChain-kept : IsKept w (IsChain w.blake3)
  IsChain-kept = record {
    change = λ t u c p. rw (audit-Change c) p;
    log = λ event s p. append-IsChain w.blake3 w.driver event s p;
  }

  pub IsWellformed-kept : IsKept w IsWellformed
  IsWellformed-kept = record {
    change = λ t u c p. Change-IsWellformed c p;
    log = λ event s p.
        rw (append-queue w.blake3 w.driver event s) (record {
          ids = p.ids;
          addressed = p.addressed;
          numbered = p.numbered;
          rising = p.rising;
        });
  }

  Carries-kept : (ms : List Message) → IsKept w (λ t. Carries ms t.messages)
  Carries-kept ms = record {
    change = λ t u c p. Carries-Change ms c p;
    log = λ event s p. rw (append-queue w.blake3 w.driver event s) p;
  }

  -- After any history of a new broker, whatever failed, its audit log is a hash chain from genesis.
  pub run-IsChain :
      (a : Authenticator) (es : List Event) → IsChain w.blake3 (run w es (start a)).store.tables
  run-IsChain a es = run-keeps (IsChain w.blake3) IsChain-kept es (start a) tt

  -- After any history of a new broker, whatever failed, its tables are well formed: ids are unique,
  -- messages are to registered peers, and each sender's numbers rise and lie below its counter.
  pub run-IsWellformed :
      (a : Authenticator) (es : List Event) → IsWellformed (run w es (start a)).store.tables
  run-IsWellformed a es = run-keeps IsWellformed IsWellformed-kept es (start a) no_rows-IsWellformed

  -- Whatever the broker does from some state on, no message of the store is lost: its row stays in
  -- place with its id, sender, recipient, envelope, number and time, and stays acked once it is.
  pub run-Carries :
      (es : List Event) (s : Server)
      → Carries s.store.tables.messages (run w es s).store.tables.messages
  run-Carries es s =
      run-keeps (λ t. Carries s.store.tables.messages t.messages)
        (Carries-kept s.store.tables.messages) es s (Carries-refl s.store.tables.messages)
