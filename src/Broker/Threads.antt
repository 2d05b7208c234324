-- ===== src/Broker/Threads.antt =====
-- internal/broker: the goroutines that serve the connections, as programs of atomic steps on the
-- state that they share.
pub mod Router
pub mod Handlers
pub mod Alone
pub mod Lives
pub mod Soundness
pub mod Contract
pub mod Moves
pub mod Good
pub mod Routing
pub mod Serving
pub mod Life
pub mod Always
use peerbus.Prelude.{ℕ, Text, Bool, List, [], ◌∷◌, ◌==◌, if◌then◌else◌}
use peerbus.Wire.Json.{Json}
use peerbus.Store.Handle.{Store}
use peerbus.Broker.State.{World, Server, write_json, audit_event}

-- What a goroutine has left to do: nothing, as it has returned; nothing more in the run at hand, as it
-- waits for a read that gives nothing; or a step, and then what comes next. A step changes the state, and what comes next depends on the
-- state that it found.
pub data Prog : Type 0 where
  done blocked : Prog
  step : (Server → Server) → (Server → Prog) → Prog

-- No other goroutine runs.
unfoldable pub run_alone : Prog → Server → Server
run_alone done s = s
run_alone blocked s = s
run_alone (step f k) s = run_alone (k s) (f s)

-- A step that only reads the state.
unfoldable pub look : {A : Type 0} → (Server → A) → (A → Prog) → Prog
look g k = step (λ s. s) (λ s. k (g s))

unfoldable pub atomic : (Server → Server) → Prog → Prog
atomic f next = step f (λ s. next)

-- A call of the store: the driver runs one at a time.
unfoldable pub call : {A : Type 0} → (Store → A × Store) → (A → Prog) → Prog
call op k = step (λ s. record s { store = (op s.store).1 }) (λ s. k (op s.store).0)

module _ (w : World) where
  unfoldable pub write : ℕ → Json → (Bool → Prog) → Prog
  write c frame k = step (λ s. (write_json w c frame s).1) (λ s. k (write_json w c frame s).0)

  -- The appender holds its mutex from the read of the last row to the write of the next.
  unfoldable pub audit : Text → Text → Text → Text → Prog → Prog
  unfolding atomic
  audit kind id from to next = atomic (audit_event w kind id from to) next

-- The state, and what the goroutine of each connection has left to do.
pub record System : Type 0 where
  pub server : Server
  pub threads : ℕ → Prog

unfoldable pub advance_with : Prog → ℕ → System → System
advance_with done i y = y
advance_with blocked i y = y
advance_with (step f k) i y = record {
  server = f y.server;
  threads = λ j. if j == i then k y.server else y.threads j;
}

-- The goroutine of connection `i` makes one step, if it has neither returned nor waits.
unfoldable pub advance : ℕ → System → System
unfolding advance_with
advance i y = advance_with (y.threads i) i y

-- A schedule says whose step is next.
unfoldable pub exec : List ℕ → System → System
exec [] y = y
exec (i ∷ is) y = exec is (advance i y)
