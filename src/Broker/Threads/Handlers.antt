-- ===== src/Broker/Threads/Handlers.antt =====
-- internal/broker/server.go and registry.go: the life of a connection as a program of atomic steps.
use peerbus.Prelude.{ℕ, Text, List, [], ◌∷◌, Option, none, some, if◌then◌else◌}
use peerbus.Wire.Envelope.{decode}
use peerbus.Wire.Control.{Register, decode_register}
use peerbus.Store.{register, requeue_unacked, pending_for}
use peerbus.Store.Schema.{Message}
use peerbus.Store.Handle.{Result, ok, err}
use peerbus.Broker.Registry.{Binding, Bound, fresh, taken_over, bind, remove}
use peerbus.Broker.State.{
  World, Reason, no_handshake_frame, not_text, malformed_handshake, persistence_failed,
  name_claimed, ack_failed, bye, going_away, set_conn, close_taken_over, close_normal,
}
use peerbus.Broker.Router.{peers_reply}
use peerbus.Broker.Server.{Read, failed, binary, cancelled, frame, refusal}
use peerbus.Broker.Threads.{Prog, done, blocked, step, look, atomic, call, write}
use peerbus.Broker.Threads.Router.{push, route_frame}

-- The registry installs the binding under its mutex.
unfoldable pub bind_step : Binding → (Bound → Prog) → Prog
bind_step b k =
    step (λ s. record s { registry = (bind b s.registry).1 }) (λ s. k (bind b s.registry).0)

unfoldable pub remove_step : Text → ℕ → Prog → Prog
remove_step name c next = atomic (λ s. record s { registry = remove name c s.registry }) next

-- pc.name = reg.Name
unfoldable pub name_step : Text → ℕ → Prog → Prog
name_step name c next = atomic (λ s. set_conn c (record (s.conns c) { name = name }) s) next

-- Of a refused handshake nothing is left to do.
unfoldable pub refuse : ℕ → Reason → Prog
refuse c why = atomic (close_normal c why) done

-- The deferred calls of ServeHTTP.
unfoldable pub hang_up : ℕ → Text → Prog
hang_up c name = atomic (close_normal c bye) (remove_step name c done)

module _ (w : World) where
  unfoldable pub flush : ℕ → List Message → Prog → Prog
  flush c [] next = next
  flush c (m ∷ ms) next =
      let rest = flush c ms next in
      elim (decode m.envelope) [
        | none ↦ rest
        | some env ↦
            look (λ s. (s.conns c).name)
              (λ name. push w c name m env (λ sent. if sent then rest else next))
      ]

  unfoldable pub flush_rows : ℕ → Result (List Message) → Prog → Prog
  flush_rows c (err _) next = next
  flush_rows c (ok ms) next = flush c ms next

  unfoldable pub flush_pending : ℕ → Prog → Prog
  flush_pending c next =
      look (λ s. (s.conns c).name)
        (λ name. call (pending_for w.driver name) (λ r. flush_rows c r next))

  unfoldable pub welcome : ℕ → Register → Prog → Prog
  welcome c reg next = call (requeue_unacked w.driver reg.name) (λ _.
      look (λ s. peers_reply s)
        (λ reply. write w c reply (λ sent.
          if sent
          then name_step reg.name c (flush_pending c next)
          else remove_step reg.name c (refuse c ack_failed))))

  -- The registry closes the connection that is taken over, outside its mutex.
  unfoldable pub after_bind : Bound → ℕ → Register → Prog → Prog
  after_bind fresh c reg next = welcome c reg next
  after_bind (taken_over old) c reg next = atomic (close_taken_over old) (welcome c reg next)
  after_bind Bound.name_claimed c reg next = refuse c name_claimed

  unfoldable pub after_register : Result (Unit {0}) → ℕ → Register → Prog → Prog
  after_register (err _) c reg next = refuse c persistence_failed
  after_register (ok _) c reg next =
      bind_step (record { name = reg.name; token = reg.token; conn = c })
        (λ o. after_bind o c reg next)

  unfoldable pub admit : ℕ → Register → Prog → Prog
  admit c reg next = call (register w.driver reg.name) (λ r. after_register r c reg next)

  unfoldable pub after_checks : Option Reason → ℕ → Register → Prog → Prog
  after_checks (some why) c reg next = refuse c why
  after_checks none c reg next = admit c reg next

  -- The last argument is what follows a successful handshake under the name.
  unfoldable pub after_decode : Option Register → ℕ → (Text → Prog) → Prog
  after_decode none c next = refuse c malformed_handshake
  after_decode (some reg) c next =
      look (λ s. refusal s reg) (λ why. after_checks why c reg (next reg.name))

  unfoldable pub handshake : ℕ → Read → (Text → Prog) → Prog
  handshake c failed next = refuse c no_handshake_frame
  handshake c cancelled next = refuse c no_handshake_frame
  handshake c binary next = refuse c not_text
  handshake c (frame data_) next = after_decode (decode_register data_) c next

  -- Each round looks whether the connection is closed. The loop has no bound: the list is
  -- what its reads give in the run at hand, and behind it the goroutine waits in a read.
  unfoldable pub serve : ℕ → List Read → Prog → Prog
  serve c [] next = blocked
  serve c (failed ∷ rs) next = next
  serve c (cancelled ∷ rs) next =
      look (λ s. (s.conns c).closed)
        (λ closed. if closed then next else atomic (close_normal c going_away) next)
  serve c (binary ∷ rs) next =
      let rest = serve c rs next in
      look (λ s. (s.conns c).closed) (λ closed. if closed then next else rest)
  serve c (frame data_ ∷ rs) next =
      let rest = route_frame w c data_ (serve c rs next) in
      look (λ s. (s.conns c).closed) (λ closed. if closed then next else rest)

  -- ServeHTTP, once the socket is accepted.
  unfoldable pub serve_http : ℕ → Read → List Read → Prog
  serve_http c first rs = handshake c first (λ name. serve c rs (hang_up c name))
