-- ===== src/Examples/OfThreads.antt =====
-- internal/broker: goroutines at concrete schedules.
use peerbus.Prelude.{
  In, inl, inr, ◌%◌, ◌==◌, Bool-cases, ℕ, zero, suc, ◌≡◌, refl, arith, text, true, false, List, [],
  ◌∷◌, ◌++◌, map, none, some, not, if◌then◌else◌, length,
}
use peerbus.Wire.Envelope.{encode}
use peerbus.Wire.Control.{encode_register}
use peerbus.Store.Schema.{Message, known}
use peerbus.Broker.Registry.{Binding, find}
use peerbus.Broker.Server.{Read, frame, failed}
use peerbus.Broker.Server
use peerbus.Broker.Auth.{valid}
use peerbus.Store.Invariant.{IsWellformed}
use peerbus.Audit.Chain.{IsChain}
use peerbus.Broker.Threads.{System, run_alone, exec, done}
use peerbus.Broker.Threads.Handlers.{serve_http}
use peerbus.Broker.Threads.Contract.{WasSent, Ended, Grows}
use peerbus.Broker.Threads.Always.{
  opening, exec-IsChain, exec-IsWellformed, exec-Grows, delivered-WasSent, bound-known,
  returned-Ended,
}
use peerbus.Fixtures.{world, auth, token, alice, bob, hello, hello_message, register_bob}

-- Connections 0 and 2 are of bob, of which the first is lost, and connection 1 of alice, who sends one
-- message to bob.
first : ℕ → Read
first zero = frame (some (encode_register register_bob))
first (suc zero) = frame (some (encode_register (record register_bob { name = alice })))
first (suc (suc zero)) = frame (some (encode_register register_bob))
first _ = failed

rest : ℕ → List Read
rest zero = failed ∷ []
rest (suc zero) = frame (some (encode hello)) ∷ []
rest _ = []

times : ℕ → ℕ → List ℕ
times zero i = []
times (suc n) i = i ∷ times n i

-- Connection 2 takes bob over between the write to connection 0 and the mark of the row; then the
-- goroutine of connection 0 hangs up.
race : List ℕ
race = times 9 0 ++ times 15 1 ++ times 5 2 ++ times 1 1 ++ times 5 2 ++ times 2 0

raced : System
raced = exec race (opening world auth first rest)

-- The message is marked as delivered, and is not acked.
row : Message
row = record hello_message { ts = 17 }

bob_at_2 : Binding
bob_at_2 = record { name = bob; token = token; conn = 2 }

-- Bob's live connection was sent nothing but the reply to its handshake, though its goroutine has
-- flushed what was pending; the message waits for the next reconnect.
raced-outcome :
    In row raced.server.store.tables.messages
    × (length (raced.server.conns 2).sent ≡ 1)
    × (find bob raced.server.registry ≡ some bob_at_2)
    × (raced.threads 0 ≡ done)
unfolding raced row bob_at_2 race times first rest peerbus.Broker.Threads.look
    peerbus.Broker.Threads.call peerbus.Broker.Threads.write peerbus.Broker.Threads.audit
    peerbus.Broker.Threads.advance peerbus.Broker.Threads.exec peerbus.Broker.Threads.Router.push
    peerbus.Broker.Threads.Router.deliver_env peerbus.Broker.Threads.Router.deliver_on
    peerbus.Broker.Threads.Router.deliver_to peerbus.Broker.Threads.Router.after_enqueue
    peerbus.Broker.Threads.Router.send_row peerbus.Broker.Threads.Router.route_direct
    peerbus.Broker.Threads.Router.route_envelope peerbus.Broker.Threads.Router.route_decoded
    peerbus.Broker.Threads.Router.route_data peerbus.Broker.Threads.Router.route_typed
    peerbus.Broker.Threads.Router.route_frame peerbus.Broker.Threads.Handlers.bind_step
    peerbus.Broker.Threads.Handlers.name_step peerbus.Broker.Threads.Handlers.flush
    peerbus.Broker.Threads.Handlers.flush_rows peerbus.Broker.Threads.Handlers.flush_pending
    peerbus.Broker.Threads.Handlers.welcome peerbus.Broker.Threads.Handlers.after_bind
    peerbus.Broker.Threads.Handlers.after_register peerbus.Broker.Threads.Handlers.admit
    peerbus.Broker.Threads.Handlers.after_checks peerbus.Broker.Threads.Handlers.after_decode
    peerbus.Broker.Threads.Handlers.handshake peerbus.Broker.Threads.Handlers.serve
    peerbus.Broker.Threads.Handlers.serve_http peerbus.Store.register peerbus.Store.enqueue
    peerbus.Store.pending_for peerbus.Store.mark_delivered peerbus.Store.requeue_unacked
    peerbus.Store.audit_append peerbus.Store.audit_last peerbus.Store.Schema.known
    peerbus.Store.Schema.upsert_peer peerbus.Store.Schema.holds peerbus.Store.Schema.order_by
    peerbus.Store.Schema.newest peerbus.Broker.Registry.find peerbus.Broker.Registry.put
    peerbus.Broker.Registry.bind peerbus.Broker.Registry.get peerbus.Broker.Auth.any_match
    peerbus.Broker.Auth.valid peerbus.Broker.Router.route_data peerbus.Broker.State.close_taken_over
    peerbus.Broker.State.write_json peerbus.Broker.State.audit_event peerbus.Broker.Server.refusal
    peerbus.Wire.Control.control_type_of peerbus.Wire.Control.encode_register
    peerbus.Wire.Control.decode_register peerbus.Wire.Envelope.check_version
    peerbus.Wire.Envelope.encode peerbus.Wire.Envelope.decode peerbus.Wire.Fields.string_field
    peerbus.Audit.genesis_prev_hash peerbus.Audit.chain_hash peerbus.Audit.link peerbus.Audit.append
    peerbus.Prelude.Strings.fold_name peerbus.Prelude.Bytes.Text-discrete peerbus.Prelude.Hex.encode
    peerbus.Broker.Threads.Handlers.hang_up peerbus.Broker.Threads.Handlers.remove_step
    peerbus.Broker.State.close_normal peerbus.Wire.Fields.raw_field peerbus.Store.Schema.next_of
    peerbus.Wire.Print.print peerbus.Wire.Print.compact peerbus.Wire.Print.after
    peerbus.Broker.Registry.remove
raced-outcome = (inl refl, refl, refl, refl)

exec-IsChain_example :
    IsChain world.blake3 (exec race (opening world auth first rest)).server.store.tables
exec-IsChain_example = exec-IsChain world auth first rest race

exec-IsWellformed_example :
    IsWellformed (exec race (opening world auth first rest)).server.store.tables
exec-IsWellformed_example = exec-IsWellformed world auth first rest race

exec-Grows_example :
    Grows
      (exec (times 9 0) (opening world auth first rest)).server
      (exec (times 9 0 ++ times 17 1) (opening world auth first rest)).server
exec-Grows_example = exec-Grows world auth first rest (times 9 0) (times 17 1)

raced-row : In row (exec race (opening world auth first rest)).server.store.tables.messages
unfolding raced
raced-row = raced-outcome.0

row-delivered : row.delivered ≡ true
unfolding row
row-delivered = refl

delivered-WasSent_example : WasSent row.id (exec race (opening world auth first rest)).server
delivered-WasSent_example = delivered-WasSent world auth first rest race row raced-row row-delivered

raced-bound : find bob (exec race (opening world auth first rest)).server.registry ≡ some bob_at_2
unfolding raced
raced-bound = raced-outcome.2

bound-known_example :
    (known bob (exec race (opening world auth first rest)).server.store.tables.peers ≡ true)
    × (valid auth bob_at_2.token ≡ true)
bound-known_example = bound-known world auth first rest race bob bob_at_2 raced-bound

raced-done : (exec race (opening world auth first rest)).threads 0 ≡ done
unfolding raced
raced-done = raced-outcome.3

returned-Ended_example : Ended 0 (exec race (opening world auth first rest)).server
returned-Ended_example = returned-Ended world auth first rest race 0 raced-done
