-- ===== src/Broker/Threads/Router.antt =====
-- internal/broker/router.go: the handlers as programs of atomic steps. `next` is what the goroutine
-- does once the handler has returned.
use peerbus.Prelude.{
  ℕ, Text, text, same, is_empty, Bool, true, false, ◌||◌, List, [], ◌∷◌, Option, none, some,
  if◌then◌else◌,
}
use peerbus.Wire.Envelope.{Envelope, kind_broadcast, decode}
use peerbus.Wire.Control.{
  Frame, Ack, control_register, control_ack, control_peers, control_deliver, control_type_of,
  decode_ack,
}
use peerbus.Store.{enqueue, mark_delivered, mark_acked}
use peerbus.Store.Schema.{Message}
use peerbus.Store.Handle.{Result, ok, err}
use peerbus.Broker.Registry.{get, names}
use peerbus.Broker.State.{World}
use peerbus.Broker.Router.{message, row_id, deliver_frame, peers_reply, decode_frame}
use peerbus.Broker.Threads.{Prog, look, call, write, audit}

module _ (w : World) where
  -- The frame is written, then the row is marked, then the delivery is audited; others may run in
  -- between.
  unfoldable pub push : ℕ → Text → Message → Envelope → (Bool → Prog) → Prog
  push c recipient m env k = write w c (deliver_frame m.id env) (λ done.
      if done
      then call (mark_delivered w.driver m.id)
          (λ _. audit w (text "deliver") m.id m.from recipient (k true))
      else k false)

  unfoldable pub deliver_env : Option Envelope → ℕ → Text → Message → Prog → Prog
  deliver_env none c recipient m next = next
  deliver_env (some env) c recipient m next = push c recipient m env (λ _. next)

  unfoldable pub deliver_on : Option ℕ → Text → Message → Prog → Prog
  deliver_on none recipient m next = next
  deliver_on (some c) recipient m next = deliver_env (decode m.envelope) c recipient m next

  -- The registry is asked under its mutex, which is released before the write.
  unfoldable pub deliver_to : Text → Message → Prog → Prog
  deliver_to recipient m next =
      look (λ s. get recipient s.registry) (λ o. deliver_on o recipient m next)

  unfoldable pub after_enqueue : Result (Unit {0}) → Message → Prog → Prog
  after_enqueue (err _) m next = next
  after_enqueue (ok _) m next = audit w (text "send") m.id m.from m.to (deliver_to m.to m next)

  unfoldable pub send_row : Message → Prog → Prog
  send_row m next = call (enqueue w.driver m) (λ r. after_enqueue r m next)

  unfoldable pub route_direct : Text → Envelope → Prog → Prog
  route_direct from env next = send_row (message env.id from env.to env) next

  unfoldable pub fan_out : Text → Envelope → List Text → Prog → Prog
  fan_out from env [] next = next
  fan_out from env (r ∷ rs) next =
      let rest = fan_out from env rs next in
      if same r from then rest else send_row (message (row_id env.id r) from r env) rest

  -- The recipients are those of one moment; peers may come and go while the copies are sent.
  unfoldable pub route_broadcast : Text → Envelope → Prog → Prog
  route_broadcast from env next = look (λ s. names s.registry) (λ rs. fan_out from env rs next)

  unfoldable pub route_envelope : Text → Envelope → Prog → Prog
  route_envelope from env next =
      if same env.to (text "*")
      then if same env.kind kind_broadcast then route_broadcast from env next else next
      else if same env.kind kind_broadcast
      then next
      else route_direct from env next

  unfoldable pub after_ack : Result (Unit {0}) → Ack → Text → Prog → Prog
  after_ack (err _) ack from next = next
  after_ack (ok _) ack from next = audit w (text "ack") ack.id from [] next

  unfoldable pub handle_ack : Ack → Text → Prog → Prog
  handle_ack ack from next =
      if is_empty ack.id
      then next
      else call (mark_acked w.driver ack.id) (λ r. after_ack r ack from next)

  unfoldable pub handle_peers : ℕ → Prog → Prog
  handle_peers c next = look (λ s. peers_reply s) (λ reply. write w c reply (λ _. next))

  unfoldable pub route_decoded : ℕ → Option Envelope → Prog → Prog
  route_decoded c none next = next
  route_decoded c (some env) next =
      if is_empty env.id || is_empty env.to
      then next
      else look (λ s. (s.conns c).name) (λ from. route_envelope from env next)

  unfoldable pub route_data : ℕ → Frame → Prog → Prog
  route_data c data_ next = route_decoded c (decode_frame w data_) next

  unfoldable pub route_ack : Option Ack → ℕ → Prog → Prog
  route_ack none c next = next
  route_ack (some ack) c next = look (λ s. (s.conns c).name) (λ from. handle_ack ack from next)

  unfoldable pub route_typed : Option Text → ℕ → Frame → Prog → Prog
  route_typed none c data_ next = route_data c data_ next
  route_typed (some ct) c data_ next =
      if same ct control_ack
      then route_ack (decode_ack data_) c next
      else if same ct control_peers
      then handle_peers c next
      else if same ct control_register
      then next
      else if same ct control_deliver
      then next
      else route_data c data_ next

  unfoldable pub route_frame : ℕ → Frame → Prog → Prog
  route_frame c data_ next = route_typed (control_type_of data_) c data_ next
