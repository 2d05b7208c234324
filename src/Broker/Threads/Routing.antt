-- ===== src/Broker/Threads/Routing.antt =====
-- internal/broker/router.go: the handlers keep to the contract, if what follows them does.
use peerbus.Prelude.{ℕ, Text, text, List, [], ◌∷◌, Option, none, some, arith}
use peerbus.Wire.Envelope.{Envelope, decode}
use peerbus.Wire.Control.{Frame, Ack, control_type_of, decode_ack}
use peerbus.Store.{enqueue, mark_acked}
use peerbus.Store.Schema.{Tables, Message}
use peerbus.Store.Handle.{Result, ok, err}
use peerbus.Store.Changes.{enqueue-Changes, mark_acked-Changes}
use peerbus.Store.Delivered.{enqueue-FromDelivered, mark_acked-FromDelivered}
use peerbus.Broker.Registry.{get, names}
use peerbus.Broker.State.{World, Server}
use peerbus.Broker.Router.{message, row_id, peers_reply, decode_frame}
use peerbus.Broker.Keeps.{IsKept}
use peerbus.Broker.Threads.{Prog, look, write}
use peerbus.Broker.Threads.Router.{
  deliver_env, deliver_on, deliver_to, after_enqueue, send_row, route_direct, fan_out,
  route_broadcast, route_envelope, after_ack, handle_ack, handle_peers, route_decoded, route_data,
  route_ack, route_typed, route_frame,
}
use peerbus.Broker.Threads.Good.{
  Keeps, later, look-Keeps, call-Keeps, audit-Keeps, write-Keeps, push-Keeps,
}

module _ (w : World) (T : Tables → Type 0) (k : IsKept w T) (i : ℕ) where
  -- What follows may run in any later state.
  pub look_then :
      {A : Type 0} (g : Server → A) (next : A → Prog) (s : Server)
      → ((a : A) → Keeps w T k i (next a) s)
      → Keeps w T k i (look g next) s
  look_then g next s h =
      look-Keeps w T k i g next s (λ t l. later w T k i (next (g t)) s t l (h (g t)))

  deliver_env-Keeps :
      (o : Option Envelope) (c : ℕ) (r : Text) (m : Message) (next : Prog) (s : Server)
      → Keeps w T k i next s
      → Keeps w T k i (deliver_env w o c r m next) s
  unfolding deliver_env
  deliver_env-Keeps none c r m next s h = h
  deliver_env-Keeps (some env) c r m next s h = push-Keeps w T k i c r m env (λ _. next) s (λ _. h)

  deliver_on-Keeps :
      (o : Option ℕ) (r : Text) (m : Message) (next : Prog) (s : Server)
      → Keeps w T k i next s
      → Keeps w T k i (deliver_on w o r m next) s
  unfolding deliver_on
  deliver_on-Keeps none r m next s h = h
  deliver_on-Keeps (some c) r m next s h = deliver_env-Keeps (decode m.envelope) c r m next s h

  deliver_to-Keeps :
      (r : Text) (m : Message) (next : Prog) (s : Server)
      → Keeps w T k i next s
      → Keeps w T k i (deliver_to w r m next) s
  unfolding deliver_to
  deliver_to-Keeps r m next s h =
      look_then (λ t. get r t.registry) (λ o. deliver_on w o r m next) s
        (λ o. deliver_on-Keeps o r m next s h)

  after_enqueue-Keeps :
      (o : Result (Unit {0})) (m : Message) (next : Prog) (s : Server)
      → Keeps w T k i next s
      → Keeps w T k i (after_enqueue w o m next) s
  unfolding after_enqueue
  after_enqueue-Keeps (err _) m next s h = h
  after_enqueue-Keeps (ok _) m next s h =
      audit-Keeps w T k i (text "send") m.id m.from m.to _ s (deliver_to-Keeps m.to m next s h)

  send_row-Keeps :
      (m : Message) (next : Prog) (s : Server)
      → Keeps w T k i next s
      → Keeps w T k i (send_row w m next) s
  unfolding send_row
  send_row-Keeps m next s h =
      call-Keeps w T k i (enqueue w.driver m) (λ x. ⊥) _ s (λ st. enqueue-Changes w.driver st m)
        (λ st. enqueue-FromDelivered w.driver st m) (λ t l x e. absurd e)
        (λ o t l. after_enqueue-Keeps o m next t (later w T k i next s t l h))

  fan_out-Keeps :
      (from : Text) (env : Envelope) (rs : List Text) (next : Prog) (s : Server)
      → Keeps w T k i next s
      → Keeps w T k i (fan_out w from env rs next) s
  unfolding fan_out
  fan_out-Keeps from env [] next s h = h
  fan_out-Keeps from env (r ∷ rs) next s h =
      let rest = fan_out-Keeps from env rs next s h in
      ground (arith, rest, send_row-Keeps (message (row_id env.id r) from r env) _ s rest)

  route_envelope-Keeps :
      (from : Text) (env : Envelope) (next : Prog) (s : Server)
      → Keeps w T k i next s
      → Keeps w T k i (route_envelope w from env next) s
  unfolding route_envelope route_broadcast route_direct
  route_envelope-Keeps from env next s h =
      let broadcast =
        look_then (λ t. names t.registry) (λ rs. fan_out w from env rs next) s
          (λ rs. fan_out-Keeps from env rs next s h) in
      ground (arith, h, broadcast, send_row-Keeps (message env.id from env.to env) next s h)

  after_ack-Keeps :
      (o : Result (Unit {0})) (a : Ack) (from : Text) (next : Prog) (s : Server)
      → Keeps w T k i next s
      → Keeps w T k i (after_ack w o a from next) s
  unfolding after_ack
  after_ack-Keeps (err _) a from next s h = h
  after_ack-Keeps (ok _) a from next s h = audit-Keeps w T k i (text "ack") a.id from [] next s h

  handle_ack-Keeps :
      (a : Ack) (from : Text) (next : Prog) (s : Server)
      → Keeps w T k i next s
      → Keeps w T k i (handle_ack w a from next) s
  unfolding handle_ack
  handle_ack-Keeps a from next s h =
      let called =
        call-Keeps w T k i (mark_acked w.driver a.id) (λ x. ⊥) (λ r. after_ack w r a from next) s
          (λ st. mark_acked-Changes w.driver st a.id)
          (λ st. mark_acked-FromDelivered w.driver st a.id) (λ t l x e. absurd e)
          (λ o t l. after_ack-Keeps o a from next t (later w T k i next s t l h)) in
      ground (arith, h, called)

  handle_peers-Keeps :
      (c : ℕ) (next : Prog) (s : Server)
      → Keeps w T k i next s
      → Keeps w T k i (handle_peers w c next) s
  unfolding handle_peers
  handle_peers-Keeps c next s h =
      look_then (λ t. peers_reply t) (λ reply. write w c reply (λ _. next)) s
        (λ reply.
          write-Keeps w T k i c reply (λ _. next) s (λ t l _. later w T k i next s t l h)
            (λ t l. later w T k i next s t l h))

  route_decoded-Keeps :
      (c : ℕ) (o : Option Envelope) (next : Prog) (s : Server)
      → Keeps w T k i next s
      → Keeps w T k i (route_decoded w c o next) s
  unfolding route_decoded
  route_decoded-Keeps c none next s h = h
  route_decoded-Keeps c (some env) next s h =
      let routed =
        look_then (λ t. (t.conns c).name) (λ from. route_envelope w from env next) s
          (λ from. route_envelope-Keeps from env next s h) in
      ground (arith, h, routed)

  route_ack-Keeps :
      (o : Option Ack) (c : ℕ) (next : Prog) (s : Server)
      → Keeps w T k i next s
      → Keeps w T k i (route_ack w o c next) s
  unfolding route_ack
  route_ack-Keeps none c next s h = h
  route_ack-Keeps (some a) c next s h =
      look_then (λ t. (t.conns c).name) (λ from. handle_ack w a from next) s
        (λ from. handle_ack-Keeps a from next s h)

  route_typed-Keeps :
      (o : Option Text) (c : ℕ) (f : Frame) (next : Prog) (s : Server)
      → Keeps w T k i next s
      → Keeps w T k i (route_typed w o c f next) s
  unfolding route_typed route_data
  route_typed-Keeps none c f next s h = route_decoded-Keeps c (decode_frame w f) next s h
  route_typed-Keeps (some ct) c f next s h = ground (
    arith,
    h,
    route_ack-Keeps (decode_ack f) c next s h,
    handle_peers-Keeps c next s h,
    route_decoded-Keeps c (decode_frame w f) next s h,
  )

  -- Routing a frame.
  pub route_frame-Keeps :
      (c : ℕ) (f : Frame) (next : Prog) (s : Server)
      → Keeps w T k i next s
      → Keeps w T k i (route_frame w c f next) s
  unfolding route_frame
  route_frame-Keeps c f next s h = route_typed-Keeps (control_type_of f) c f next s h
