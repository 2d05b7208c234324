-- ===== src/Broker/Direct.antt =====
-- internal/broker/router.go: a message to one peer, on a broker where nothing fails.
use peerbus.Prelude.{
  ℕ, ◌+◌, ◌≡◌, ◌≢◌, Text, text, same, is_empty, true, false, ◌||◌, [], ◌∷◌, ◌++◌, some, arith, refl,
  ap, ◌∙◌, Text-discrete,
}
use peerbus.Wire.Envelope.{Envelope, encode, decode, received, kind_msg}
use peerbus.Wire.Transit.{decode-encode}
use peerbus.Wire.Control.{control_type_of-encode}
use peerbus.Store.{enqueue}
use peerbus.Store.Schema.{Message, known, holds}
use peerbus.Store.Handle.{Store, ok}
use peerbus.Broker.State
use peerbus.Broker.State.{Server, Conn, audit_event}
use peerbus.Broker.Registry.{get}
use peerbus.Broker.Router.{
  message, deliver_frame, deliver_to, send_row, route_direct, route_envelope, route_data,
  route_frame,
}
use peerbus.Broker.Redelivery.{IsQuiet, push-sent}

-- The broker can take a message from connection `a` for the peer `to` on connection `b`.
abbrev pub CanRoute : Text → Text → Text → ℕ → ℕ → Server → Type 0
CanRoute id from to a b s =
    ((s.conns a).name ≡ from)
    × (get to s.registry ≡ some b)
    × ((s.conns b).closed ≡ false)
    × (s.store.closed ≡ false)
    × (known to s.store.tables.peers ≡ true)
    × (holds id s.store.tables.messages ≡ false)

-- The names that a message needs, of which `to` is one peer.
abbrev pub IsAddress : Text → Text → Text → Type 0
IsAddress id from to = (id ≢ []) × (from ≢ []) × (to ≢ []) × (to ≢ text "*")

pub is_empty-false : (t : Text) → t ≢ [] → is_empty t ≡ false
is_empty-false [] h = absurd (h refl)
is_empty-false (x ∷ t) h = refl

module _ (w : State.World) (quiet : IsQuiet w) where
  pub enqueue-quiet :
      (m : Message) (st : Store)
      → st.closed ≡ false
      → is_empty m.id || (is_empty m.from || is_empty m.to) ≡ false
      → known m.to st.tables.peers ≡ true
      → holds m.id st.tables.messages ≡ false
      → (enqueue w.driver m st).0 ≡ ok tt
  unfolding enqueue
  enqueue-quiet m st o n k h = ground (
    arith,
    quiet.driver st.calls,
    quiet.driver (st.calls + 1),
    quiet.driver (st.calls + 1 + 1),
    quiet.driver (st.calls + 1 + 1 + 1),
    quiet.driver (st.calls + 1 + 1 + 1 + 1),
    quiet.driver (st.calls + 1 + 1 + 1 + 1 + 1),
    quiet.driver (st.calls + 1 + 1 + 1 + 1 + 1 + 1),
  )

  pub audit_event-same :
      (kind id from to : Text) (s : Server)
      → ((audit_event w kind id from to s).conns ≡ s.conns)
        × ((audit_event w kind id from to s).registry ≡ s.registry)
  unfolding audit_event
  audit_event-same kind id from to s = ground arith

  -- A row whose envelope can be read is written to the open connection of its recipient.
  deliver_to-sent :
      (r : Text) (m : Message) (env : Envelope) (b : ℕ) (s : Server)
      → get r s.registry ≡ some b
      → decode m.envelope ≡ some env
      → (s.conns b).closed ≡ false
      → ((deliver_to w r m s).conns b).sent ≡ (s.conns b).sent ++ deliver_frame m.id env ∷ []
  unfolding deliver_to
  deliver_to-sent r m env b s g d o = rw (g, deliver_to, d) (push-sent w quiet b r m env s o).1

  pub send_row-sent :
      (m : Message) (env : Envelope) (b : ℕ) (s : Server)
      → s.store.closed ≡ false
      → is_empty m.id || (is_empty m.from || is_empty m.to) ≡ false
      → known m.to s.store.tables.peers ≡ true
      → holds m.id s.store.tables.messages ≡ false
      → get m.to s.registry ≡ some b
      → decode m.envelope ≡ some env
      → (s.conns b).closed ≡ false
      → ((send_row w m s).conns b).sent ≡ (s.conns b).sent ++ deliver_frame m.id env ∷ []
  unfolding send_row
  send_row-sent m env b s so n k h g d o =
      let s' : Server = record s { store = (enqueue w.driver m s.store).1 } in
      let t : Server = audit_event w (text "send") m.id m.from m.to s' in
      let (conns, registry) = audit_event-same (text "send") m.id m.from m.to s' in
      let arrived =
        deliver_to-sent m.to m env b t (ap (get m.to) registry ∙ g) d
          (ap (λ (f : ℕ → Conn). (f b).closed) conns ∙ o) in
      rw (enqueue-quiet m s.store so n k h, send_row)
        (arrived ∙ ap (λ (f : ℕ → Conn). (f b).sent ++ deliver_frame m.id env ∷ []) conns)

  -- What the broker makes of an envelope for one peer.
  route_frame-direct :
      (a : ℕ) (e : Envelope) (s : Server)
      → is_empty e.id || is_empty e.to ≡ false
      → same e.to (text "*") ≡ false
      → e.kind ≡ kind_msg
      → route_frame w a (some (encode e)) s
        ≡ send_row w (message e.id (s.conns a).name e.to (received e)) s
  unfolding route_frame route_data route_envelope route_direct Text-discrete
  route_frame-direct a e s n star k =
      rw (control_type_of-encode, route_frame, decode-encode, n, star, k) refl

  -- A frame with an envelope for one peer is delivered, and nothing else is written to the peer.
  pub route_frame-sent :
      (e : Envelope) (from : Text) (a b : ℕ) (s : Server)
      → e.kind ≡ kind_msg
      → received (received e) ≡ received e
      → IsAddress e.id from e.to
      → CanRoute e.id from e.to a b s
      → ((route_frame w a (some (encode e)) s).conns b).sent
        ≡ (s.conns b).sent ++ deliver_frame e.id (received e) ∷ []
  route_frame-sent e from a b s k idem (ni, nf, nt, star) (name, g, o, so, known_, new) =
      let m = message e.id (s.conns a).name e.to (received e) in
      let ei = is_empty-false e.id ni in
      let ef = is_empty-false from nf in
      let et = is_empty-false e.to nt in
      let direct = route_frame-direct a e s (ground (arith, ei, et)) (ground (arith, star)) k in
      let filled : is_empty m.id || (is_empty m.from || is_empty m.to) ≡ false =
        ground (arith, ei, et, ef, name) in
      let arrived =
        send_row-sent m (received (received e)) b s so filled known_ new g
          (decode-encode (received e)) o in
      rw direct (arrived ∙ ap (λ x. (s.conns b).sent ++ deliver_frame e.id x ∷ []) idem)
