-- ===== src/Broker/Provenance/Sender.antt =====
-- internal/broker/router.go: the sender of the rows that a frame adds.
use peerbus.Prelude.{
  ℕ, ◌≡◌, inl, inr, Text, text, same, is_empty, ◌||◌, List, [], Option, none, some, refl, ◌∙◌,
  Option-cases, Bool-cases,
}
use peerbus.Wire.Envelope.{Envelope, decode, kind_broadcast}
use peerbus.Wire.Control.{
  Frame, Ack, control_ack, control_peers, control_register, control_deliver, control_type_of,
  decode_ack,
}
use peerbus.Store.{mark_acked}
use peerbus.Store.Schema.{Message}
use peerbus.Store.Handle.{Result, ok, err}
use peerbus.Broker.Registry.{names}
use peerbus.Broker.State.{World, Server}
use peerbus.Broker.Router.{
  message, after_ack, route_typed, route_direct, route_broadcast, route_envelope, handle_ack,
  handle_peers, route_ack, route_data, route_frame, peers_reply,
}
use peerbus.Broker.Provenance.{
  IsStable, Adds, Adds-refl, Adds-trans, mark_acked-Adds, audit_event-Grown, store-write_json,
  send_row-Grown, fan_out-Grown,
}

-- The row is under this name.
abbrev pub IsFrom : Text → Message → Type 0
IsFrom n y = y.from ≡ n

IsFrom-stable : (n : Text) → IsStable (IsFrom n)
IsFrom-stable n x y v c = v.from ∙ c

module _ (w : World) (c : ℕ) (n : Text) (ms : List Message) where
  abbrev Sent : Server → Type 0
  Sent s = Adds (IsFrom n) ms s.store.tables.messages

  route_envelope-Sent : (env : Envelope) (s : Server) → Sent s → Sent (route_envelope w n env s)
  unfolding route_envelope route_broadcast route_direct
  route_envelope-Sent env s g =
      let all =
        fan_out-Grown w (IsFrom n) (IsFrom-stable n) ms n env (names s.registry) s
          (λ r i o seq ts. refl) g in
      let one =
        send_row-Grown w (IsFrom n) (IsFrom-stable n) ms (message env.id n env.to env) s
          (λ seq ts. refl) g in
      elim (Bool-cases (same env.to (text "*"))) [
        | inl e ↦ elim (Bool-cases (same env.kind kind_broadcast)) [
          | inl f ↦ rw (e, f, route_envelope) all
          | inr f ↦ rw (e, f, route_envelope) g
        ]
        | inr e ↦ elim (Bool-cases (same env.kind kind_broadcast)) [
          | inl f ↦ rw (e, f, route_envelope) g
          | inr f ↦ rw (e, f, route_envelope) one
        ]
      ]

  after_ack-Sent :
      (o : Result (Unit {0})) (a : Ack) (from : Text) (s : Server)
      → Sent s
      → Sent (after_ack w o a from s)
  unfolding after_ack
  after_ack-Sent (err _) a from s g = g
  after_ack-Sent (ok _) a from s g =
      audit_event-Grown w (IsFrom n) (IsFrom-stable n) ms (text "ack") a.id from [] s g

  handle_ack-Sent : (a : Ack) (from : Text) (s : Server) → Sent s → Sent (handle_ack w a from s)
  unfolding handle_ack
  handle_ack-Sent a from s g = elim (Bool-cases (is_empty a.id)) [
    | inl e ↦ rw (e, handle_ack) g
    | inr e ↦
        rw (e, handle_ack)
          (after_ack-Sent (mark_acked w.driver a.id s.store).0 a from
            (record s { store = (mark_acked w.driver a.id s.store).1 })
            (Adds-trans (IsFrom n) ms _ _ (IsFrom-stable n) g
              (mark_acked-Adds w (IsFrom n) (IsFrom-stable n) a.id s.store)))
  ]

  route_data-Sent :
      (f : Frame) (s : Server) → (s.conns c).name ≡ n → Sent s → Sent (route_data w c f s)
  unfolding route_data
  route_data-Sent none s h g = g
  route_data-Sent (some j) s h g = elim (Option-cases (decode j)) [
    | inl e ↦ rw (e, route_data) g
    | inr (env, e) ↦ elim (Bool-cases (is_empty env.id || is_empty env.to)) [
      | inl f ↦ rw (e, route_data, f) g
      | inr f ↦ rw (e, route_data, f, h) (route_envelope-Sent env s g)
    ]
  ]

  route_ack-Sent : (o : Option Ack) (s : Server) → Sent s → Sent (route_ack w o c s)
  unfolding route_ack
  route_ack-Sent none s g = g
  route_ack-Sent (some a) s g = handle_ack-Sent a (s.conns c).name s g

  handle_peers-Sent : (s : Server) → Sent s → Sent (handle_peers w c s)
  unfolding handle_peers
  handle_peers-Sent s g =
      rw (store-write_json w (IsFrom n) (IsFrom-stable n) ms c (peers_reply s) s) g

  route_typed-Sent :
      (o : Option Text) (f : Frame) (s : Server)
      → (s.conns c).name ≡ n
      → Sent s
      → Sent (route_typed w o c f s)
  unfolding route_typed
  route_typed-Sent none f s h g = route_data-Sent f s h g
  route_typed-Sent (some ct) f s h g = elim (Bool-cases (same ct control_ack)) [
    | inl e ↦ rw (e, route_typed) (route_ack-Sent (decode_ack f) s g)
    | inr e ↦ elim (Bool-cases (same ct control_peers)) [
      | inl p ↦ rw (e, p, route_typed) (handle_peers-Sent s g)
      | inr p ↦ elim (Bool-cases (same ct control_register)) [
        | inl r ↦ rw (e, p, r, route_typed) g
        | inr r ↦ elim (Bool-cases (same ct control_deliver)) [
          | inl d ↦ rw (e, p, r, d, route_typed) g
          | inr d ↦ rw (e, p, r, d, route_typed) (route_data-Sent f s h g)
        ]
      ]
    ]
  ]

-- Whatever a peer sends, and whatever fails, every row that its frame adds to the store is under the
-- name of its own connection, and every other row is a later state of one that was there.
pub route_frame_sender :
    (w : World) (c : ℕ) (f : Frame) (s : Server)
    → Adds
        (IsFrom (s.conns c).name)
        s.store.tables.messages
        (route_frame w c f s).store.tables.messages
unfolding route_frame
route_frame_sender w c f s =
    route_typed-Sent w c (s.conns c).name s.store.tables.messages (control_type_of f) f s refl
      (Adds-refl _ s.store.tables.messages)
