-- ===== src/Broker/Router.antt =====
-- internal/broker/router.go: what the broker does with a frame of a registered peer.
use peerbus.Prelude.{
  ℕ, Text, text, same, is_empty, Bool, true, false, ◌||◌, List, [], ◌∷◌, ◌++◌, Option, none, some,
  if◌then◌else◌,
}
use peerbus.Wire.Json.{Json}
use peerbus.Wire.Envelope.{Envelope, protocol_version, kind_broadcast, encode, decode}
use peerbus.Wire.Control.{
  Frame, Ack, control_register, control_ack, control_peers, control_deliver, control_type_of,
  encode_peers, encode_deliver, decode_ack,
}
use peerbus.Store.{enqueue, mark_delivered, mark_acked}
use peerbus.Store.Schema.{Message}
use peerbus.Store.Handle.{Result, ok, err}
use peerbus.Broker.Registry.{get, names}
use peerbus.Broker.State.{World, Server, write_json, audit_event}

-- The row that the router asks the store to keep; the store sets the other columns.
abbrev pub message : Text → Text → Text → Envelope → Message
message id from to env = record {
  id = id;
  from = from;
  to = to;
  envelope = encode env;
  delivered = false;
  acked = false;
  attempts = 0;
  seq = 0;
  ts = 0;
}

-- env.ID + "|" + r
abbrev pub row_id : Text → Text → Text
row_id id recipient = id ++ (b'|' ∷ recipient)

abbrev pub deliver_frame : Text → Envelope → Json
deliver_frame key env = encode_deliver (record {
  protocol_version = protocol_version;
  kind = control_deliver;
  delivery_key = key;
  envelope = env;
})

-- The reply to a handshake, and to a request for the peers.
abbrev pub peers_reply : Server → Json
peers_reply s =
    encode_peers (record {
      protocol_version = protocol_version;
      kind = control_peers;
      names = names s.registry;
    })

module _ (w : World) where
  -- What follows a successful write: the row is marked, an error of that being logged, and the
  -- delivery is audited.
  unfoldable pub mark_and_audit : Message → Text → Server → Server
  mark_and_audit m recipient s =
      audit_event w (text "deliver") m.id m.from recipient
        (record s { store = (mark_delivered w.driver m.id s.store).1 })

  -- The part of a delivery that `deliverTo` and `flushPending` share; `false` is a failed write.
  unfoldable pub push : ℕ → Text → Message → Envelope → Server → Bool × Server
  unfolding mark_and_audit
  push c recipient m env s =
      let (done, s') = write_json w c (deliver_frame m.id env) s in
      if done then (true, mark_and_audit m recipient s') else (false, s')

  unfoldable pub deliver_env : Option Envelope → ℕ → Text → Message → Server → Server
  deliver_env none c recipient m s = s
  deliver_env (some env) c recipient m s = (push c recipient m env s).1

  unfoldable pub deliver_on : Option ℕ → Text → Message → Server → Server
  deliver_on none recipient m s = s
  deliver_on (some c) recipient m s = deliver_env (decode m.envelope) c recipient m s

  -- A recipient that is not connected, or an envelope that cannot be read, leaves the row pending.
  unfoldable pub deliver_to : Text → Message → Server → Server
  unfolding deliver_on deliver_env
  deliver_to recipient m s = deliver_on (get recipient s.registry) recipient m s

  -- A stored message is audited and delivered; any error of the store drops it.
  unfoldable pub after_enqueue : Result (Unit {0}) → Message → Server → Server
  after_enqueue (err _) m s = s
  after_enqueue (ok _) m s = deliver_to m.to m (audit_event w (text "send") m.id m.from m.to s)

  unfoldable pub send_row : Message → Server → Server
  unfolding after_enqueue
  send_row m s =
      let (r, st) = enqueue w.driver m s.store in after_enqueue r m (record s { store = st })

  unfoldable pub route_direct : Text → Envelope → Server → Server
  route_direct from env s = send_row (message env.id from env.to env) s

  -- The loop over the recipients, without the sender.
  unfoldable pub fan_out : Text → Envelope → List Text → Server → Server
  fan_out from env [] s = s
  fan_out from env (r ∷ rs) s =
      fan_out from env rs
        (if same r from then s else send_row (message (row_id env.id r) from r env) s)

  -- The recipients are those that are registered now.
  unfoldable pub route_broadcast : Text → Envelope → Server → Server
  route_broadcast from env s = fan_out from env (names s.registry) s

  unfoldable pub route_envelope : Text → Envelope → Server → Server
  route_envelope from env s =
      if same env.to (text "*")
      then if same env.kind kind_broadcast then route_broadcast from env s else s
      else if same env.kind kind_broadcast
      then s
      else route_direct from env s

  unfoldable pub after_ack : Result (Unit {0}) → Ack → Text → Server → Server
  after_ack (err _) ack from s = s
  after_ack (ok _) ack from s = audit_event w (text "ack") ack.id from [] s

  unfoldable pub handle_ack : Ack → Text → Server → Server
  unfolding after_ack
  handle_ack ack from s =
      if is_empty ack.id
      then s
      else let (r, st) = mark_acked w.driver ack.id s.store in
        after_ack r ack from (record s { store = st })

  unfoldable pub handle_peers : ℕ → Server → Server
  handle_peers c s = (write_json w c (peers_reply s) s).1

  unfoldable pub decode_frame : Frame → Option Envelope
  decode_frame none = none
  decode_frame (some j) = decode j

  unfoldable pub route_decoded : ℕ → Option Envelope → Server → Server
  route_decoded c none s = s
  route_decoded c (some env) s =
      if is_empty env.id || is_empty env.to then s else route_envelope (s.conns c).name env s

  -- A frame that is no control frame.
  unfoldable pub route_data : ℕ → Frame → Server → Server
  unfolding decode_frame route_decoded
  route_data c data_ s = route_decoded c (decode_frame data_) s

  unfoldable pub route_ack : Option Ack → ℕ → Server → Server
  route_ack none c s = s
  route_ack (some ack) c s = handle_ack ack (s.conns c).name s

  unfoldable pub route_typed : Option Text → ℕ → Frame → Server → Server
  route_typed none c data_ s = route_data c data_ s
  route_typed (some ct) c data_ s =
      if same ct control_ack
      then route_ack (decode_ack data_) c s
      else if same ct control_peers
      then handle_peers c s
      else if same ct control_register
      then s
      else if same ct control_deliver
      then s
      else route_data c data_ s

  unfoldable pub route_frame : ℕ → Frame → Server → Server
  unfolding route_typed
  route_frame c data_ s = route_typed (control_type_of data_) c data_ s
