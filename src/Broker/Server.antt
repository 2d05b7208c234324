-- ===== src/Broker/Server.antt =====
-- internal/broker/server.go: the handshake, the flush of the pending queue, and the read loop.
use peerbus.Prelude.{
  ◌≡◌, ap, ℕ, Text, same, is_empty, List, [], ◌∷◌, Option, none, some, not, if◌then◌else◌,
}
use peerbus.Wire.Envelope.{decode, check_version}
use peerbus.Wire.Json.{Json}
use peerbus.Wire.Socket.{arrives}
use peerbus.Wire.Control.{Frame, Register, control_register, decode_register}
use peerbus.Store.{register, requeue_unacked, pending_for}
use peerbus.Store.Schema.{Message}
use peerbus.Store.Handle.{Result, ok, err}
use peerbus.Broker.Auth.{valid}
use peerbus.Broker.Registry.{Bound, fresh, taken_over, bind, remove}
use peerbus.Broker.State.{
  World, Server, Reason, no_handshake_frame, not_text, malformed_handshake, not_register,
  bad_version, empty_name, bad_token, persistence_failed, name_claimed, ack_failed, bye, going_away,
  set_conn, close_taken_over, close_normal, write_json,
}
use peerbus.Broker.Router.{peers_reply, push, route_frame}

-- What a read of the socket gives: a text within the read limit, or an error, also where the text is
-- longer.
pub data Read : Type 0 where
  failed binary cancelled : Read
  frame : Frame → Read

abbrev read_result : Option Frame → Read
read_result none = failed
read_result (some f) = frame f

-- A read of a client's frame, under the read limit.
unfoldable pub read_frame : Json → Read
read_frame j = read_result (arrives j)

pub read_frame-arrives : (j : Json) → arrives j ≡ some (some j) → read_frame j ≡ frame (some j)
unfolding read_frame
read_frame-arrives j e = ap read_result e

-- The checks of the register frame, in the order of the code.
unfoldable pub refusal : Server → Register → Option Reason
refusal s reg =
    if not (same reg.kind control_register)
    then some not_register
    else if not (check_version reg.protocol_version)
    then some bad_version
    else if is_empty reg.name
    then some empty_name
    else if not (valid s.auth reg.token)
    then some bad_token
    else none

module _ (w : World) where
  -- The loop over the pending rows: one that cannot be decoded is skipped, and a failed write ends
  -- the loop.
  unfoldable pub flush : ℕ → List Message → Server → Server
  flush c [] s = s
  flush c (m ∷ ms) s = elim (decode m.envelope) [
    | none ↦ flush c ms s
    | some env ↦
        let (done, s') = push w c (s.conns c).name m env s in
        let rest = flush c ms s' in if done then rest else s'
  ]

  unfoldable pub flush_rows : ℕ → Result (List Message) → Server → Server
  flush_rows c (err _) s = s
  flush_rows c (ok ms) s = flush c ms s

  unfoldable pub flush_pending : ℕ → Server → Server
  unfolding flush_rows
  flush_pending c s =
      let (r, st) = pending_for w.driver (s.conns c).name s.store in
      flush_rows c r (record s { store = st })

  -- Behind a successful bind: requeue, the handshake reply, then the flush.
  unfoldable pub welcome : ℕ → Register → Server → Option Text × Server
  welcome c reg s0 =
      let s : Server = record s0 { store = (requeue_unacked w.driver reg.name s0.store).1 } in
      let (done, s') = write_json w c (peers_reply s) s in
      if done
      then (
        some reg.name,
        flush_pending c (set_conn c (record (s'.conns c) { name = reg.name }) s'),
      )
      else (
        none,
        close_normal c ack_failed (record s' { registry = remove reg.name c s'.registry }),
      )

  -- The registry has closed the connection that is taken over.
  unfoldable pub after_bind : Bound → ℕ → Register → Server → Option Text × Server
  after_bind fresh c reg s = welcome c reg s
  after_bind (taken_over old) c reg s = welcome c reg (close_taken_over old s)
  after_bind Bound.name_claimed c reg s = (none, close_normal c name_claimed s)

  unfoldable pub after_register : Result (Unit {0}) → ℕ → Register → Server → Option Text × Server
  after_register (err _) c reg s = (none, close_normal c persistence_failed s)
  after_register (ok _) c reg s =
      let (o, r) = bind (record { name = reg.name; token = reg.token; conn = c }) s.registry in
      after_bind o c reg (record s { registry = r })

  -- The peer row is written before the name can be routed to.
  unfoldable pub admit : ℕ → Register → Server → Option Text × Server
  unfolding after_bind after_register
  admit c reg s =
      let (r, st) = register w.driver reg.name s.store in
      after_register r c reg (record s { store = st })

  unfoldable pub after_checks : Option Reason → ℕ → Register → Server → Option Text × Server
  after_checks (some why) c reg s = (none, close_normal c why s)
  after_checks none c reg s = admit c reg s

  unfoldable pub after_decode : Option Register → ℕ → Server → Option Text × Server
  after_decode none c s = (none, close_normal c malformed_handshake s)
  after_decode (some reg) c s = after_checks (refusal s reg) c reg s

  -- `none` is a refused handshake.
  unfoldable pub handshake : ℕ → Read → Server → Option Text × Server
  unfolding after_checks after_decode
  handshake c failed s = (none, close_normal c no_handshake_frame s)
  handshake c cancelled s = (none, close_normal c no_handshake_frame s)
  handshake c binary s = (none, close_normal c not_text s)
  handshake c (frame data_) s = after_decode (decode_register data_) c s

  -- The read loop over what the socket gives up to some moment, until the connection is closed or a
  -- read fails; what is no text is ignored.
  unfoldable pub serve : ℕ → List Read → Server → Server
  serve c [] s = s
  serve c (failed ∷ rs) s = s
  serve c (cancelled ∷ rs) s = if (s.conns c).closed then s else close_normal c going_away s
  serve c (binary ∷ rs) s = if (s.conns c).closed then s else serve c rs s
  serve c (frame data_ ∷ rs) s =
      let rest = serve c rs (route_frame w c data_ s) in if (s.conns c).closed then s else rest

  -- The deferred calls of ServeHTTP, once `serve` has returned.
  unfoldable pub hang_up : ℕ → Text → Server → Server
  hang_up c name s =
      let s' = close_normal c bye s in record s' { registry = remove name c s'.registry }

  unfoldable pub after_handshake : Option Text → ℕ → List Read → Server → Server
  after_handshake none c rs s = s
  after_handshake (some name) c rs s = hang_up c name (serve c rs s)

  -- One connection, from its handshake to its end, a read that fails behind `rs`.
  unfoldable pub serve_http : ℕ → Read → List Read → Server → Server
  unfolding after_handshake
  serve_http c first rs s = let (name, s') = handshake c first s in after_handshake name c rs s'
