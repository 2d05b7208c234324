-- ===== src/Adapter/Client.antt =====
-- internal/adapter/client.go: one connection to the broker, with what it sends and receives.
pub mod Delivery
pub mod Await
use peerbus.Prelude.{
  ◌≡◌, ap, ℕ, ◌+◌, Text, text, same, is_empty, Bool, true, false, ◌||◌, not, List, [], ◌∷◌, ◌++◌,
  Option, none, some, length, ltb, if◌then◌else◌,
}
use peerbus.Wire.Json.{Json}
use peerbus.Wire.Envelope.{Envelope, Syntax, protocol_version, kind_msg, kind_broadcast, encode}
use peerbus.Wire.Socket.{arrives}
use peerbus.Wire.Control.{
  Frame, Register, Ack, Peers, Deliver, control_register, control_ack, control_peers,
  control_deliver, control_type_of, encode_register, encode_ack, encode_peers, decode_peers,
  decode_deliver,
}
use peerbus.Hmac
use peerbus.Hmac.{Sha256, sign_envelope, verify_envelope, min_secret_len}

-- What the client relies on: SHA-256, the syntax of JSON, and the socket, which may fail the n-th
-- write.
pub record World : Type 0 where
  pub sha256 : Sha256
  pub syntax : Syntax
  pub write_fails : ℕ → Bool

pub record Config : Type 0 where
  pub token : Text
  pub name : Text
  pub hmac_secret : Text

-- `open_` says that there is a live socket; `sent` holds the frames that were written, oldest first,
-- and `sunk` what was forwarded to the sink for peers, while one is installed.
pub record Client : Type 0 where
  pub cfg : Config
  pub open_ : Bool
  pub sent : List Json
  pub writes : ℕ
  pub has_sink : Bool
  pub sunk : List (List Text)

unfoldable pub new_client : Config → Client
new_client cfg = record {
  cfg = cfg;
  open_ = false;
  sent = [];
  writes = 0;
  has_sink = false;
  sunk = [];
}

pub data Error : Type 0 where
  not_connected write_failed read_failed : Error
  hmac_error : Hmac.Error → Error
  dial_failed name_claimed register_rejected ack_not_text unexpected_ack : Error
  deliver_decode missing_delivery_key inbound_hmac peers_decode : Error

-- A nil error is `none`.
abbrev pub Outcome : Type 0
Outcome = Option Error × Client

-- What `Recv` gives: a verified frame, or an error with the frame where there is one.
abbrev pub Received : Type 0
Received = Option Deliver × Option Error

-- What a read of the socket gives: a text within the read limit, or an error, also where the text is
-- longer; `claimed` is the close of a refused name.
pub data Read : Type 0 where
  failed claimed binary : Read
  frame : Frame → Read

abbrev read_result : Option Frame → Read
read_result none = failed
read_result (some f) = frame f

-- A read of the broker's frame, under the read limit.
unfoldable pub read_frame : Json → Read
read_frame j = read_result (arrives j)

pub read_frame-arrives : (j : Json) → arrives j ≡ some (some j) → read_frame j ≡ frame (some j)
unfolding read_frame
read_frame-arrives j e = ap read_result e

module _ (w : World) where
  -- writeJSON on a socket.
  unfoldable pub write : Error → Json → Client → Outcome
  write e frame_ c =
      let c' : Client = record c { writes = c.writes + 1 } in
      if w.write_fails c.writes
      then (some e, c')
      else (none, record c' { sent = c.sent ++ frame_ ∷ [] })

  send_signed : Hmac.Result Envelope → Client → Outcome
  send_signed (Hmac.err e) c = (some (hmac_error e), c)
  send_signed (Hmac.ok env) c = write write_failed (encode env) c

  unfoldable pub send_envelope : Envelope → Client → Outcome
  unfolding send_signed write
  send_envelope env c =
      if c.open_
      then send_signed (sign_envelope w.sha256 w.syntax c.cfg.hmac_secret env) c
      else (some not_connected, c)

  abbrev pub outgoing : Text → Text → Text → Text → Text → Text → Client → Envelope
  outgoing id to ts source kind body c = record {
    protocol_version = protocol_version;
    id = id;
    from = c.cfg.name;
    to = to;
    ts = ts;
    source = source;
    kind = kind;
    body = body;
    hmac = [];
  }

  unfoldable pub send : Text → Text → Text → Text → Text → Client → Outcome
  unfolding send_envelope
  send id to ts source body c = send_envelope (outgoing id to ts source kind_msg body c) c

  unfoldable pub broadcast : Text → Text → Text → Text → Client → Outcome
  unfolding send_envelope
  broadcast id ts source body c =
      send_envelope (outgoing id (text "*") ts source kind_broadcast body c) c

  unfoldable pub ack : Text → Client → Outcome
  unfolding write
  ack id c =
      if c.open_
      then write write_failed
          (encode_ack (record { protocol_version = protocol_version; kind = control_ack; id = id }))
          c
      else (some not_connected, c)

  unfoldable pub request_peers : Client → Outcome
  unfolding write
  request_peers c =
      if c.open_
      then write write_failed
          (encode_peers
            (record { protocol_version = protocol_version; kind = control_peers; names = [] }))
          c
      else (some not_connected, c)

  -- The reply to the register frame.
  handshake_reply : Read → Client → Outcome
  handshake_reply failed c = (some register_rejected, c)
  handshake_reply claimed c = (some name_claimed, c)
  handshake_reply binary c = (some ack_not_text, c)
  handshake_reply (frame f) c = elim (control_type_of f) [
    | none ↦ (some unexpected_ack, c)
    | some ct ↦
        if same ct control_peers
        then (none, record c { open_ = true })
        else (some unexpected_ack, c)
  ]

  after_register : Option Error → Read → Client → Outcome
  after_register (some e) reply c = (some e, c)
  after_register none reply c = handshake_reply reply c

  -- `dialled` says that the dial succeeds, `reply` is the first read.
  unfoldable pub connect : Bool → Read → Client → Outcome
  unfolding handshake_reply after_register write
  connect dialled reply c =
      if ltb (length c.cfg.hmac_secret) min_secret_len
      then (some (hmac_error Hmac.short_secret), c)
      else if not dialled
      then (some dial_failed, c)
      else let (e, c') =
          write write_failed
            (encode_register (record {
              protocol_version = protocol_version;
              kind = control_register;
              token = c.cfg.token;
              name = c.cfg.name;
            }))
            c in
        after_register e reply c'

  unfoldable pub close : Client → Client
  close c = record c { open_ = false }

  unfoldable pub set_peers_sink : Bool → Client → Client
  set_peers_sink on c = record c { has_sink = on }

  sink_peers : Option Peers → Client → Client
  sink_peers none c = c
  sink_peers (some p) c = record c { sunk = c.sunk ++ p.names ∷ [] }

  -- The sink takes every reply here; a full channel would drop it.
  unfoldable pub forward_peers : Frame → Client → Client
  unfolding sink_peers
  forward_peers f c = if c.has_sink then sink_peers (decode_peers f) c else c

  verdict : Hmac.Result (Unit {0}) → Deliver → Received
  verdict (Hmac.ok _) d = (some d, none)
  verdict (Hmac.err _) d = (some d, some inbound_hmac)

  unfoldable pub check_deliver : Option Deliver → Client → Received
  unfolding verdict
  check_deliver none c = (none, some deliver_decode)
  check_deliver (some d) c =
      if is_empty d.delivery_key
      then (some d, some missing_delivery_key)
      else verdict (verify_envelope w.sha256 w.syntax c.cfg.hmac_secret d.envelope) d

  -- `Recv`, with the reads that the socket gives; the reads that are left come back.
  unfoldable pub recv_loop : List Read → Client → Received × List Read × Client
  recv_loop [] c = ((none, some read_failed), [], c)
  recv_loop (failed ∷ rs) c = ((none, some read_failed), rs, c)
  recv_loop (claimed ∷ rs) c = ((none, some read_failed), rs, c)
  recv_loop (binary ∷ rs) c = recv_loop rs c
  recv_loop (frame f ∷ rs) c = elim (control_type_of f) [
    | none ↦ recv_loop rs c
    | some ct ↦
        let skipped = recv_loop rs c in
        let sunk = recv_loop rs (forward_peers f c) in
        if same ct control_deliver
        then (check_deliver (decode_deliver f) c, rs, c)
        else if same ct control_peers
        then sunk
        else skipped
  ]

  unfoldable pub recv : List Read → Client → Received × List Read × Client
  unfolding recv_loop
  recv rs c = if c.open_ then recv_loop rs c else ((none, some not_connected), rs, c)
