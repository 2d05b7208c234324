-- ===== src/EndToEnd.antt =====
-- internal/adapter/client.go, internal/broker/router.go, internal/hmac: a message on its way from the client
-- that sends it, through the broker, to the client that receives it.
use peerbus.Prelude.{◌≡◌, Text, true, List, ◌∷◌, none, some}
use peerbus.Wire.Envelope.{protocol_version, Envelope, encode, received}
use peerbus.Wire.Json.{Json}
use peerbus.Wire.Runes.{IsUtf8}
use peerbus.Wire.Unquote.{HasUtf8}
use peerbus.Wire.Socket.{fits}
use peerbus.Broker
use peerbus.Wire.Control.{control_deliver}
use peerbus.Hmac
use peerbus.Hmac.{verify_envelope}
use peerbus.Broker.State
use peerbus.Broker.State.{Server, Conn, audit_event}
use peerbus.Broker.Router.{deliver_frame}
use peerbus.Adapter.Client
use peerbus.Adapter.Client.{Client, Read, recv}

module _ (v : Client.World) where
  -- The client reads the frame, and takes it without an error for the envelope under the key.
  abbrev pub Takes : Text → Envelope → List Read → Client → Type 0
  Takes key e rs c = recv v (Client.read_frame (deliver_frame key e) ∷ rs) c ≡ (
    (
      some (record {
        protocol_version = protocol_version;
        kind = control_deliver;
        delivery_key = key;
        envelope = e;
      }),
      none,
    ),
    rs,
    c,
  )

  -- The signed envelope and the broker's frame for it are no longer than a read may be, and all
  -- strings in them are valid UTF-8.
  pub record Fits (key : Text) (e signed : Envelope) : Type 0 where
    pub utf8 : HasUtf8 e
    pub key_utf8 : IsUtf8 key
    pub sent : fits (encode signed) ≡ true
    pub delivered : fits (deliver_frame key (received signed)) ≡ true
