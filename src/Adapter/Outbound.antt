-- ===== src/Adapter/Outbound.antt =====
-- internal/adapter/reconnect.go and generic.go: what a mode asks of the resuming client, over the
-- current connection.
pub mod Laws
use peerbus.Prelude.{
  ℕ, ◌+◌, Text, text, same, is_empty, not, Bool, true, false, List, [], ◌∷◌, keep, Option, none,
  some, if◌then◌else◌,
}
use peerbus.Prelude.Hex
use peerbus.Mcp.Tools.{Answer, done, failed}
use peerbus.Adapter.Client.{World, Client, Error, not_connected, request_peers, set_peers_sink}
use peerbus.Adapter.Client
use peerbus.Adapter.Resume.{Session}

-- What ends the wait for a reply of the broker.
pub data Wait : Type 0 where
  replied : List Text → Wait
  cancelled timed_out : Wait

-- What a mode takes from its surroundings: the text of an error, the bytes of the n-th random draw, the
-- time at the n-th message, and the end of the n-th wait.
pub record Host : Type 0 where
  pub error_text : Error → Text
  pub cancelled_text : Text
  pub random : ℕ → Text
  pub now : ℕ → Text
  pub wait : ℕ → Wait

-- ResumingClient. `published` says that a connection has been stored as the current one.
pub record Resuming : Type 0 where
  pub session : Session
  pub published : Bool
  pub minted : ℕ
  pub waits : ℕ

abbrev pub name : Resuming → Text
name r = r.session.client.cfg.name

unfoldable pub client : Resuming → Option Client
client r = if r.published then some r.session.client else none

-- The client after an operation that was given it.
unfoldable pub with_client : Client → Resuming → Resuming
with_client c r = record r { session = record r.session { client = c } }

unfoldable pub filter_self : List Text → Text → List Text
filter_self names self = if is_empty self then names else keep (λ n. not (same n self)) names

abbrev pub default_source : Text
default_source = text "peer-bus"

-- Of 16 random bytes.
unfoldable pub new_msg_id : Text → Text
new_msg_id bytes = Hex.encode bytes

module _ (w : World) (h : Host) where
  unfoldable pub sent : Option Error × Client → Resuming → Answer (Unit {0}) × Resuming
  sent (none, c) r = (done tt, record (with_client c r) { minted = r.minted + 1 })
  sent (some e, c) r = (failed (h.error_text e), record (with_client c r) { minted = r.minted + 1 })

  send_over : Option Client → Text → Text → Resuming → Answer (Unit {0}) × Resuming
  unfolding sent
  send_over none to body r = (failed (h.error_text not_connected), r)
  send_over (some c) to body r =
      sent
        (Client.send w (new_msg_id (h.random r.minted)) to (h.now r.minted) default_source body c) r

  unfoldable pub send : Text → Text → Resuming → Answer (Unit {0}) × Resuming
  unfolding send_over client
  send to body r = send_over (client r) to body r

  broadcast_over : Option Client → Text → Resuming → Answer (Unit {0}) × Resuming
  unfolding sent
  broadcast_over none body r = (failed (h.error_text not_connected), r)
  broadcast_over (some c) body r =
      sent
        (Client.broadcast w (new_msg_id (h.random r.minted)) (h.now r.minted) default_source body c)
        r

  unfoldable pub broadcast : Text → Resuming → Answer (Unit {0}) × Resuming
  unfolding broadcast_over client
  broadcast body r = broadcast_over (client r) body r

  unfoldable pub reply : Wait → Text → Answer (Text × List Text)
  reply (replied names) self = done (self, filter_self names self)
  reply cancelled self = failed h.cancelled_text
  reply timed_out self = failed (text "adapter: peers reply timed out")

  -- The request was written, or not; the deferred call removes the sink.
  requested : Text → Option Error × Client → Resuming → Answer (Text × List Text) × Resuming
  unfolding reply set_peers_sink
  requested self (some e, c) r = (failed (h.error_text e), with_client (set_peers_sink w false c) r)
  requested self (none, c) r = (
    reply (h.wait r.waits) self,
    record (with_client (set_peers_sink w false c) r) { waits = r.waits + 1 },
  )

  peers_over : Option Client → Resuming → Answer (Text × List Text) × Resuming
  unfolding requested
  peers_over none r = (failed (h.error_text not_connected), r)
  peers_over (some c) r = requested (name r) (request_peers w (set_peers_sink w true c)) r

  -- The sink is installed before the request, and the pump forwards the reply to it meanwhile.
  unfoldable pub peers : Resuming → Answer (Text × List Text) × Resuming
  unfolding peers_over client
  peers r = peers_over (client r) r
