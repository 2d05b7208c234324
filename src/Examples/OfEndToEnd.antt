-- ===== src/Examples/OfEndToEnd.antt =====
-- A message from client to client at concrete inputs.
use peerbus.Prelude.{ℕ, zero, suc, text, true, List, [], ◌∷◌, Option, some}
use peerbus.Prelude.Hex
use peerbus.Hmac
use peerbus.Wire.Envelope.{canonical_bytes, kind_msg, kind_broadcast, Envelope, encode}
use peerbus.Broker.State.{Server, Conn, new_conn}
use peerbus.Adapter.Client.{Client, outgoing}
use peerbus.Fixtures.{client_world, digest, auth, token, alice, bob, store, client}

alice_client : Client
alice_client = record client { cfg = record client.cfg { name = alice } }

conns : ℕ → Conn
conns zero = record new_conn { name = bob }
conns (suc c) = record new_conn { name = alice }

-- Bob is on connection 0, and alice on connection 1.
connected : Server
connected = record {
  auth = auth;
  registry = record { name = bob; token = token; conn = 0 } ∷ [];
  store = store;
  audited = true;
  conns = conns;
  writes = 0;
}

unfoldable signed_by : Envelope → Envelope
signed_by e = record e { hmac = Hex.encode (digest (canonical_bytes e)) }

abbrev message : Envelope
message = outgoing client_world (text "m2") bob (text "T") (text "host") kind_msg [] alice_client

abbrev notice : Envelope
notice =
    outgoing client_world (text "m2") (text "*") (text "T") (text "host") kind_broadcast []
      alice_client
