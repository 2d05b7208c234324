-- ===== src/Adapter/Generic.antt =====
-- internal/adapter/generic.go: the mode that buffers what arrives until the host drains it.
pub mod Queue
use peerbus.Prelude.{
  ℕ, ◌≡◌, refl, Text, Bool, true, false, List, [], ◌∷◌, ◌++◌, Option, none, some, if◌then◌else◌,
}
use peerbus.Wire.Envelope.{Envelope}
use peerbus.Wire.Control.{Deliver}
use peerbus.Mcp.Framing
use peerbus.Mcp.Rpc.{Decoder}
use peerbus.Mcp.Tools.{Bus, Answer, done, Inbound}
use peerbus.Mcp.Server.{Server, new_server, serve}
use peerbus.Adapter.Dedupe.{seen, new_dedupe}
use peerbus.Adapter.Client.{World, Config, Client, Error, Read, new_client, connect, close}
use peerbus.Adapter.Resume.{Session, surface}
use peerbus.Adapter.Outbound.{Host, Resuming}
use peerbus.Adapter.Outbound

-- genericBus
pub record Generic : Type 0 where
  pub rc : Resuming
  pub pending : List Inbound

-- NewResumingClient, before its first connection.
unfoldable pub new_resuming : Config → ℕ → Resuming
new_resuming cfg dedupe_size = record {
  session = record {
    dedupe = new_dedupe dedupe_size;
    client = new_client cfg;
    consumed = [];
    offered = [];
    acked = [];
  };
  published = false;
  minted = 0;
  waits = 0;
}

unfoldable pub new_generic_bus : Config → ℕ → Generic
new_generic_bus cfg dedupe_size = record { rc = new_resuming cfg dedupe_size; pending = [] }

-- The client that an attempt of `connect` made is stored as the current one.
store_client : Option Error × Client → Resuming → Resuming
store_client (some e, c) r = r
store_client (none, c) r = record r { session = record r.session { client = c }; published = true }

-- An attempt of `connect`.
unfoldable pub redialled : World → Bool → Read → Resuming → Resuming
unfolding store_client
redialled w dialled reply r =
    store_client (connect w dialled reply (new_client r.session.client.cfg)) r

-- The end of a connection in `Run`: the client is closed, and stays the current one.
unfoldable pub dropped : World → Resuming → Resuming
dropped w r = record r { session = record r.session { client = close w r.session.client } }

pub redialled-keeps :
    (w : World) (dialled : Bool) (reply : Read) (r : Resuming)
    → ((redialled w dialled reply r).session.dedupe ≡ r.session.dedupe)
      × ((redialled w dialled reply r).session.consumed ≡ r.session.consumed)
unfolding redialled
redialled-keeps w dialled reply r =
    stored (connect w dialled reply (new_client r.session.client.cfg))
  where
    stored :
        (o : Option Error × Client)
        → ((store_client o r).session.dedupe ≡ r.session.dedupe)
          × ((store_client o r).session.consumed ≡ r.session.consumed)
    stored (some e, c) = (refl, refl)
    stored (none, c) = (refl, refl)

abbrev pub buffered : Envelope → Inbound
buffered env = record { id = env.id; from = env.from; source = env.source; body = env.body }

unfoldable pub handle : Envelope → Generic → Generic
handle env b = record b { pending = b.pending ++ buffered env ∷ [] }

unfoldable pub take : Generic → List Inbound × Generic
take b = (b.pending, record b { pending = [] })

unfoldable pub drain : Generic → Answer (List Inbound) × Generic
unfolding take
drain b = let (out, b') = take b in (done out, b')

-- An operation of the client, on the bus.
unfoldable pub on_client : {A : Type 0} → (Resuming → A × Resuming) → Generic → A × Generic
on_client f b = let (a, rc) = f b.rc in (a, record b { rc = rc })

module _ (w : World) (h : Host) where
  unfoldable pub send : Text → Text → Generic → Answer (Unit {0}) × Generic
  unfolding on_client
  send to body b = on_client (Outbound.send w h to body) b

  unfoldable pub broadcast : Text → Generic → Answer (Unit {0}) × Generic
  unfolding on_client
  broadcast body b = on_client (Outbound.broadcast w h body) b

  unfoldable pub peers : Generic → Answer (Text × List Text) × Generic
  unfolding on_client
  peers b = on_client (Outbound.peers w h) b

  -- genericBus as mcp.Bus.
  abbrev pub generic_bus : Bus
  generic_bus = record {
    State = Generic;
    send = send;
    broadcast = broadcast;
    peers = peers;
    drain = drain;
  }

  -- A delivery that the resume loop surfaces with `handle`, which never fails.
  unfoldable pub arrive : Deliver → Generic → Generic
  unfolding handle
  arrive del b =
      let b' : Generic = record b {
        rc = record b.rc { session = surface w true del b.rc.session };
      } in
      if (seen del.envelope.id b.rc.session.dedupe).0 then b' else handle del.envelope b'

  -- The session of the host, until its input ends.
  unfoldable pub run : Decoder → ℕ → Text → Generic → Option (Option Framing.Error × Server Generic)
  run j fuel input b = serve j generic_bus fuel input (new_server b)
