-- ===== src/Adapter/Cc.antt =====
-- internal/adapter/cc.go: the mode that pushes what arrives into the session of the host.
pub mod Rotation
pub mod Pushes
use peerbus.Prelude.{
  ℕ, zero, suc, ◌+◌, Text, text, is_empty, not, Bool, true, false, List, [], ◌∷◌, ◌++◌, Option,
  none, some, leb, if◌then◌else◌,
}
use peerbus.Wire.Envelope.{Envelope}
use peerbus.Wire.Control.{Deliver}
use peerbus.Mcp.Framing
use peerbus.Mcp.Rpc.{Decoder}
use peerbus.Mcp.Server.{Server, serve}
use peerbus.Channel.{OutboundBus, Inbound, bus_adapter, new_channel_server, announce_self, deliver}
use peerbus.Channel.Names.{Draw, unique_name}
use peerbus.Adapter.Dedupe.{seen}
use peerbus.Adapter.Client.{World, Config, Error, name_claimed, new_client, connect, Read}
use peerbus.Adapter.Client
use peerbus.Adapter.Resume.{surface}
use peerbus.Adapter.Outbound.{Host, Resuming, name}
use peerbus.Adapter.Outbound
use peerbus.Adapter.Generic.{new_resuming}

abbrev pub pushed : Envelope → Inbound
pushed env = record {
  id = env.id;
  from = env.from;
  source = env.source;
  kind = env.kind;
  body = env.body;
}

module _ (w : World) (h : Host) where
  -- ccBus as channel.OutboundBus.
  abbrev pub cc_bus : OutboundBus
  cc_bus = record {
    State = Resuming;
    send = Outbound.send w h;
    broadcast = Outbound.broadcast w h;
    peers = Outbound.peers w h;
  }

module _ (w : World) (j : Decoder) where
  unfoldable pub handle : Envelope → Server Resuming → Server Resuming
  unfolding deliver
  handle env s = deliver j (pushed env) s

  -- A delivery that the resume loop surfaces with `handle`, which never fails.
  unfoldable pub arrive : Deliver → Server Resuming → Server Resuming
  unfolding handle
  arrive del s =
      let s' : Server Resuming = record s {
        bus = record s.bus { session = surface w true del s.bus.session };
      } in
      if (seen del.envelope.id s.bus.session.dedupe).0 then s' else handle del.envelope s'

-- The callback of SetOnConnect, with the number of those that wait: it waits until the host has
-- initialized.
unfoldable pub on_connect : ℕ × Server Resuming → ℕ × Server Resuming
on_connect (n, s) = if s.initialized then (n, announce_self (name s.bus) s) else (suc n, s)

-- The callbacks that waited, each with its announcement.
unfoldable pub wake : ℕ → Server Resuming → Server Resuming
wake zero s = s
wake (suc n) s = wake n (announce_self (name s.bus) s)

-- The host has initialized.
unfoldable pub on_initialized : ℕ × Server Resuming → ℕ × Server Resuming
unfolding wake
on_initialized (n, s) = (0, wake n (record s { initialized = true }))

abbrev pub name_collision_retries : ℕ
name_collision_retries = 6

-- How the probe ends: with a configuration that the broker took, or with an error, of which the last
-- two are about the name.
pub data Probed : Type 0 where
  bound : Config → Probed
  failed : Error → Probed
  exhausted override_rejected : Text → Probed

-- The network as the probes meet it, in order, and the random bytes of the names.
pub record Network : Type 0 where
  pub dialled : ℕ → Bool
  pub first_read : ℕ → Read
  pub draw : ℕ → Draw

abbrev pub is_name_claimed : Error → Bool
is_name_claimed name_claimed = true
is_name_claimed _ = false

-- The name that a minted one gives the configuration; a panic leaves none.
renamed : Option Text → Config → Option Config
renamed none cfg = none
renamed (some n) cfg = some (record cfg { name = n })

module _ (w : World) (net : Network) (override : Text) where
  unfoldable pub probe_connect : ℕ → Config → Option Error
  probe_connect attempt cfg =
      (connect w (net.dialled attempt) (net.first_read attempt) (new_client cfg)).0

  unfoldable pub mint : ℕ → Config → Option Config
  unfolding renamed
  mint attempt cfg = renamed (unique_name override (net.draw attempt)) cfg

  -- The probes, on fuel for them, with the names that were tried; `none` is a lack of fuel or a panic.
  unfoldable pub probe : ℕ → ℕ → Config → List Text → Option (Probed × List Text)
  probe zero attempt cfg tried = none
  probe (suc fuel) attempt cfg tried =
      let tried' = tried ++ cfg.name ∷ [] in
      elim (probe_connect attempt cfg) [
        | none ↦ some (bound cfg, tried')
        | some e ↦ elim (is_name_claimed e) [
          | false ↦ some (failed e, tried')
          | true ↦ elim (leb name_collision_retries attempt) [
            | true ↦ some (exhausted cfg.name, tried')
            | false ↦ elim (is_empty override) [
              | false ↦ some (override_rejected cfg.name, tried')
              | true ↦ elim (mint (suc attempt) cfg) [
                | none ↦ none
                | some cfg' ↦ probe fuel (suc attempt) cfg' tried'
              ]
            ]
          ]
        ]
      ]

  named : Config → Option Config
  unfolding mint
  named cfg = if is_empty cfg.name then mint 0 cfg else some cfg

  probe_named : ℕ → Option Config → Option (Probed × List Text)
  unfolding probe
  probe_named fuel none = none
  probe_named fuel (some cfg) = probe fuel 0 cfg []

  -- The start of Run, on fuel for the probes.
  unfoldable pub rotate : ℕ → Config → Option (Probed × List Text)
  unfolding probe_named named
  rotate fuel cfg = probe_named fuel (named cfg)

module _ (w : World) (h : Host) (j : Decoder) where
  -- The session of the host, until its input ends.
  unfoldable pub run : ℕ → Text → Config → ℕ → Option (Option Framing.Error × Server Resuming)
  unfolding new_resuming
  run fuel input cfg dedupe_size =
      serve j (bus_adapter (cc_bus w h)) fuel input
        (new_channel_server (new_resuming cfg dedupe_size))
