-- ===== src/Adapter/Cc/Pushes.antt =====
-- internal/adapter/cc.go: what the mode pushes to the host.
use peerbus.Prelude.{ℕ, text, zero, suc, ◌≡◌, Text, Bool, true, List, [], ◌∷◌, ◌++◌, if◌then◌else◌}
use peerbus.Wire.Json.{Json, Members, str, obj, end, member}
use peerbus.Wire.Envelope.{Envelope}
use peerbus.Wire.Control.{Deliver}
use peerbus.Mcp.Rpc.{Decoder}
use peerbus.Mcp.Server.{Server}
use peerbus.Channel.{format_inbound, antenna_sign}
use peerbus.Adapter.Dedupe.{contains}
use peerbus.Adapter.Client.{World}
use peerbus.Adapter.Resume.{surface}
use peerbus.Adapter.Outbound.{Resuming, name}
use peerbus.Adapter.Cc.{pushed, arrive, on_connect, on_initialized}

-- What happens at the adapter, in order: a delivery, the end of the handshake with the host, and a
-- registration at the broker.
pub data Event : Type 0 where
  arrives : Deliver → Event
  initializes registers : Event

-- A notification of the channel with a content and its meta data.
unfoldable pub channel_frame : Text → Members → Json
channel_frame content meta = obj (
    member (text "jsonrpc") (str (text "2.0")) (
      member (text "method") (str (text "notifications/claude/channel")) (
        member (text "params")
          (obj (member (text "content") (str content) (member (text "meta") (obj meta) end))) end)))

-- The notification that the host is to see of a message: its text, and the sender, the kind, the id
-- and the source.
unfoldable pub message_of : Decoder → Envelope → List Json
unfolding channel_frame
message_of j e =
    channel_frame (format_inbound j (pushed e)) (
      member (text "from") (str e.from) (
        member (text "kind") (str e.kind)
          (member (text "msg_id") (str e.id) (member (text "source") (str e.source) end))))
    ∷ []

-- The notification of the own name.
unfoldable pub hello_of : Text → List Json
unfolding channel_frame
hello_of self =
    channel_frame (antenna_sign ++ (text " connected as " ++ self))
      (member (text "kind") (str (text "system")) (member (text "self") (str self) end))
    ∷ []

abbrev hellos : ℕ → Text → List Json
hellos zero self = []
hellos (suc n) self = hello_of self ++ hellos n self

-- The specification: one message for each delivery whose id is new, when it first arrives, and the
-- own name for each registration, as soon as the host has initialized. `n` counts those that wait.
unfoldable pub pushes : Decoder → Text → List Text → ℕ → Bool → List Event → List Json
pushes j self known n on [] = []
pushes j self known n on (arrives del ∷ es) =
    let id = del.envelope.id in
    if contains id known
    then pushes j self known n on es
    else message_of j del.envelope ++ pushes j self (known ++ id ∷ []) n on es
pushes j self known n on (initializes ∷ es) = hellos n self ++ pushes j self known 0 true es
pushes j self known n on (registers ∷ es) =
    if on then hello_of self ++ pushes j self known n on es else pushes j self known (suc n) on es

abbrev pub Among : List Text → List Event → Type 0
Among ids [] = Unit
Among ids (arrives del ∷ es) = (contains del.envelope.id ids ≡ true) × Among ids es
Among ids (initializes ∷ es) = Among ids es
Among ids (registers ∷ es) = Among ids es

module _ (w : World) (j : Decoder) where
  -- With the number of the callbacks that wait.
  unfoldable pub run_events : List Event → ℕ × Server Resuming → ℕ × Server Resuming
  run_events [] p = p
  run_events (arrives del ∷ es) (n, s) = run_events es (n, arrive w j del s)
  run_events (initializes ∷ es) p = run_events es (on_initialized p)
  run_events (registers ∷ es) p = run_events es (on_connect p)

module _ (w : World) (j : Decoder) (ids : List Text) where
  abbrev surfaced : Deliver → Server Resuming → Server Resuming
  surfaced del s = record s { bus = record s.bus { session = surface w true del s.bus.session } }

  abbrev Writes : List Event → ℕ → Server Resuming → Type 0
  Writes es n s =
      (run_events w j es (n, s)).1.out
      ≡ s.out ++ pushes j (name s.bus) s.bus.session.consumed n s.initialized es
