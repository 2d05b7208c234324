-- ===== src/Examples/OfMcp.antt =====
-- internal/mcp at concrete inputs.
use peerbus.Prelude.{◌<◌, ◌≡◌, refl, arith, inl, text, [], ◌∷◌, Option, none, some}
use peerbus.Prelude.Strings.{atoi, digits, digits_from}
use peerbus.Wire.Json.{raw}
use peerbus.Mcp.Framing
use peerbus.Mcp.Loop.{
  Framed, line, counted, IsFramed, stream, deliver_all, serve-stream, serve-total,
}
use peerbus.Mcp.Rpc.{Request}
use peerbus.Mcp.Server.{Server, new_server, serve}
use peerbus.Mcp.Handshake.{IsSound, run_events, message, asked, new_gate, run_events-IsSound}
use peerbus.Adapter.Generic.{Generic, generic_bus}
use peerbus.Fixtures.{decoder, host, generic, client_world}

server : Server Generic
server = new_server generic

ping : Framed
ping = line (text "ping")

tools_list : Framed
tools_list = counted (text "10") (text "tools/list")

ping-IsFramed : IsFramed ping
unfolding ping
ping-IsFramed = ground arith

tools_list-IsFramed : IsFramed tools_list
unfolding tools_list atoi digits digits_from
tools_list-IsFramed = (ground arith, refl)

serve-stream_example :
    serve decoder (generic_bus client_world host) 3 (stream (ping ∷ tools_list ∷ [])) server
    ≡ some
        (none, deliver_all decoder (generic_bus client_world host) (ping ∷ tools_list ∷ []) server)
serve-stream_example =
    serve-stream decoder (generic_bus client_world host) (ping ∷ tools_list ∷ []) server
      (ping-IsFramed, (tools_list-IsFramed, tt))

five : 4 < 5
five = ground arith

serve-total_example :
    (r : Option Framing.Error × Server Generic) × (serve decoder
        (generic_bus client_world host)
        5
        (text "ping")
        server
      ≡ some r)
serve-total_example =
    serve-total decoder (generic_bus client_world host) 5 (text "ping") server five

unknown : Request
unknown = record { method = text "nothing"; id = some (raw (text "7")); params = none }

run_events-IsSound_example : IsSound (run_events (asked ∷ message ∷ message ∷ asked ∷ []) new_gate)
run_events-IsSound_example =
    run_events-IsSound (asked ∷ message ∷ message ∷ asked ∷ []) new_gate (refl, refl, inl refl)
