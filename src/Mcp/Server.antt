-- ===== src/Mcp/Server.antt =====
-- internal/mcp/server.go: dispatch of the messages of the host, and the loop that reads them.
use peerbus.Prelude.{
  ℕ, zero, suc, Text, text, same, is_empty, not, Bool, true, false, ◌||◌, List, [], ◌∷◌, ◌++◌,
  Option, none, some, if◌then◌else◌,
}
use peerbus.Wire.Json.{Json, Members, null, str, raw, arr, obj, end, member}
use peerbus.Wire.Control.{Frame}
use peerbus.Wire.Fields.{string_field, ◌>>=◌}
use peerbus.Mcp.Framing.{Read, got, failed, eof, read_message}
use peerbus.Mcp.Framing
use peerbus.Mcp.Rpc.{
  Decoder, Request, value_field, lenient_field, decode_request, parse_code, method_not_found,
  invalid_params, result_frame, error_frame, notification_frame,
}
use peerbus.Mcp.Tools.{
  Bus, Outcome, result, bad_arguments, failure, unknown_tool, call_tool, tools_list_result,
  tool_error_result,
}

abbrev pub protocol_version : Text
protocol_version = text "2025-06-18"

-- `out` holds the messages that were written, oldest first; `bus` is the state of the bus.
pub record Server (S : Type 0) : Type 0 where
  pub bus : S
  pub out : List Json
  pub initialized : Bool
  pub server_name : Text
  pub channel : Bool
  pub hide_drain : Bool

-- NewServer, and the three options.
abbrev pub new_server : {S : Type 0} → S → Server S
new_server bus = record {
  bus = bus;
  out = [];
  initialized = false;
  server_name = text "peerbus-generic-adapter";
  channel = false;
  hide_drain = false;
}

abbrev pub with_server_name : {S : Type 0} → Text → Server S → Server S
with_server_name name s = record s { server_name = name }

abbrev pub with_channel_capability : {S : Type 0} → Server S → Server S
with_channel_capability s = record s { channel = true }

abbrev pub without_drain : {S : Type 0} → Server S → Server S
without_drain s = record s { hide_drain = true }

-- `write`, of a message whose marshalling succeeds.
unfoldable pub write : {S : Type 0} → Json → Server S → Server S
write frame s = record s { out = s.out ++ frame ∷ [] }

unfoldable pub notify : {S : Type 0} → Text → Json → Server S → Server S
unfolding write
notify method params s = write (notification_frame method params) s

experimental : Bool → Members → Members
experimental false ms = ms
experimental true ms =
    member (text "experimental") (obj (member (text "claude/channel") (obj end) end)) ms

-- The version of the host, or the server's own.
abbrev or_own : Text → Text
or_own [] = protocol_version
or_own (c ∷ v) = c ∷ v

-- The params are optional, and errors in them are ignored.
requested_version : Option Json → Text
unfolding lenient_field
requested_version (some (obj ms)) = lenient_field (text "protocolversion") [] ms
requested_version _ = []

unfoldable pub initialize_result : {S : Type 0} → Option Json → Server S → Json
unfolding experimental requested_version
initialize_result params s = obj (
    member (text "capabilities")
      (obj (experimental s.channel (member (text "tools") (obj end) end)))
      (member (text "protocolVersion") (str (or_own (requested_version params))) (
        member (text "serverInfo")
          (obj (
            member (text "name") (str s.server_name)
              (member (text "version") (str (text "1")) end)))
          end)))

-- The params of tools/call.
pub record Call : Type 0 where
  pub name : Text
  pub arguments : Option Json

call_members : Members → Option Call
call_members ms = do
  name ← string_field (text "name") [] ms
  some (record { name = name; arguments = value_field (text "arguments") none ms })

-- Absent params are no JSON text.
unfoldable pub decode_call : Option Json → Option Call
unfolding call_members
decode_call none = none
decode_call (some null) = call_members end
decode_call (some (obj ms)) = call_members ms
decode_call (some _) = none

-- The arguments are absent, null or an object.
abbrev pub is_object_or_absent : Option Json → Bool
is_object_or_absent none = true
is_object_or_absent (some null) = true
is_object_or_absent (some (obj ms)) = true
is_object_or_absent (some (str t)) = false
is_object_or_absent (some (raw t)) = false
is_object_or_absent (some (arr xs)) = false

abbrev pub is_present : Option Json → Bool
is_present none = false
is_present (some id) = true

module _ (j : Decoder) (b : Bus) where
  unfoldable pub write_error : Option Json → Text → Text → Text → Server b.State → Server b.State
  unfolding write
  write_error id code message data_ s = write (error_frame id code message data_) s

  unfoldable pub write_result : Option Json → Json → Server b.State → Server b.State
  unfolding write
  write_result id value s = write (result_frame id value) s

  -- What a tool gave is a result, a protocol error, or a result that reports an error.
  unfoldable pub answer : Option Json → Text → Outcome → Server b.State → Server b.State
  unfolding write_error write_result
  answer id name (result value) s = write_result id value s
  answer id name (bad_arguments e) s = write_error id invalid_params (text "invalid params") e s
  answer id name unknown_tool s = write_error id method_not_found (text "unknown tool") name s
  answer id name (failure e) s = write_result id (tool_error_result e) s

  unfoldable pub run_tool : Option Json → Call → Server b.State → Server b.State
  unfolding answer
  run_tool id c s =
      let (o, bus) = call_tool j b c.name c.arguments s.bus in
      answer id c.name o (record s { bus = bus })

  unfoldable pub checked_call :
      Option Json → Option Json → Option Call → Server b.State → Server b.State
  unfolding write_error run_tool
  checked_call id params none s =
      write_error id invalid_params (text "invalid params") (j.error_text params) s
  checked_call id params (some c) s =
      if is_empty c.name
      then write_error id invalid_params (text "invalid params")
          (text "tools/call: missing tool name") s
      else if not (is_object_or_absent c.arguments)
      then write_error id invalid_params (text "invalid params")
          (text "tools/call: arguments must be an object") s
      else run_tool id c s

  -- A call without an id is ignored.
  unfoldable pub handle_tools_call : Request → Server b.State → Server b.State
  unfolding checked_call
  handle_tools_call req s =
      if is_present req.id then checked_call req.id req.params (decode_call req.params) s else s

  -- The switch on the method.
  unfoldable pub route : Request → Server b.State → Server b.State
  unfolding write_result write_error handle_tools_call
  route req s =
      if same req.method (text "initialize")
      then write_result req.id (initialize_result req.params s) s
      else if same req.method (text "notifications/initialized")
          || same req.method (text "initialized")
      then record s { initialized = true }
      else if same req.method (text "ping")
      then if is_present req.id then write_result req.id (obj end) s else s
      else if same req.method (text "tools/list")
      then write_result req.id (tools_list_result s.hide_drain) s
      else if same req.method (text "tools/call")
      then handle_tools_call req s
      else if is_present req.id
      then write_error req.id method_not_found (text "method not found") req.method s
      else s

  unfoldable pub route_decoded : Frame → Option Request → Server b.State → Server b.State
  unfolding write_error route
  route_decoded f none s = write_error none parse_code (text "parse error") (j.error_text f) s
  route_decoded f (some req) s = route req s

  unfoldable pub dispatch : Text → Server b.State → Server b.State
  unfolding route_decoded
  dispatch message s = route_decoded (j.parse message) (decode_request (j.parse message)) s

  -- The read loop, on fuel for the messages, with the error that ends it; `none` is the end of the
  -- input, and an outer `none` a lack of fuel. An empty message is skipped.
  unfoldable pub serve : ℕ → Text → Server b.State → Option (Option Framing.Error × Server b.State)
  serve zero input s = none
  serve (suc fuel) input s = elim (read_message input) [
    | failed eof ↦ some (none, s)
    | failed e ↦ some (some e, s)
    | got [] rest ↦ serve fuel rest s
    | got (c ∷ m) rest ↦ serve fuel rest (dispatch (c ∷ m) s)
  ]
