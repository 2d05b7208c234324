-- ===== src/Mcp/Rpc.antt =====
-- internal/mcp/server.go: the JSON-RPC messages that are read and written.
use peerbus.Prelude.{Text, text, same, [], Option, none, some, if◌then◌else◌}
use peerbus.Prelude.Strings.{fold_name}
use peerbus.Wire.Json.{Json, Members, null, str, raw, obj, end, member}
use peerbus.Wire.Control.{Frame}
use peerbus.Wire.Fields.{string_field, ◌>>=◌}

-- encoding/json, of which the code uses what a text is parsed to, `none` if it is no JSON text, and
-- what the error says where a value does not fit.
pub record Decoder : Type 0 where
  pub parse : Text → Frame
  pub error_text : Frame → Text

-- A json.RawMessage that is absent is `none`.
pub record Request : Type 0 where
  pub method : Text
  pub id : Option Json
  pub params : Option Json

unfoldable pub value_field : Text → Option Json → Members → Option Json
value_field k old end = old
value_field k old (member j v ms) = value_field k (if same (fold_name j) k then some v else old) ms

request_members : Members → Option Request
request_members ms = do
  version ← string_field (text "jsonrpc") [] ms
  method ← string_field (text "method") [] ms
  some (record {
    method = method;
    id = value_field (text "id") none ms;
    params = value_field (text "params") none ms;
  })

-- json.Unmarshal(raw, &req); `none` is an error.
unfoldable pub decode_request : Frame → Option Request
unfolding request_members
decode_request (some null) = request_members end
decode_request (some (obj ms)) = request_members ms
decode_request _ = none

-- A string field where errors are ignored: a value of another type leaves it as it is.
keep_string : Text → Json → Text
keep_string old (str t) = t
keep_string old _ = old

unfoldable pub lenient_field : Text → Text → Members → Text
unfolding keep_string
lenient_field k old end = old
lenient_field k old (member j v ms) =
    lenient_field k (if same (fold_name j) k then keep_string old v else old) ms

abbrev pub parse_code : Text
parse_code = text "-32700"

abbrev pub method_not_found : Text
method_not_found = text "-32601"

abbrev pub invalid_params : Text
invalid_params = text "-32602"

-- `omitempty` on the id.
with_id : Option Json → Members → Members
with_id none ms = ms
with_id (some id) ms = member (text "id") id ms

unfoldable pub response : Option Json → Members → Json
unfolding with_id
response id ms = obj (member (text "jsonrpc") (str (text "2.0")) (with_id id ms))

unfoldable pub result_frame : Option Json → Json → Json
result_frame id result = response id (member (text "result") result end)

unfoldable pub error_frame : Option Json → Text → Text → Text → Json
error_frame id code message data_ = response id (
    member (text "error")
      (obj (
        member (text "code") (raw code)
          (member (text "message") (str message) (member (text "data") (str data_) end))))
      end)

unfoldable pub notification_frame : Text → Json → Json
notification_frame method params = obj (
    member (text "jsonrpc") (str (text "2.0"))
      (member (text "method") (str method) (member (text "params") params end)))
