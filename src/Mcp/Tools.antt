-- ===== src/Mcp/Tools.antt =====
-- internal/mcp/tools.go: the bus.* tools.
use peerbus.Prelude.{
  Text, text, same, is_empty, Bool, true, false, List, [], ◌∷◌, ◌++◌, Option, none, some,
  if◌then◌else◌,
}
use peerbus.Wire.Json.{Json, Items, Members, null, str, raw, arr, obj, nil, cons, end, member}
use peerbus.Wire.Print.{print}
use peerbus.Wire.Fields.{string_field, items, ◌>>=◌}
use peerbus.Wire.Envelope.{body_value}
use peerbus.Mcp.Rpc.{Decoder, value_field}

-- An empty `body` is an absent one.
pub record Inbound : Type 0 where
  pub id : Text
  pub from : Text
  pub source : Text
  pub body : Text

-- What a call of the bus gives: a value, or the text of an error.
pub data Answer (A : Type 0) : Type 0 where
  done : A → Answer A
  failed : Text → Answer A

-- The bus that the tools delegate to, as the operations of its state.
pub record Bus : Type 1 where
  pub State : Type 0
  pub send : Text → Text → State → Answer (Unit {0}) × State
  pub broadcast : Text → State → Answer (Unit {0}) × State
  pub peers : State → Answer (Text × List Text) × State
  pub drain : State → Answer (List Inbound) × State

-- What `callTool` returns.
pub data Outcome : Type 0 where
  result : Json → Outcome
  bad_arguments failure : Text → Outcome
  unknown_tool : Outcome

abbrev pub bus_send : Text
bus_send = text "bus.send"

abbrev pub bus_broadcast : Text
bus_broadcast = text "bus.broadcast"

abbrev pub bus_peers : Text
bus_peers = text "bus.peers"

abbrev pub bus_drain : Text
bus_drain = text "bus.drain"

-- A property of a schema.
property : Text → Text → Text → Members → Members
property name kind description =
    member name
      (obj (member (text "description") (str description) (member (text "type") (str kind) end)))

body_property : Members
unfolding property
body_property = property (text "body") (text "object") (text "opaque application JSON payload") end

schema : Members → Members → Json
schema properties required = obj (member (text "properties") (obj properties) required)

-- The keys of a map are written in order: `type` follows `required`.
required : List Text → Members
required names =
    member (text "required") (arr (items names)) (member (text "type") (str (text "object")) end)

no_arguments : Json
unfolding schema
no_arguments = schema end (member (text "type") (str (text "object")) end)

tool : Text → Text → Json → Json
tool name description input = obj (
    member (text "description") (str description)
      (member (text "inputSchema") input (member (text "name") (str name) end)))

drain_tool : Bool → Items
unfolding tool no_arguments
drain_tool true = nil
drain_tool false =
    cons
      (tool bus_drain (text "Return and acknowledge all messages received since the last drain.")
        no_arguments)
      nil

unfoldable pub tools : Bool → Items
unfolding tool schema required property body_property no_arguments drain_tool items
tools hide_drain =
    cons
      (tool bus_send (text "Send a direct message to one peer on the bus.") (
        schema
          (member (text "body")
            (obj (
              member (text "description") (str (text "opaque application JSON payload"))
                (member (text "type") (str (text "object")) end)))
            (property (text "to") (text "string") (text "recipient peer name") end))
          (required (text "to" ∷ text "body" ∷ []))))
      (cons
        (tool bus_broadcast
          (text "Broadcast a message to every currently-registered peer except yourself.")
          (schema body_property (required (text "body" ∷ []))))
        (cons
          (tool bus_peers
            (text
              "Return {self, peers}: this adapter's own bus name (self) and the names of other peers currently registered on the bus.")
            no_arguments)
          (drain_tool hide_drain)))

unfoldable pub tools_list_result : Bool → Json
tools_list_result hide_drain = obj (member (text "tools") (arr (tools hide_drain)) end)

content : Text → Json
content t =
    arr
      (cons (obj (member (text "text") (str t) (member (text "type") (str (text "text")) end))) nil)

abbrev pub bool : Bool → Json
bool true = raw (text "true")
bool false = raw (text "false")

unfoldable pub tool_result : Json → Json
unfolding content
tool_result v = obj (
    member (text "content") (content (print v))
      (member (text "isError") (bool false) (member (text "structuredContent") v end)))

unfoldable pub tool_error_result : Text → Json
unfolding content
tool_error_result message =
    obj (member (text "content") (content message) (member (text "isError") (bool true) end))

inbound : Inbound → Json
inbound m = obj (
    member (text "id") (str m.id) (
      member (text "from") (str m.from)
        (member (text "source") (str m.source) (member (text "body") (body_value m.body) end))))

inbounds : List Inbound → Items
inbounds [] = nil
inbounds (m ∷ ms) = cons (inbound m) (inbounds ms)

-- The arguments of a tool: its recipient and body.
pub record Arguments : Type 0 where
  pub to : Text
  pub body : Option Json

argument_members : Members → Option Arguments
argument_members ms = do
  to ← string_field (text "to") [] ms
  some (record { to = to; body = value_field (text "body") none ms })

-- `unmarshalArgs`: `none` is an error. A tool without a recipient does not read it.
unfoldable pub send_arguments : Option Json → Option Arguments
unfolding argument_members
send_arguments none = argument_members end
send_arguments (some null) = argument_members end
send_arguments (some (obj ms)) = argument_members ms
send_arguments (some _) = none

unfoldable pub broadcast_arguments : Option Json → Option (Option Json)
broadcast_arguments none = some none
broadcast_arguments (some null) = some none
broadcast_arguments (some (obj ms)) = some (value_field (text "body") none ms)
broadcast_arguments (some _) = none

module _ (j : Decoder) (b : Bus) where
  abbrev pub Call : Type 0
  Call = b.State → Outcome × b.State

  unfoldable pub refuse : Text → Call
  refuse message s = (bad_arguments message, s)

  -- The error of the bus, or the value, shaped.
  unfoldable pub shape : {A : Type 0} → (A → Json) → Answer A × b.State → Outcome × b.State
  shape f (done a, s) = (result (tool_result (f a)), s)
  shape f (failed e, s) = (failure e, s)

  unfoldable pub send_body : Text → Option Json → Call
  unfolding refuse shape
  send_body to none s = refuse (text "bus.send: \"body\" is required") s
  send_body to (some body) s =
      shape (λ _. obj (member (text "sent") (bool true) (member (text "to") (str to) end)))
        (b.send to (print body) s)

  unfoldable pub send_to : Option Json → Option Arguments → Call
  unfolding refuse send_body
  send_to args none = refuse (text "invalid tool arguments: " ++ j.error_text args)
  send_to args (some a) =
      if is_empty a.to then refuse (text "bus.send: \"to\" is required") else send_body a.to a.body

  unfoldable pub broadcast_body : Option Json → Option (Option Json) → Call
  unfolding refuse shape
  broadcast_body args none s = refuse (text "invalid tool arguments: " ++ j.error_text args) s
  broadcast_body args (some none) s = refuse (text "bus.broadcast: \"body\" is required") s
  broadcast_body args (some (some body)) s =
      shape (λ _. obj (member (text "broadcast") (bool true) end)) (b.broadcast (print body) s)

  unfoldable pub call_tool : Text → Option Json → Call
  unfolding send_to broadcast_body shape inbounds inbound
  call_tool name args s =
      if same name bus_send
      then send_to args (send_arguments args) s
      else if same name bus_broadcast
      then broadcast_body args (broadcast_arguments args) s
      else if same name bus_peers
      then shape
          (λ r. obj (member (text "peers") (arr (items r.1)) (member (text "self") (str r.0) end)))
          (b.peers s)
      else if same name bus_drain
      then shape (λ ms. obj (member (text "messages") (arr (inbounds ms)) end)) (b.drain s)
      else (unknown_tool, s)
