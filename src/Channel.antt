-- ===== src/Channel.antt =====
-- internal/channel/channel.go and handshake_notes.go: the claude/channel server on top of internal/mcp.
pub mod Words
pub mod Names
use peerbus.Prelude.{
  ℕ, Text, text, same, is_empty, Bool, true, false, List, [], ◌∷◌, ◌++◌, Option, none, some,
  if◌then◌else◌,
}
use peerbus.Wire.Json.{Json, Members, null, str, raw, arr, obj, end, member}
use peerbus.Wire.Control.{Frame}
use peerbus.Wire.Print.{print}
use peerbus.Mcp.Rpc.{Decoder}
use peerbus.Mcp.Tools.{Bus, Answer, done}
use peerbus.Mcp.Tools
use peerbus.Mcp.Server.{
  Server, new_server, with_server_name, with_channel_capability, without_drain, notify,
}

abbrev pub push_method : Text
push_method = text "notifications/claude/channel"

pub record Inbound : Type 0 where
  pub id : Text
  pub from : Text
  pub source : Text
  pub kind : Text
  pub body : Text

-- OutboundBus, as the operations of its state.
pub record OutboundBus : Type 1 where
  pub State : Type 0
  pub send : Text → Text → State → Answer (Unit {0}) × State
  pub broadcast : Text → State → Answer (Unit {0}) × State
  pub peers : State → Answer (Text × List Text) × State

-- busAdapter
abbrev pub bus_adapter : OutboundBus → Bus
bus_adapter out = record {
  State = out.State;
  send = out.send;
  broadcast = out.broadcast;
  peers = out.peers;
  drain = λ s. (done [], s);
}

-- NewServer of channel.go
abbrev pub new_channel_server : {S : Type 0} → S → Server S
new_channel_server out =
    with_channel_capability
      (without_drain (with_server_name (text "peerbus-cc-adapter") (new_server out)))

-- The value of a key of a map that an object is decoded to: the last one.
unfoldable pub entry : Text → Option Json → Members → Option Json
entry key old end = old
entry key old (member k v ms) = entry key (if same k key then some v else old) ms

-- A value as a string, or its JSON text; null is the empty string.
unfoldable pub shown : Json → Text
shown null = []
shown (str s) = s
shown (raw t) = print (raw t)
shown (arr xs) = print (arr xs)
shown (obj ms) = print (obj ms)

shown_or : Option Json → Text → Text
unfolding shown
shown_or none rest = rest
shown_or (some v) rest = shown v

decoded : Text → Frame → Text
unfolding entry shown_or
decoded body none = body
decoded body (some null) = []
decoded body (some (str s)) = s
decoded body (some (raw t)) = body
decoded body (some (arr xs)) = body
decoded body (some (obj ms)) =
    shown_or (entry (text "text") none ms)
      (shown_or (entry (text "message") none ms) (shown_or (entry (text "content") none ms) body))

or_msg : Text → Text
or_msg [] = text "msg"
or_msg (c ∷ k) = c ∷ k

-- The UTF-8 of U+1F4E8 and of U+1F4E1.
abbrev pub envelope_sign : Text
envelope_sign = 240 ∷ 159 ∷ 147 ∷ 168 ∷ []

abbrev pub antenna_sign : Text
antenna_sign = 240 ∷ 159 ∷ 147 ∷ 161 ∷ []

push_params : Text → Members → Json
push_params content meta =
    obj (member (text "content") (str content) (member (text "meta") (obj meta) end))

-- On every successful registration.
unfoldable pub announce_self : {S : Type 0} → Text → Server S → Server S
unfolding push_params notify
announce_self self = notify push_method (
    push_params (antenna_sign ++ (text " connected as " ++ self))
      (member (text "kind") (str (text "system")) (member (text "self") (str self) end)))

module _ (j : Decoder) where
  unfoldable pub decode_body : Text → Text
  unfolding decoded
  decode_body body = if is_empty body then [] else decoded body (j.parse body)

  unfoldable pub format_inbound : Inbound → Text
  unfolding decode_body or_msg
  format_inbound m =
      envelope_sign
      ++ (text " "
          ++ (or_msg m.kind
              ++ (text " from " ++ (m.from ++ (text ": \"" ++ (decode_body m.body ++ text "\""))))))

  -- A map is written with its keys in order.
  unfoldable pub deliver : {S : Type 0} → Inbound → Server S → Server S
  unfolding push_params notify
  deliver m = notify push_method (
      push_params (format_inbound m) (
        member (text "from") (str m.from) (
          member (text "kind") (str m.kind)
            (member (text "msg_id") (str m.id) (member (text "source") (str m.source) end)))))
