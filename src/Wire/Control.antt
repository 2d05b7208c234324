-- ===== src/Wire/Control.antt =====
-- internal/wire/control.go: the control frames and their JSON form.
use peerbus.Prelude.{
  ◌≡◌, Text, text, same, Text-discrete, List, [], Option, none, some, refl, if◌then◌else◌,
}
use peerbus.Wire.Json.{Json, Members, null, str, arr, obj, end, member}
use peerbus.Prelude.Strings.{fold_name}
use peerbus.Wire.Fields.{
  string_field, raw_field, strings_field, items, strings-items, set_strings, ◌>>=◌,
}
use peerbus.Wire.Envelope.{Envelope, blank, encode, decode, decode_members, received}

abbrev pub control_register : Text
control_register = text "register"

abbrev pub control_ack : Text
control_ack = text "ack"

abbrev pub control_peers : Text
control_peers = text "peers"

abbrev pub control_deliver : Text
control_deliver = text "deliver"

-- The JSON value of a frame; `none` is a frame that is no JSON text.
abbrev pub Frame : Type 0
Frame = Option Json

pub record Register : Type 0 where
  pub protocol_version : Text
  pub kind : Text
  pub token : Text
  pub name : Text

pub record Ack : Type 0 where
  pub protocol_version : Text
  pub kind : Text
  pub id : Text

pub record Peers : Type 0 where
  pub protocol_version : Text
  pub kind : Text
  pub names : List Text

pub record Deliver : Type 0 where
  pub protocol_version : Text
  pub kind : Text
  pub delivery_key : Text
  pub envelope : Envelope

-- ControlTypeOf: `none` is an error.
unfoldable pub control_type_of : Frame → Option Text
control_type_of none = none
control_type_of (some null) = some []
control_type_of (some (obj ms)) = string_field (text "type") [] ms
control_type_of (some _) = none

unfoldable pub encode_register : Register → Json
encode_register r = obj (
    member (text "protocol_version") (str r.protocol_version) (
      member (text "type") (str r.kind)
        (member (text "token") (str r.token) (member (text "name") (str r.name) end))))

unfoldable pub encode_ack : Ack → Json
encode_ack a = obj (
    member (text "protocol_version") (str a.protocol_version)
      (member (text "type") (str a.kind) (member (text "id") (str a.id) end)))

unfoldable pub encode_peers : Peers → Json
encode_peers p = obj (
    member (text "protocol_version") (str p.protocol_version)
      (member (text "type") (str p.kind) (member (text "names") (arr (items p.names)) end)))

unfoldable pub encode_deliver : Deliver → Json
encode_deliver d = obj (
    member (text "protocol_version") (str d.protocol_version) (
      member (text "type") (str d.kind) (
        member (text "delivery_key") (str d.delivery_key)
          (member (text "envelope") (encode d.envelope) end))))

register_members : Members → Option Register
register_members ms = do
  version ← string_field (text "protocol_version") [] ms
  kind ← string_field (text "type") [] ms
  token ← string_field (text "token") [] ms
  name ← string_field (text "name") [] ms
  some (record { protocol_version = version; kind = kind; token = token; name = name })

unfoldable pub decode_register : Frame → Option Register
unfolding register_members
decode_register (some null) = register_members end
decode_register (some (obj ms)) = register_members ms
decode_register _ = none

ack_members : Members → Option Ack
ack_members ms = do
  version ← string_field (text "protocol_version") [] ms
  kind ← string_field (text "type") [] ms
  id ← string_field (text "id") [] ms
  some (record { protocol_version = version; kind = kind; id = id })

unfoldable pub decode_ack : Frame → Option Ack
unfolding ack_members
decode_ack (some null) = ack_members end
decode_ack (some (obj ms)) = ack_members ms
decode_ack _ = none

peers_members : Members → Option Peers
peers_members ms = do
  version ← string_field (text "protocol_version") [] ms
  kind ← string_field (text "type") [] ms
  names ← strings_field (text "names") [] ms
  some (record { protocol_version = version; kind = kind; names = names })

unfoldable pub decode_peers : Frame → Option Peers
unfolding peers_members
decode_peers (some null) = peers_members end
decode_peers (some (obj ms)) = peers_members ms
decode_peers _ = none

set_envelope : Envelope → Json → Option Envelope
set_envelope old null = some old
set_envelope old (obj ms) = decode_members old ms
set_envelope old _ = none

envelope_field : Envelope → Members → Option Envelope
unfolding set_envelope
envelope_field old end = some old
envelope_field old (member j v ms) =
    if same (fold_name j) (text "envelope")
    then (set_envelope old v >>= λ new. envelope_field new ms)
    else envelope_field old ms

deliver_members : Members → Option Deliver
unfolding envelope_field
deliver_members ms = do
  version ← string_field (text "protocol_version") [] ms
  kind ← string_field (text "type") [] ms
  key ← string_field (text "delivery_key") [] ms
  envelope ← envelope_field blank ms
  some (record { protocol_version = version; kind = kind; delivery_key = key; envelope = envelope })

unfoldable pub decode_deliver : Frame → Option Deliver
unfolding deliver_members
decode_deliver (some null) = deliver_members end
decode_deliver (some (obj ms)) = deliver_members ms
decode_deliver _ = none

-- An envelope on the wire has no "type" member, so it is never taken for a control frame.
pub control_type_of-encode : (e : Envelope) → control_type_of (some (encode e)) ≡ some []
unfolding control_type_of encode string_field fold_name Text-discrete
control_type_of-encode e = refl

pub decode_ack-encode : (a : Ack) → decode_ack (some (encode_ack a)) ≡ some a
unfolding decode_ack encode_ack string_field fold_name Text-discrete
decode_ack-encode a = refl

pub decode_register-encode : (r : Register) → decode_register (some (encode_register r)) ≡ some r
unfolding decode_register encode_register string_field fold_name Text-discrete
decode_register-encode r = refl

pub decode_peers-encode : (p : Peers) → decode_peers (some (encode_peers p)) ≡ some p
unfolding decode_peers encode_peers string_field strings_field set_strings fold_name Text-discrete
decode_peers-encode p = rw (strings-items p.names)

-- A deliver frame arrives with its key, and with the envelope that was put in.
pub decode_deliver-encode :
    (d : Deliver)
    → decode_deliver (some (encode_deliver d)) ≡ some (record d { envelope = received d.envelope })
unfolding decode_deliver encode_deliver decode encode string_field raw_field fold_name Text-discrete
decode_deliver-encode d = refl

pub control_type_of-encode_deliver :
    (d : Deliver) → control_type_of (some (encode_deliver d)) ≡ some d.kind
unfolding control_type_of encode_deliver string_field fold_name Text-discrete
control_type_of-encode_deliver d = refl
