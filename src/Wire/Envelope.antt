-- ===== src/Wire/Envelope.antt =====
-- internal/wire/envelope.go and codec.go: the envelope, its JSON form, the version policy, and the
-- canonical form that is signed.
use peerbus.Prelude.{
  ℕ, ◌*◌, ◌≡◌, Text, text, same, is_empty, Bool, true, false, ◌||◌, [], ◌∷◌, Option, none, some,
  if◌then◌else◌,
}
use peerbus.Wire.Json.{Json, Members, null, str, raw, obj, end, member}
use peerbus.Wire.Print.{print, compact}
use peerbus.Wire.Fields.{string_field, raw_field, ◌>>=◌}

abbrev pub protocol_version : Text
protocol_version = text "v1"

-- 1 << 20
abbrev pub max_frame_bytes : ℕ
max_frame_bytes = 1024 * 1024

abbrev pub kind_msg : Text
kind_msg = text "msg"

abbrev pub kind_broadcast : Text
kind_broadcast = text "broadcast"

-- An empty `body` is an absent one.
pub record Envelope : Type 0 where
  pub protocol_version : Text
  pub id : Text
  pub from : Text
  pub to : Text
  pub ts : Text
  pub source : Text
  pub kind : Text
  pub body : Text
  pub hmac : Text

-- The zero value, into which a frame is decoded.
abbrev pub blank : Envelope
blank = record {
  protocol_version = [];
  id = [];
  from = [];
  to = [];
  ts = [];
  source = [];
  kind = [];
  body = [];
  hmac = [];
}

-- The version is accepted.
unfoldable pub check_version : Text → Bool
check_version v = same v protocol_version

-- A nil raw message is written as null.
abbrev pub body_value : Text → Json
body_value [] = null
body_value (c ∷ s) = raw (c ∷ s)

-- The members that the signature covers, in the order of `canonicalEnvelope`, before `rest`.
unfoldable pub signed_members : Envelope → Members → Members
signed_members e rest = member (text "protocol_version") (str e.protocol_version) (
    member (text "id") (str e.id) (
      member (text "from") (str e.from) (
        member (text "to") (str e.to) (
          member (text "ts") (str e.ts) (
            member (text "source") (str e.source) (
              member (text "kind") (str e.kind)
                (member (text "body") (body_value e.body) rest)))))))

-- json.Marshal(env)
unfoldable pub encode : Envelope → Json
unfolding signed_members
encode e = obj (signed_members e (member (text "hmac") (str e.hmac) end))

-- The bytes of the canonical form: the body is spliced in, an absent one as null, and the hmac is
-- left out.
unfoldable pub canonical_bytes : Envelope → Text
unfolding signed_members
canonical_bytes e = print (obj (signed_members e end))

-- The syntax check of encoding/json on a raw message, of which the code uses that compaction keeps
-- a value valid, and that an empty text is none.
pub record Syntax : Type 0 where
  pub valid : Text → Bool
  pub valid-compact : (t : Text) → valid t ≡ true → valid (compact t) ≡ true
  pub valid-empty : valid [] ≡ false
  pub valid-null : valid (text "null") ≡ true

-- Canonical: `none` is the error of json.Marshal on a body that is no JSON value.
unfoldable pub canonical : Syntax → Envelope → Option Text
unfolding canonical_bytes
canonical j e = if is_empty e.body || j.valid e.body then some (canonical_bytes e) else none

unfoldable pub decode_members : Envelope → Members → Option Envelope
decode_members old ms = do
  version ← string_field (text "protocol_version") old.protocol_version ms
  id ← string_field (text "id") old.id ms
  from ← string_field (text "from") old.from ms
  to ← string_field (text "to") old.to ms
  ts ← string_field (text "ts") old.ts ms
  source ← string_field (text "source") old.source ms
  kind ← string_field (text "kind") old.kind ms
  hmac ← string_field (text "hmac") old.hmac ms
  some (record {
    protocol_version = version;
    id = id;
    from = from;
    to = to;
    ts = ts;
    source = source;
    kind = kind;
    body = raw_field (text "body") old.body ms;
    hmac = hmac;
  })

-- json.Unmarshal(data, &env)
unfoldable pub decode : Json → Option Envelope
unfolding decode_members
decode null = some blank
decode (obj ms) = decode_members blank ms
decode _ = none

-- What a recipient has of an envelope: the body compacted, or null for an absent one.
abbrev pub received : Envelope → Envelope
received e = record e { body = print (body_value e.body) }
