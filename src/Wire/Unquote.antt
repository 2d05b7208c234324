-- ===== src/Wire/Unquote.antt =====
-- internal/wire/codec.go: what the canonical form determines.
use peerbus.Prelude.{ℕ, ◌≡◌, ◌⊎◌, Text, text, ◌∷◌, List}
use peerbus.Wire.Print.{escape, print}
use peerbus.Wire.Runes.{IsUtf8}
use peerbus.Wire.Envelope.{Envelope, body_value}

-- The rune is written by its name.
Named : ℕ → Type 0
Named a =
    ((a ≡ 256) × (escape a ≡ 92 ∷ text "u2028"))
    ⊎ (((a ≡ 257) × (escape a ≡ 92 ∷ text "u2029")) ⊎ ((a ≡ 258) × (escape a ≡ 92 ∷ text "ufffd")))

-- The strings that a signature covers are valid UTF-8.
pub record HasUtf8 (e : Envelope) : Type 0 where
  pub protocol_version : IsUtf8 e.protocol_version
  pub id : IsUtf8 e.id
  pub from : IsUtf8 e.from
  pub to : IsUtf8 e.to
  pub ts : IsUtf8 e.ts
  pub source : IsUtf8 e.source
  pub kind : IsUtf8 e.kind

pub HasUtf8-keeps :
    (e : Envelope) (b m : Text) → HasUtf8 e → HasUtf8 (record e { body = b; hmac = m })
HasUtf8-keeps e b m u = record {
  protocol_version = u.protocol_version;
  id = u.id;
  from = u.from;
  to = u.to;
  ts = u.ts;
  source = u.source;
  kind = u.kind;
}

-- What the signature covers of an envelope.
pub record SameContent (e f : Envelope) : Type 0 where
  pub protocol_version : e.protocol_version ≡ f.protocol_version
  pub id : e.id ≡ f.id
  pub from : e.from ≡ f.from
  pub to : e.to ≡ f.to
  pub ts : e.ts ≡ f.ts
  pub source : e.source ≡ f.source
  pub kind : e.kind ≡ f.kind
  pub body : print (body_value e.body) ≡ print (body_value f.body)
